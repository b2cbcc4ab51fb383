-- ===== src/Httpd/Headers.antt =====
-- apps/httpserver_raw/httpd.c: `http_send_headers`.
pub mod Sent
use scion_lwip_contrib.Base.{
  ℕ, zero, suc, ◌+◌, ◌-◌, Bool, true, false, not, ◌&&◌, ◌||◌, List, [], Option, none, some, Bytes,
  length, get_or, drop, ◌==◌, ltb, if◌then◌else◌,
}
use scion_lwip_contrib.Lwip.{Err, is_ok}
use scion_lwip_contrib.Httpd.Write.{Tcp, Pcb, Written, http_write}
use scion_lwip_contrib.Httpd.State.{HttpState, num_file_hdr_strings}

-- `HTTP_NO_DATA_TO_SEND`, `HTTP_DATA_TO_SEND_CONTINUE`, `HTTP_DATA_TO_SEND_BREAK`
pub data DataToSend : Type 0 where
  no_data_to_send data_to_send_continue data_to_send_break : DataToSend

-- The local variables of the loop, with what it changes.
pub record HeaderLoop : Type 0 where
  pub pcb : Pcb
  pub hdr_pos : ℕ
  pub hdr_index : ℕ
  pub len : ℕ
  pub sendlen : ℕ
  pub data_to_send : DataToSend

-- The header that is being sent, and how much of what is left of it can go out.
abbrev pub current : List Bytes → HeaderLoop → Bytes
current hdrs l = get_or hdrs l.hdr_index []

unfoldable pub header_len : List Bytes → HeaderLoop → ℕ
header_len hdrs l =
    if ltb l.len (length (current hdrs l) - l.hdr_pos)
    then l.len
    else length (current hdrs l) - l.hdr_pos

-- `hs->hdr_pos += sendlen; len -= sendlen;`, and on to the next header behind the end of this one.
unfoldable pub move_on : List Bytes → HeaderLoop → ℕ → HeaderLoop
move_on hdrs l sendlen =
    let at_end = l.hdr_pos + sendlen == length (current hdrs l) in
    record l {
      hdr_pos = if at_end then 0 else l.hdr_pos + sendlen;
      hdr_index = if at_end then l.hdr_index + 1 else l.hdr_index;
      len = l.len - sendlen;
      sendlen = sendlen;
    }

unfoldable pub after_header : List Bytes → HeaderLoop → ℕ → Written → HeaderLoop
unfolding move_on
after_header hdrs l old_sendlen w =
    if is_ok w.err
    then move_on hdrs
        (record l {
          pcb = w.pcb;
          data_to_send = if w.len == old_sendlen then l.data_to_send else data_to_send_continue;
        })
        w.len
    else move_on hdrs (record l { pcb = w.pcb }) 0

-- One round of the loop.
unfoldable pub header_round : Tcp → List Bytes → HeaderLoop → HeaderLoop
unfolding header_len after_header
header_round tcp hdrs l =
    after_header hdrs l (header_len hdrs l)
      (http_write tcp l.pcb (drop l.hdr_pos (current hdrs l)) (header_len hdrs l))

-- The loop's condition, and the loop, with fuel.
unfoldable pub header_goes_on : HeaderLoop → Bool
header_goes_on l = not (l.len == 0) && ltb l.hdr_index num_file_hdr_strings && not (l.sendlen == 0)

unfoldable pub header_loop : ℕ → Tcp → List Bytes → HeaderLoop → HeaderLoop
unfolding header_round header_goes_on
header_loop zero tcp hdrs l = l
header_loop (suc fuel) tcp hdrs l =
    let rest = header_loop fuel tcp hdrs (header_round tcp hdrs l) in
    if header_goes_on l then rest else l

unfoldable pub start_headers : Tcp → Pcb → HttpState → HeaderLoop
start_headers tcp pcb hs = record {
  pcb = pcb;
  hdr_pos = hs.hdr_pos;
  hdr_index = hs.hdr_index;
  len = tcp.sndbuf pcb.writes;
  sendlen = tcp.sndbuf pcb.writes;
  data_to_send = no_data_to_send;
}

-- `http_send_headers`: the loop's end is the state that it leaves.
unfoldable pub http_send_headers : Tcp → Pcb → HttpState → HeaderLoop
unfolding header_loop start_headers
http_send_headers tcp pcb hs =
    header_loop (tcp.sndbuf pcb.writes + 1) tcp hs.hdrs (start_headers tcp pcb hs)

-- What it returns.
unfoldable pub headers_result : HttpState → HeaderLoop → DataToSend
headers_result hs l =
    if ltb l.hdr_index num_file_hdr_strings
    then data_to_send_break
    else elim hs.handle [ none ↦ data_to_send_break | some f ↦ l.data_to_send ]
