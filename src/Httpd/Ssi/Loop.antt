-- ===== src/Httpd/Ssi/Loop.antt =====
-- apps/httpserver_raw/httpd.c: `http_send_data_ssi`, and the write of file data that
-- `http_send_data_nonssi` shares.
pub mod FileSent
use scion_lwip_contrib.Base.{
  ℕ, zero, suc, ◌+◌, ◌-◌, ◌*◌, min, Bool, true, false, not, ◌&&◌, Option, Bytes, length, get_or,
  drop, ◌==◌, ltb, if◌then◌else◌,
}
use scion_lwip_contrib.Lwip.{Err, is_ok}
use scion_lwip_contrib.Httpd.Write.{Tcp, Pcb, Written, http_write}
use scion_lwip_contrib.Httpd.Ssi.Scan.{
  TagCheckState, tag_none, tag_leadin, tag_found, tag_leadout, tag_sending, SsiState, advance,
  scan_none, scan_leadin, scan_found, scan_leadout, completes,
}
use scion_lwip_contrib.Httpd.Ssi.Insert.{SsiHandler, get_tag_insert, max_tag_insert_len}

-- The local variables of a sending routine with what it changes of `hs` and the connection:
-- `hs->file` and `hs->left`, `len`, `err` and `data_to_send`.
pub record Sending : Type 0 where
  pub pcb : Pcb
  pub file : ℕ
  pub left : ℕ
  pub len : ℕ
  pub err : Err
  pub data_to_send : Bool

unfoldable pub after_write : Sending → Written → Sending
after_write s w =
    if is_ok w.err
    then record {
      pcb = w.pcb;
      file = s.file + w.len;
      left = s.left - w.len;
      len = w.len;
      err = w.err;
      data_to_send = true;
    }
    else record s { pcb = w.pcb; len = w.len; err = w.err }

-- `err = http_write(pcb, hs->file, &len, ...)`, and what follows where it succeeds.
unfoldable pub send_file : Tcp → Bytes → ℕ → Sending → Sending
unfolding after_write
send_file tcp file_data len s = after_write s (http_write tcp s.pcb (drop s.file file_data) len)

-- The length that goes out at once: what there is, at most the send buffer and two segments.
unfoldable pub send_len : Tcp → Pcb → ℕ → ℕ
send_len tcp pcb n =
    min (if ltb (tcp.sndbuf pcb.writes) n then tcp.sndbuf pcb.writes else n) (2 * tcp.mss)

-- The end of a tag in TAG_LEADOUT: the insert is fetched, and the file's text up to the tag's end is sent.
unfoldable pub tag_complete :
    Tcp → Option SsiHandler → Bytes → SsiState → Sending → SsiState × Sending
unfolding send_file
tag_complete tcp handler file_data ssi s =
    let next = advance ssi in
    let ssi' = record next {
      tag_insert = get_tag_insert handler ssi.tag_name;
      tag_index = 0;
      tag_state = tag_sending;
      tag_end = next.parsed;
    } in
    if ltb s.file ssi'.tag_end
    then (ssi', send_file tcp file_data (min s.len (ssi'.tag_end - s.file)) s)
    else (ssi', s)

-- The write of a part of the insert.
unfoldable pub send_insert : Tcp → SsiState → Sending → SsiState × Sending
send_insert tcp ssi s =
    let w =
      http_write tcp s.pcb (drop ssi.tag_index ssi.tag_insert)
        (min s.len (length ssi.tag_insert - ssi.tag_index)) in
    if is_ok w.err
    then (
      record ssi { tag_index = ssi.tag_index + w.len },
      record s { pcb = w.pcb; len = w.len; err = w.err; data_to_send = true },
    )
    else (ssi, record s { pcb = w.pcb; len = w.len; err = w.err })

-- The case TAG_SENDING: the file's text up to the tag's end, then the insert.
unfoldable pub tag_send : Tcp → Bytes → SsiState → Sending → SsiState × Sending
unfolding send_file send_insert
tag_send tcp file_data ssi s =
    if ltb s.file ssi.tag_end
    then (ssi, send_file tcp file_data (min s.len (ssi.tag_end - s.file)) s)
    else if ltb ssi.tag_index (length ssi.tag_insert)
    then send_insert tcp ssi s
    else (record ssi { tag_index = 0; tag_state = tag_none }, s)

-- One round of the loop: the switch on the state, at the character `*ssi->parsed`.
unfoldable pub ssi_switch :
    TagCheckState → ℕ → Tcp → Option SsiHandler → Bytes → SsiState → Sending → SsiState × Sending
unfolding tag_complete tag_send
ssi_switch tag_none c tcp handler file_data ssi s = (scan_none c ssi, s)
ssi_switch tag_leadin c tcp handler file_data ssi s = (scan_leadin c ssi, s)
ssi_switch tag_found c tcp handler file_data ssi s = (scan_found c ssi, s)
ssi_switch tag_leadout c tcp handler file_data ssi s =
    if completes c ssi then tag_complete tcp handler file_data ssi s else (scan_leadout c ssi, s)
ssi_switch tag_sending c tcp handler file_data ssi s = tag_send tcp file_data ssi s

-- `while((ssi->parse_left) && (err == ERR_OK))`, with fuel; `false` where it is left by `return`, since
-- `len` is 0.
unfoldable pub ssi_loop :
    ℕ → Tcp → Option SsiHandler → Bytes → SsiState → Sending → Bool × SsiState × Sending
ssi_loop zero tcp handler file_data ssi s = (true, ssi, s)
ssi_loop (suc fuel) tcp handler file_data ssi s =
    let next =
      ssi_switch ssi.tag_state (get_or file_data ssi.parsed 0) tcp handler file_data ssi s in
    let rest = ssi_loop fuel tcp handler file_data next.0 next.1 in
    if not (ssi.parse_left == 0) && is_ok s.err
    then if s.len == 0 then (false, ssi, s) else rest
    else (true, ssi, s)

-- A count that no round leaves as it is: characters to parse, text to send, and the insert.
unfoldable pub ssi_fuel : SsiState → Sending → ℕ
ssi_fuel ssi s = ssi.parse_left * (max_tag_insert_len + 4) + s.left + length ssi.tag_insert + 4

-- What is sent behind the loop.
unfoldable pub send_parsed : Tcp → Bytes → SsiState → Sending → Sending
unfolding send_file send_len
send_parsed tcp file_data ssi s =
    send_file tcp file_data (send_len tcp s.pcb (ssi.parsed - s.file)) s

abbrev pub is_sending : TagCheckState → Bool
is_sending tag_sending = true
is_sending _ = false

unfoldable pub after_loop : Tcp → Bytes → Bool × SsiState × Sending → SsiState × Sending
unfolding send_parsed
after_loop tcp file_data (false, ssi, s) = (ssi, s)
after_loop tcp file_data (true, ssi, s) =
    if not (is_sending ssi.tag_state) && ltb s.file ssi.parsed
    then (ssi, send_parsed tcp file_data ssi s)
    else (ssi, s)

unfoldable pub parse_and_send :
    Tcp → Option SsiHandler → Bytes → SsiState → Sending → SsiState × Sending
unfolding after_loop ssi_loop ssi_fuel
parse_and_send tcp handler file_data ssi s =
    after_loop tcp file_data (ssi_loop (ssi_fuel ssi s) tcp handler file_data ssi s)

-- `http_send_data_ssi`
unfoldable pub http_send_data_ssi :
    Tcp → Option SsiHandler → Bytes → SsiState → Sending → SsiState × Sending
unfolding parse_and_send send_parsed
http_send_data_ssi tcp handler file_data ssi s =
    if ltb s.file ssi.parsed
    then if tcp.sndbuf (send_parsed tcp file_data ssi s).pcb.writes == 0
      then (ssi, send_parsed tcp file_data ssi s)
      else parse_and_send tcp handler file_data ssi (send_parsed tcp file_data ssi s)
    else parse_and_send tcp handler file_data ssi (record s { len = tcp.sndbuf s.pcb.writes })
