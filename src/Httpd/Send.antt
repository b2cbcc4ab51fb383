-- ===== src/Httpd/Send.antt =====
-- apps/httpserver_raw/httpd.c: `http_send`, the callbacks `http_sent` and `http_poll` that call it, and
-- `http_err`.
pub mod Data
pub mod Delivery
pub mod Run
use scion_lwip_contrib.Base.{
  ℕ, zero, suc, ◌+◌, ◌-◌, ◌%◌, Bool, true, false, not, ◌&&◌, List, [], Option, none, some, Bytes,
  length, ◌==◌, leb, ltb, if◌then◌else◌,
}
use scion_lwip_contrib.Lwip.{Err, is_ok, ◌>>=◌, ◌>>◌, lwip_assert}
use scion_lwip_contrib.Httpd.Write.{Tcp, Pcb}
use scion_lwip_contrib.Httpd.State.{
  FsFile, fs_bytes_left, HttpState, num_file_hdr_strings, Conn, http_close_conn,
}
use scion_lwip_contrib.Httpd.Headers.{
  DataToSend, no_data_to_send, data_to_send_continue, data_to_send_break, HeaderLoop,
  http_send_headers, headers_result,
}
use scion_lwip_contrib.Httpd.Ssi.Scan.{SsiState}
use scion_lwip_contrib.Httpd.Ssi.Insert.{SsiHandler}
use scion_lwip_contrib.Httpd.Ssi.Loop.{Sending, send_file, send_len, http_send_data_ssi}

-- The values that the sending routines start from.
unfoldable pub start_sending : Pcb → HttpState → Sending
start_sending pcb hs = record {
  pcb = pcb;
  file = hs.file;
  left = hs.left;
  len = 0;
  err = Err.ok;
  data_to_send = false;
}

-- `http_send_data_nonssi`
unfoldable pub http_send_data_nonssi : Tcp → Bytes → Sending → Sending
unfolding send_file send_len
http_send_data_nonssi tcp file_data s = send_file tcp file_data (send_len tcp s.pcb s.left) s

-- The choice between the two, and what it leaves of `hs`; with it the connection's `pcb` and
-- `data_to_send`.
pub record SentData : Type 0 where
  pub hs : HttpState
  pub pcb : Pcb
  pub data_to_send : Bool

unfoldable pub update_file : HttpState → Option SsiState → Sending → SentData
update_file hs ssi s = record {
  hs = record hs { file = s.file; left = s.left; ssi = ssi };
  pcb = s.pcb;
  data_to_send = s.data_to_send;
}

unfoldable pub send_data :
    Tcp → Option SsiHandler → Bytes → Option SsiState → HttpState → Pcb → SentData
unfolding http_send_data_nonssi http_send_data_ssi update_file start_sending
send_data tcp handler file_data none hs pcb =
    update_file hs none (http_send_data_nonssi tcp file_data (start_sending pcb hs))
send_data tcp handler file_data (some ssi) hs pcb =
    let sent = http_send_data_ssi tcp handler file_data ssi (start_sending pcb hs) in
    update_file hs (some sent.0) sent.1

-- A connection that stays open, and one that is closed: with the value that `http_send` returns.
abbrev pub stays : HttpState → Pcb → Bool → Option (Conn × Bool)
stays hs pcb r = some (record { pcb = pcb; hs = some hs; closed = false }, r)

abbrev pub ends : Tcp → Pcb → Option (Conn × Bool)
ends tcp pcb = some (http_close_conn tcp pcb, false)

-- `http_send` behind the data: the end of the file closes the connection.
unfoldable pub after_data : Tcp → FsFile → SentData → Option (Conn × Bool)
unfolding fs_bytes_left http_close_conn
after_data tcp f d =
    if d.hs.left == 0 && fs_bytes_left f == 0
    then ends tcp d.pcb
    else stays d.hs d.pcb d.data_to_send

-- `http_send` behind the headers. `http_check_eof` closes at the end of the file; without
-- LWIP_HTTPD_DYNAMIC_FILE_READ it asserts that there is nothing left to read.
unfoldable pub send_body :
    Tcp → Option SsiHandler → Option FsFile → HttpState → Pcb → Option (Conn × Bool)
unfolding send_data after_data fs_bytes_left http_close_conn
send_body tcp handler none hs pcb = if hs.left == 0 then ends tcp pcb else none
send_body tcp handler (some f) hs pcb =
    if hs.left == 0
    then if fs_bytes_left f == 0 then ends tcp pcb else none
    else after_data tcp f (send_data tcp handler f.contents hs.ssi hs pcb)

-- What `http_send_headers` leaves of `hs`.
unfoldable pub with_headers : HttpState → HeaderLoop → HttpState
with_headers hs l = record hs { hdr_pos = l.hdr_pos; hdr_index = l.hdr_index }

unfoldable pub after_headers :
    Tcp → Option SsiHandler → HttpState → HeaderLoop → DataToSend → Option (Conn × Bool)
unfolding send_body with_headers
after_headers tcp handler hs l no_data_to_send = stays (with_headers hs l) l.pcb false
after_headers tcp handler hs l data_to_send_break = stays (with_headers hs l) l.pcb true
after_headers tcp handler hs l data_to_send_continue =
    send_body tcp handler hs.handle (with_headers hs l) l.pcb

-- `http_send`: `none` where an assertion fails or a NULL handle is read; the Boolean is whether it
-- returns another value than 0.
unfoldable pub http_send : Tcp → Option SsiHandler → HttpState → Pcb → Option (Conn × Bool)
unfolding after_headers send_body http_send_headers headers_result
http_send tcp handler hs pcb =
    if ltb hs.hdr_index num_file_hdr_strings
    then after_headers tcp handler hs (http_send_headers tcp pcb hs)
        (headers_result hs (http_send_headers tcp pcb hs))
    else send_body tcp handler hs.handle hs pcb

-- `http_sent`, on the argument `hs`
unfoldable pub sent_to : Tcp → Option SsiHandler → Conn → Option HttpState → Option Conn
unfolding http_send
sent_to tcp handler c none = some c
sent_to tcp handler c (some hs) = do
  r ← http_send tcp handler (record hs { retries = 0 }) c.pcb
  some r.0

unfoldable pub http_sent : Tcp → Option SsiHandler → Conn → Option Conn
unfolding sent_to
http_sent tcp handler c = sent_to tcp handler c c.hs

-- `HTTPD_MAX_RETRIES`
abbrev pub httpd_max_retries : ℕ
httpd_max_retries = 4

-- `if(hs && (hs->handle))` of `http_poll`
unfoldable pub poll_send : Tcp → Option SsiHandler → Option FsFile → HttpState → Pcb → Option Conn
unfolding http_send
poll_send tcp handler none hs pcb = some (record { pcb = pcb; hs = some hs; closed = false })
poll_send tcp handler (some f) hs pcb = do r ← http_send tcp handler hs pcb; some r.0

-- `http_poll`, on the argument `hs`; `retries` is a `u8_t`.
unfoldable pub poll_to : Tcp → Option SsiHandler → Pcb → Option HttpState → Option Conn
unfolding poll_send http_close_conn
poll_to tcp handler pcb none = some (http_close_conn tcp pcb)
poll_to tcp handler pcb (some hs) =
    if (hs.retries + 1) % 256 == httpd_max_retries
    then some (http_close_conn tcp pcb)
    else poll_send tcp handler hs.handle (record hs { retries = (hs.retries + 1) % 256 }) pcb

unfoldable pub http_poll : Tcp → Option SsiHandler → Conn → Option Conn
unfolding poll_to
http_poll tcp handler c = poll_to tcp handler c.pcb c.hs

-- `http_err`: the state is freed, and lwIP has freed the connection itself.
unfoldable pub http_err : Conn → Conn
http_err c = record c { hs = none }
