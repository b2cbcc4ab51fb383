-- ===== src/Httpd/State.antt =====
-- apps/httpserver_raw/httpd.c: `struct http_state`, with `struct fs_file` of fs.h and fs.c's
-- `fs_bytes_left`, in the configuration with CGI, SSI and dynamic headers.
use scion_lwip_contrib.Base.{ℕ, ◌-◌, Bool, List, [], Option, none, Bytes, length}
use scion_lwip_contrib.Lwip.{is_ok}
use scion_lwip_contrib.Httpd.Write.{Tcp, Pcb}
use scion_lwip_contrib.Httpd.Ssi.Scan.{SsiState}

-- `struct fs_file`; `len` is the length of the data.
pub record FsFile : Type 0 where
  pub contents : Bytes
  pub index : ℕ
  pub http_header_included : Bool

unfoldable pub fs_bytes_left : FsFile → ℕ
fs_bytes_left f = length f.contents - f.index

-- `struct http_state`: `handle` is `none` where it is NULL, and `file` is the offset in the handle's data;
-- `req` is the chain of received buffers,
-- empty where it is NULL.
pub record HttpState : Type 0 where
  pub handle : Option FsFile
  pub file : ℕ
  pub left : ℕ
  pub retries : ℕ
  pub ssi : Option SsiState
  pub hdrs : List Bytes
  pub hdr_pos : ℕ
  pub hdr_index : ℕ
  pub req : List Bytes

-- `NUM_FILE_HDR_STRINGS`
abbrev pub num_file_hdr_strings : ℕ
num_file_hdr_strings = 3

-- `http_state_init`
abbrev pub http_state_init : HttpState
http_state_init = record {
  handle = none;
  file = 0;
  left = 0;
  retries = 0;
  ssi = none;
  hdrs = [];
  hdr_pos = 0;
  hdr_index = num_file_hdr_strings;
  req = [];
}

-- A connection: what lwIP holds as the callbacks' argument, `none` after `tcp_arg(pcb, NULL)`, and whether
-- `tcp_close` succeeded.
pub record Conn : Type 0 where
  pub pcb : Pcb
  pub hs : Option HttpState
  pub closed : Bool

-- `http_close_conn`: the state is freed, and the connection closed.
unfoldable pub http_close_conn : Tcp → Pcb → Conn
http_close_conn tcp pcb = record { pcb = pcb; hs = none; closed = is_ok tcp.close }
