-- ===== src/Httpd/Request.antt =====
-- apps/httpserver_raw/httpd.c: `http_parse_request` and `http_recv`, in the configuration with
-- LWIP_HTTPD_SUPPORT_REQUESTLIST and LWIP_HTTPD_SUPPORT_V09, and without POST and extended status
-- pages. A chain of buffers is the list of their contents.
pub mod Get
pub mod Served
pub mod Waiting
pub mod Pieces
use scion_lwip_contrib.Base.{
  ℕ, zero, suc, ◌+◌, ◌-◌, min, Bool, true, false, not, ◌&&◌, ◌||◌, List, [], ◌∷◌, ◌++◌, Option,
  none, some, Bytes, codes, length, take, drop, starts_with, ◌==◌, leb, ltb, if◌then◌else◌,
}
use scion_lwip_contrib.Lwip.{Err, is_ok, ◌>>=◌}
use scion_lwip_contrib.Httpd.Write.{Tcp, Pcb}
use scion_lwip_contrib.Httpd.State.{FsFile, HttpState, Conn, http_close_conn}
use scion_lwip_contrib.Httpd.Ssi.Insert.{SsiHandler}
use scion_lwip_contrib.Httpd.Send.{http_send}
use scion_lwip_contrib.Httpd.Files.{FsdataFile, Cgi, strnstr, crlf}
use scion_lwip_contrib.Httpd.Response.{http_find_file}
use scion_lwip_contrib.Httpd.Headers.Sent.{concat}

-- `MIN_REQ_LEN`, `LWIP_HTTPD_MAX_REQ_LENGTH` (and LWIP_HTTPD_REQ_BUFSIZE), `LWIP_HTTPD_REQ_QUEUELEN`
abbrev pub min_req_len : ℕ
min_req_len = 7

abbrev pub max_req_length : ℕ
max_req_length = 1023

abbrev pub req_queuelen : ℕ
req_queuelen = 5

-- What the request line says so far.
pub data RequestLine : Type 0 where
  incomplete : RequestLine
  not_implemented : RequestLine
  get : Bytes → Bool → RequestLine

-- The URI up to `sp2`, at its index behind `sp1 + 1`, when the headers have ended.
unfoldable pub parse_uri : Bytes → Bytes → Option ℕ → Bool → RequestLine
parse_uri request after none is_09 = incomplete
parse_uri request after (some uri_len) is_09 =
    elim (strnstr request (crlf ++ crlf) (length request)) [
      | none ↦ incomplete
      | some end ↦ get (take uri_len after) is_09
    ]

-- The URI behind the method: to the next space, or in HTTP/0.9 to the end of the line.
unfoldable pub parse_get : Bytes → Bytes → Option ℕ → RequestLine
unfolding parse_uri
parse_get request after none = parse_uri request after (strnstr after crlf (length after)) true
parse_get request after (some uri_len) = parse_uri request after (some uri_len) false

unfoldable pub parse_method : Bytes → RequestLine
unfolding parse_get
parse_method request =
    if starts_with (codes "GET ") request
    then parse_get request (drop 4 request)
        (strnstr (drop 4 request) (codes " ") (length (drop 4 request)))
    else not_implemented

-- From `if (data_len >= MIN_REQ_LEN)` on.
unfoldable pub parse_line : Bytes → RequestLine
unfolding parse_method
parse_line request =
    if leb min_req_len (length request)
    then elim (strnstr request crlf (length request)) [
      | none ↦ incomplete
      | some end ↦ parse_method request
    ]
    else incomplete

-- The bytes that are parsed: of several buffers, a copy of up to 1023.
unfoldable pub request_data : List Bytes → Bytes
request_data [] = []
request_data (p ∷ []) = p
request_data (p ∷ q ∷ ps) = take max_req_length (concat (p ∷ q ∷ ps))

-- The results of `http_parse_request`, ERR_OK, ERR_INPROGRESS, ERR_ARG and ERR_USE, and the value ERR_ABRT that
-- `parsed` has in `http_recv` where it is not called.
pub data Parsed : Type 0 where
  parsed in_progress bad_request in_use aborted : Parsed

unfoldable pub finish_parse :
    List FsdataFile → List Cgi → Bool → HttpState → RequestLine → Parsed × HttpState
finish_parse files cgis ssi_allocated hs (get uri is_09) =
    (parsed, http_find_file files cgis hs uri is_09 ssi_allocated)
finish_parse files cgis ssi_allocated hs not_implemented = (bad_request, hs)
finish_parse files cgis ssi_allocated hs incomplete =
    if leb (length (concat hs.req)) max_req_length && leb (length hs.req) req_queuelen
    then (in_progress, hs)
    else (bad_request, hs)

-- `if ((hs->handle != NULL) || (hs->file != NULL))`, and what follows with the chain enqueued; the two
-- pointers are set together.
unfoldable pub parse_for :
    List FsdataFile → List Cgi → Bool → Option FsFile → HttpState → HttpState → Parsed × HttpState
unfolding finish_parse parse_line request_data
parse_for files cgis ssi_allocated (some f) queued hs = (in_use, hs)
parse_for files cgis ssi_allocated none queued hs =
    finish_parse files cgis ssi_allocated queued (parse_line (request_data queued.req))

-- `http_parse_request` on a chain that was received.
unfoldable pub http_parse_request :
    List FsdataFile → List Cgi → Bool → HttpState → List Bytes → Parsed × HttpState
unfolding parse_for
http_parse_request files cgis ssi_allocated hs p =
    parse_for files cgis ssi_allocated hs.handle (record hs { req = hs.req ++ p }) hs

-- `http_recv` with the result of the parser: the chain is freed unless more is to come.
unfoldable pub after_parse : Tcp → Option SsiHandler → Pcb → Parsed × HttpState → Option Conn
unfolding http_send http_close_conn
after_parse tcp handler pcb (in_progress, hs) =
    some (record { pcb = pcb; hs = some hs; closed = false })
after_parse tcp handler pcb (parsed, hs) = do
  r ← http_send tcp handler (record hs { req = [] }) pcb
  some r.0
after_parse tcp handler pcb (bad_request, hs) = some (http_close_conn tcp pcb)
after_parse tcp handler pcb (in_use, hs) =
    some (record { pcb = pcb; hs = some (record hs { req = [] }); closed = false })
after_parse tcp handler pcb (aborted, hs) =
    some (record { pcb = pcb; hs = some (record hs { req = [] }); closed = false })

-- `http_recv` with data: parsed only where no file is being sent.
unfoldable pub recv_data :
    List FsdataFile → List Cgi → Bool → Option FsFile → HttpState → List Bytes → Parsed × HttpState
unfolding http_parse_request
recv_data files cgis ssi_allocated none hs p = http_parse_request files cgis ssi_allocated hs p
recv_data files cgis ssi_allocated (some f) hs p = (aborted, hs)

-- `http_recv` on the argument `hs`; the chain is empty where `p` is NULL.
unfoldable pub recv_to :
    List FsdataFile
    → List Cgi
    → Bool
    → Tcp
    → Option SsiHandler
    → Pcb
    → List Bytes
    → Err
    → Option HttpState
    → Option Conn
unfolding after_parse recv_data http_close_conn
recv_to files cgis ssi_allocated tcp handler pcb p err none = some (http_close_conn tcp pcb)
recv_to files cgis ssi_allocated tcp handler pcb [] err (some hs) = some (http_close_conn tcp pcb)
recv_to files cgis ssi_allocated tcp handler pcb (q ∷ qs) err (some hs) =
    if is_ok err
    then after_parse tcp handler pcb (recv_data files cgis ssi_allocated hs.handle hs (q ∷ qs))
    else some (http_close_conn tcp pcb)

unfoldable pub http_recv :
    List FsdataFile
    → List Cgi
    → Bool
    → Tcp
    → Option SsiHandler
    → List Bytes
    → Err
    → Conn
    → Option Conn
unfolding recv_to
http_recv files cgis ssi_allocated tcp handler p err c =
    recv_to files cgis ssi_allocated tcp handler c.pcb p err c.hs
