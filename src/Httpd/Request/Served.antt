-- ===== src/Httpd/Request/Served.antt =====
-- From the last buffer of a request to the first writes of the response.
use scion_lwip_contrib.Base.{
  ◌≤◌, Bool, false, List, [], ◌∷◌, ◌++◌, append-nil, Option, none, some, Bytes, length, take-all,
  ◌≡◌, refl, sym, subst, ap, ◌∙◌,
}
use scion_lwip_contrib.Lwip.{Err, ◌>>=◌}
use scion_lwip_contrib.Httpd.Params.RoundTrip.{Without}
use scion_lwip_contrib.Httpd.Write.{Tcp, Pcb}
use scion_lwip_contrib.Httpd.State.{FsFile, HttpState, Conn}
use scion_lwip_contrib.Httpd.Ssi.Insert.{SsiHandler, Fits}
use scion_lwip_contrib.Httpd.Headers.Sent.{concat}
use scion_lwip_contrib.Httpd.Send.{http_send}
use scion_lwip_contrib.Httpd.Send.Delivery.{http_send-Delivered}
use scion_lwip_contrib.Httpd.Send.Data.{pending, IsServing, Delivered}
use scion_lwip_contrib.Httpd.Send.Run.{IsGoing}
use scion_lwip_contrib.Httpd.Files.{FsdataFile, Cgi}
use scion_lwip_contrib.Httpd.Response.{find_file, http_find_file}
use scion_lwip_contrib.Httpd.Response.Serving.{http_find_file-response}
use scion_lwip_contrib.Httpd.Response.Setup.{IsIdle, response}
use scion_lwip_contrib.Httpd.Request.{
  parsed, Parsed, request_data, max_req_length, parse_line, parse_for, finish_parse,
  http_parse_request, recv_data, recv_to, after_parse, http_recv,
}
use scion_lwip_contrib.Httpd.Request.Get.{get_request, parse_line-get_request}

-- Buffers that hold up to 1023 bytes in all are parsed as their contents.
pub request_data-concat :
    (ps : List Bytes) → length (concat ps) ≤ max_req_length → request_data ps ≡ concat ps
unfolding request_data
request_data-concat [] h = refl
request_data-concat (p ∷ []) h = sym (append-nil p)
request_data-concat (p ∷ q ∷ ps) h = take-all max_req_length (concat (p ∷ q ∷ ps)) h

recv_data-get :
    (files : List FsdataFile) (cgis : List Cgi) (ssi_allocated : Bool) (hs : HttpState)
    (p : List Bytes) (handle : Option FsFile)
    → hs.handle ≡ handle
    → handle ≡ none
    → (uri version headers : Bytes) → Without b' ' uri
    → Without 0 uri
    → Without 0 version
    → concat (hs.req ++ p) ≡ get_request uri version headers
    → length (concat (hs.req ++ p)) ≤ max_req_length
    → recv_data files cgis ssi_allocated handle hs p ≡ (
      parsed,
      http_find_file files cgis (record hs { req = hs.req ++ p }) uri false ssi_allocated,
    )
unfolding recv_data parse_for http_parse_request finish_parse
recv_data-get files cgis ssi_allocated hs p (some f) same empty uri version headers a b c e le = cc
recv_data-get files cgis ssi_allocated hs p none same empty uri version headers a b c e le =
    let queued = record hs { req = hs.req ++ p } in
    ap (λ (h : Option FsFile). parse_for files cgis ssi_allocated h queued hs) same
    ∙ ap (finish_parse files cgis ssi_allocated queued) (
        ap parse_line (request_data-concat (hs.req ++ p) le ∙ e)
        ∙ parse_line-get_request uri version headers a b c)

-- A connection that waits for a request, or for the rest of one.
abbrev pub waiting : Pcb → HttpState → Conn
waiting pcb hs = record { pcb = pcb; hs = some hs; closed = false }

-- The buffers of a request are no part of the response.
pub req_kept :
    (hs : HttpState) (ps : List Bytes) → IsServing hs → IsServing (record hs { req = ps })
req_kept hs ps v = record { headers_ok = v.headers_ok; body_ok = v.body_ok }

going :
    (handler : Option SsiHandler) (all : Bytes) (r : Option (Conn × Bool))
    → Delivered handler all r
    → IsGoing handler all (do x ← r; some x.0)
going handler all none d = d
going handler all (some (c, b)) d = d

served :
    (tcp : Tcp) (handler : Option SsiHandler) (pcb : Pcb) (hs : HttpState) (text : Bytes)
    → Fits handler
    → IsServing hs
    → pending handler hs ≡ text
    → IsGoing handler (pcb.sent ++ text) (after_parse tcp handler pcb (parsed, hs))
unfolding after_parse
served tcp handler pcb hs text fits v e =
    let r = http_send tcp handler (record hs { req = [] }) pcb in
    going handler (pcb.sent ++ text) r (
      subst (λ (t : Bytes). Delivered handler (pcb.sent ++ t) r) e
        (http_send-Delivered tcp handler (record hs { req = [] }) pcb fits (req_kept hs [] v)))

-- On an idle connection, when the buffers received so far, up to 1023 bytes in all, are a GET request with the end of its headers, for a URI without space and
-- NUL, `http_recv` begins the response to that URI: no assertion fails, and the bytes sent with those still to
-- be sent are the response, or all of it has been sent and the connection is closed. The handler keeps to its length.
pub http_recv-IsGoing :
    (files : List FsdataFile) (cgis : List Cgi) (ssi_allocated : Bool) (tcp : Tcp)
    (handler : Option SsiHandler) (pcb : Pcb) (hs : HttpState) (q : Bytes) (qs : List Bytes)
    (uri version headers : Bytes)
    → Fits handler
    → IsIdle hs
    → hs.handle ≡ none
    → Without b' ' uri
    → Without 0 uri
    → Without 0 version
    → concat (hs.req ++ q ∷ qs) ≡ get_request uri version headers
    → length (concat (hs.req ++ q ∷ qs)) ≤ max_req_length
    → IsGoing handler
        (pcb.sent ++ response handler ssi_allocated (find_file files cgis uri))
        (http_recv files cgis ssi_allocated tcp handler (q ∷ qs) Err.ok (waiting pcb hs))
unfolding http_recv recv_to
http_recv-IsGoing files cgis ssi_allocated tcp handler pcb hs q qs uri version headers fits idle
      empty a b c e le =
    let queued = record hs { req = hs.req ++ q ∷ qs } in
    let idle' : IsIdle queued = record {
      no_ssi = idle.no_ssi;
      no_headers = idle.no_headers;
      headers_sent = idle.headers_sent;
      at_start = idle.at_start;
    } in
    let r = http_find_file-response handler files cgis queued uri ssi_allocated idle' in
    let all = pcb.sent ++ response handler ssi_allocated (find_file files cgis uri) in
    subst (λ (x : Parsed × HttpState). IsGoing handler all (after_parse tcp handler pcb x))
      (sym (
        recv_data-get files cgis ssi_allocated hs (q ∷ qs) hs.handle refl empty uri version headers
          a b c e le))
      (served tcp handler pcb (http_find_file files cgis queued uri false ssi_allocated)
        (response handler ssi_allocated (find_file files cgis uri)) fits r.0 r.1)
