-- ===== src/Httpd/Request/Pieces.antt =====
-- A request that arrives in pieces, from its first bytes to the first writes of the response.
use scion_lwip_contrib.Base.{
  ◌≤◌, Bool, List, [], ◌∷◌, ◌++◌, append_assoc, append-nil, Option, none, Bytes, codes, length,
  length-append, ◌≡◌, refl, sym, subst, ap, ◌∙◌, arith,
}
use scion_lwip_contrib.Lwip.{Err, ◌>>=◌}
use scion_lwip_contrib.Httpd.Params.RoundTrip.{Without}
use scion_lwip_contrib.Httpd.Write.{Tcp, Pcb}
use scion_lwip_contrib.Httpd.State.{HttpState, Conn}
use scion_lwip_contrib.Httpd.Ssi.Insert.{SsiHandler, Fits}
use scion_lwip_contrib.Httpd.Headers.Sent.{concat}
use scion_lwip_contrib.Httpd.Send.Run.{IsGoing}
use scion_lwip_contrib.Httpd.Files.{FsdataFile, Cgi, crlf}
use scion_lwip_contrib.Httpd.Response.{find_file}
use scion_lwip_contrib.Httpd.Response.Setup.{IsIdle, response}
use scion_lwip_contrib.Httpd.Request.{max_req_length, req_queuelen, http_recv}
use scion_lwip_contrib.Httpd.Request.Get.{get_request}
use scion_lwip_contrib.Httpd.Request.Served.{waiting, http_recv-IsGoing}
use scion_lwip_contrib.Httpd.Request.Waiting.{Unended, strnstr-none, http_recv-waits}

-- One call of `http_recv` with data: the buffers of the chain, of which there is one at least.
pub record Arrival : Type 0 where
  pub tcp : Tcp
  pub first : Bytes
  pub rest : List Bytes

abbrev pub buffers : Arrival → List Bytes
buffers a = a.first ∷ a.rest

-- The calls in their order, and a last one.
pub recv_all :
    List FsdataFile
    → List Cgi
    → Bool
    → Option SsiHandler
    → List Arrival
    → Arrival
    → Conn
    → Option Conn
recv_all files cgis ssi_allocated handler [] l c =
    http_recv files cgis ssi_allocated l.tcp handler (buffers l) Err.ok c
recv_all files cgis ssi_allocated handler (a ∷ before) l c = do
  d ← http_recv files cgis ssi_allocated a.tcp handler (buffers a) Err.ok c
  recv_all files cgis ssi_allocated handler before l d

-- The buffers that have been queued after the calls.
abbrev pub queue : List Bytes → List Arrival → List Bytes
queue req [] = req
queue req (a ∷ before) = queue (req ++ buffers a) before

pub concat-append : (xs ys : List Bytes) → concat (xs ++ ys) ≡ concat xs ++ concat ys
concat-append [] ys = refl
concat-append (x ∷ xs) ys =
    ap (◌++◌ x) (concat-append xs ys) ∙ sym (append_assoc x (concat xs) (concat ys))

-- What is queued is kept at the front.
concat-queue :
    (req : List Bytes) (before : List Arrival)
    → (more : Bytes) × (concat (queue req before) ≡ concat req ++ more)
concat-queue req [] = ([], sym (append-nil (concat req)))
concat-queue req (a ∷ before) =
    let r = concat-queue (req ++ buffers a) before in
    (
      concat (buffers a) ++ r.0,
      r.1
          ∙ ap (λ (t : Bytes). t ++ r.0) (concat-append req (buffers a))
          ∙ append_assoc (concat req) (concat (buffers a)) r.0,
    )

length-queue : (req : List Bytes) (before : List Arrival) → length req ≤ length (queue req before)
length-queue req [] = omega arith
length-queue req (a ∷ before) =
    omega (arith, length-queue (req ++ buffers a) before, length-append req (buffers a))

Unended-before : (xs ys t : Bytes) → t ≡ xs ++ ys → Unended t → Unended xs
Unended-before xs ys t e u =
    strnstr-none (crlf ++ crlf) xs ys (length xs) (length (xs ++ ys))
      (omega (arith, length-append xs ys)) (subst Unended e u)

-- On an idle connection, let a GET request for a URI without space and NUL, of up to 1023 bytes in all, arrive
-- in any number of chains of buffers, where before the last chain the headers have not ended and at most 5 buffers
-- are queued. Then the calls of `http_recv` wait, and the last one begins the response to the URI: no assertion fails, and the
-- bytes sent with those still to be sent are the response, or all of it has been sent and the connection is closed. The handler keeps to its length.
pub recv_all-IsGoing :
    (files : List FsdataFile) (cgis : List Cgi) (ssi_allocated : Bool) (handler : Option SsiHandler)
    (pcb : Pcb) (before : List Arrival) (l : Arrival) (hs : HttpState) (uri version headers : Bytes)
    → Fits handler
    → IsIdle hs
    → hs.handle ≡ none
    → Without b' ' uri
    → Without 0 uri
    → Without 0 version
    → concat (queue hs.req before) ++ concat (buffers l) ≡ get_request uri version headers
    → length (concat (queue hs.req before) ++ concat (buffers l)) ≤ max_req_length
    → Unended (concat (queue hs.req before))
    → length (queue hs.req before) ≤ req_queuelen
    → IsGoing handler
        (pcb.sent ++ response handler ssi_allocated (find_file files cgis uri))
        (recv_all files cgis ssi_allocated handler before l (waiting pcb hs))
unfolding recv_all
recv_all-IsGoing files cgis ssi_allocated handler pcb [] l hs uri version headers fits idle empty a
      b c e le u few =
    let same = concat-append hs.req (buffers l) in
    http_recv-IsGoing files cgis ssi_allocated l.tcp handler pcb hs l.first l.rest uri version
      headers fits idle empty a b c (same ∙ e) (omega (arith, ap length same, le))
recv_all-IsGoing files cgis ssi_allocated handler pcb (x ∷ before) l hs uri version headers fits
      idle empty a b c e le u few =
    let next = record hs { req = hs.req ++ buffers x } in
    let idle' : IsIdle next = record {
      no_ssi = idle.no_ssi;
      no_headers = idle.no_headers;
      headers_sent = idle.headers_sent;
      at_start = idle.at_start;
    } in
    let q = concat-queue next.req before in
    let whole = concat (queue next.req before) in
    let waited =
      http_recv-waits files cgis ssi_allocated x.tcp handler pcb hs x.first x.rest
        (q.0 ++ concat (buffers l)) (uri ++ (codes " " ++ (version ++ ((crlf ++ crlf) ++ headers))))
        empty
        (sym (append_assoc (concat next.req) q.0 (concat (buffers l)))
          ∙ sym (ap (λ (t : Bytes). t ++ concat (buffers l)) q.1)
          ∙ e)
        (Unended-before (concat next.req) q.0 whole q.1 u)
        (omega (
          arith,
          le,
          length-append whole (concat (buffers l)),
          ap length q.1,
          length-append (concat next.req) q.0,
        ))
        (omega (arith, length-queue next.req before, few)) in
    rw waited (
      recv_all-IsGoing files cgis ssi_allocated handler pcb before l next uri version headers fits
        idle' empty a b c e le u few)
