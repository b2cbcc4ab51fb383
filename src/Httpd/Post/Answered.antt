-- ===== src/Httpd/Post/Answered.antt =====
-- A POST from its request line to the response.
use scion_lwip_contrib.Base.{
  ℕ, suc, ◌-◌, ◌≤◌, ◌<◌, inl, inr, Bool, Bool-cases, false, List, [], ◌∷◌, ◌++◌, append-nil, Option,
  none, some, Bytes, length, set, ltb, ltb→lt, ltb_false→le, ne→==_false, ◌≡◌, refl, sym, subst, ap,
  ◌∙◌, arith,
}
use scion_lwip_contrib.Lwip.{Err, ◌>>=◌}
use scion_lwip_contrib.Httpd.Params.RoundTrip.{Without}
use scion_lwip_contrib.Httpd.Write.{Tcp, Pcb}
use scion_lwip_contrib.Httpd.State.{FsFile, HttpState}
use scion_lwip_contrib.Httpd.Ssi.Insert.{SsiHandler, Fits}
use scion_lwip_contrib.Httpd.Headers.Sent.{concat}
use scion_lwip_contrib.Httpd.Files.{FsdataFile, Cgi, strnstr, crlf}
use scion_lwip_contrib.Httpd.Response.Setup.{IsIdle}
use scion_lwip_contrib.Httpd.Response.{http_find_file}
use scion_lwip_contrib.Httpd.Response.Serving.{http_find_file-response}
use scion_lwip_contrib.Httpd.Request.{Parsed, parsed, max_req_length}
use scion_lwip_contrib.Httpd.Request.Served.{req_kept}
use scion_lwip_contrib.Httpd.Request.Pieces.{Arrival, buffers}
use scion_lwip_contrib.Httpd.Post.Line.{content_length, scontent_len_end}
use scion_lwip_contrib.Httpd.Post.Handle.{
  App, PostCall, began, http_handle_post_finished, Posting, skip_header, http_post_rxpbuf,
  post_body, parse_posted,
}
use scion_lwip_contrib.Httpd.Post.Receive.{
  PostConn, keeps, after_post_parse, recv_parsed, recv_post_to, recv_post,
}
use scion_lwip_contrib.Httpd.Post.Delivery.{
  Accepts, made, bytes, HasPosted, recv_posts, Fills, data_of, recv_posts-HasPosted, answered,
  rxpbuf-ends, rxpbuf-waits, unchanged,
}
use scion_lwip_contrib.Httpd.Post.RequestLine.{header_of, post_request}
use scion_lwip_contrib.Httpd.Post.Begin.{body_of, parsed_begun}

-- The chain with the request, and those behind it.
module _ (files : List FsdataFile) (cgis : List Cgi) (ssi_allocated : Bool) (app : App) where
  module _ (uri fields body : Bytes) (n line_end : ℕ) where
    abbrev call : PostCall
    call = began uri (set (header_of fields) line_end 0) (suc n)

    module _ (handler : Option SsiHandler) (fits : Fits handler) (accepts : Accepts app)
        (as' : List Arrival) (fills : Fills (suc n - length body) as') where
      module _ (tcp : Tcp) (pcb : Pcb) (hs : HttpState) (idle : IsIdle hs) where
        abbrev begun_state : Posting
        begun_state = record { hs = hs; left = suc n; calls = call ∷ [] }

        -- `http_recv` behind `http_post_rxpbuf` in the parser.
        abbrev go_parsed : Posting → Option PostConn
        go_parsed s = after_post_parse files cgis ssi_allocated app tcp handler pcb (parsed, s)

        rest_posted :
            (left : ℕ) (ps : List (List Bytes))
            → 0 < left
            → Fills left as'
            → bytes ps ≡ body
            → HasPosted files cgis ssi_allocated app handler pcb.sent call (body ++ data_of as') (
                recv_posts files cgis ssi_allocated app handler as' (
                  keeps pcb
                    (record { hs = record hs { req = [] }; left = left; calls = call ∷ made ps })))
        rest_posted left ps pos rest whole =
            recv_posts-HasPosted files cgis ssi_allocated app handler fits accepts pcb.sent
              (body ++ data_of as') call as' pcb (record hs { req = [] }) left ps
              (record {
                no_ssi = idle.no_ssi;
                no_headers = idle.no_headers;
                headers_sent = idle.headers_sent;
                at_start = idle.at_start;
              })
              refl pos rest (ap (λ (b : Bytes). b ++ data_of as') whole)

        -- The body is complete with the request's own chain.
        all_posted :
            (p : List Bytes)
            → suc n ≤ length (concat p)
            → concat p ≡ body
            → HasPosted files cgis ssi_allocated app handler pcb.sent call body
                (go_parsed (http_post_rxpbuf files cgis ssi_allocated app begun_state p))
        unfolding after_post_parse http_handle_post_finished
        all_posted p le whole =
            let name' = app.httpd_post_finished (call ∷ made (p ∷ [])) in
            let r = http_find_file-response handler files cgis hs name' ssi_allocated idle in
            subst
              (λ (s : Posting).
                HasPosted files cgis ssi_allocated app handler pcb.sent call body (go_parsed s))
              (sym (rxpbuf-ends files cgis ssi_allocated app handler accepts begun_state p le))
              (answered files cgis ssi_allocated app handler fits pcb.sent body call (p ∷ [])
                (append-nil (concat p) ∙ whole) tcp pcb
                (record (http_find_file files cgis hs name' false ssi_allocated) { req = [] }) refl
                (req_kept (http_find_file files cgis hs name' false ssi_allocated) [] r.0) r.1)

        part_posted :
            (p : List Bytes)
            → length (concat p) < suc n
            → concat p ≡ body
            → HasPosted files cgis ssi_allocated app handler pcb.sent call (body ++ data_of as') (do
              d ← go_parsed (http_post_rxpbuf files cgis ssi_allocated app begun_state p)
              recv_posts files cgis ssi_allocated app handler as' d)
        unfolding after_post_parse
        part_posted p lt whole =
            rw
              (
                rxpbuf-waits files cgis ssi_allocated app handler accepts begun_state p lt,
                ne→==_false (suc n - length (concat p)) 0 (λ e. omega (arith, e, lt)),
              )
              (rest_posted (suc n - length (concat p)) (p ∷ []) (omega (arith, lt))
                (subst (λ (k : ℕ). Fills k as')
                  (let e : suc n - length body ≡ suc n - length (concat p) =
                      omega (arith, ap length whole) in
                    e)
                  fills)
                (append-nil (concat p) ∙ whole))

        first_posted :
            (qs : List Bytes)
            → concat qs ≡ body
            → HasPosted files cgis ssi_allocated app handler pcb.sent call (body ++ data_of as') (do
              d ←
                  after_post_parse files cgis ssi_allocated app tcp handler pcb
                    (post_body files cgis ssi_allocated app begun_state qs)
              recv_posts files cgis ssi_allocated app handler as' d)
        unfolding after_post_parse post_body recv_posts
        first_posted [] whole = rw (ne→==_false (suc n) 0 (λ e. omega (arith, e))) (
            rest_posted (suc n) [] (omega arith)
              (subst (λ (k : ℕ). Fills k as')
                (let e : suc n - length body ≡ suc n = omega (arith, ap length whole) in e) fills)
              whole)
        first_posted (q ∷ qs) whole = elim (Bool-cases (ltb (length (concat (q ∷ qs))) (suc n))) [
          | inl t ↦ part_posted (q ∷ qs) (ltb→lt (length (concat (q ∷ qs))) (suc n) t) whole
          | inr f ↦
              let le = ltb_false→le (length (concat (q ∷ qs))) (suc n) f in
              complete as'
                (go_parsed (http_post_rxpbuf files cgis ssi_allocated app begun_state (q ∷ qs)))
                (suc n - length body) (omega (arith, le, ap length whole)) fills
                (all_posted (q ∷ qs) le whole)
        ]
          where
            complete :
                (bs : List Arrival) (r : Option PostConn) (k : ℕ)
                → k ≡ 0
                → Fills k bs
                → HasPosted files cgis ssi_allocated app handler pcb.sent call body r
                → HasPosted files cgis ssi_allocated app handler pcb.sent call
                    (body ++ data_of bs)
                    (do d ← r; recv_posts files cgis ssi_allocated app handler bs d)
            complete [] r k e fs h =
                subst
                  (λ (b : Bytes).
                    HasPosted files cgis ssi_allocated app handler pcb.sent call b
                      (do d ← r; some d))
                  (sym (append-nil body))
                  (unchanged files cgis ssi_allocated app handler fits accepts pcb.sent body call r
                    h)
            complete (b ∷ bs) r k e fs h = absurd (omega (arith, e, fs.0))

  abbrev start : HttpState → Posting
  start hs = record { hs = hs; left = 0; calls = [] }

  handled :
      (handler : Option SsiHandler) (tcp : Tcp) (pcb : Pcb) (s : Posting) (p : List Bytes)
      (h : Option FsFile) {x : Parsed × Posting}
      → h ≡ none
      → parse_posted files cgis ssi_allocated app s.hs.handle s p ≡ x
      → recv_parsed files cgis ssi_allocated app tcp handler pcb h s p
        ≡ after_post_parse files cgis ssi_allocated app tcp handler pcb x
  unfolding recv_parsed
  handled handler tcp pcb s p none e h =
      ap (after_post_parse files cgis ssi_allocated app tcp handler pcb) h
  handled handler tcp pcb s p (some f) e h = cc

  -- On an idle connection, let a chain bring the rest of a POST request, of up to 1023 bytes in all: a URI
  -- without space and NUL, headers without NUL that end with the first empty line and give a positive
  -- Content-Length, and a part of the body, and let further chains bring the rest of it, the last one of them
  -- all that is missing or more. If `httpd_post_begin` and `httpd_post_receive_data` accept, then no assertion
  -- fails, the application was called for the URI, the headers, in which a NUL has taken the place of the byte behind
  -- the number of the Content-Length, and the length, was given all the bytes behind the
  -- headers, in order, and then told of the end, once; and the response that it asked for is sent, or on its way. The
  -- handler for tags keeps to its length.
  pub recv_posts-answered :
      (handler : Option SsiHandler) (a : Arrival) (as' : List Arrival) (pcb : Pcb) (hs : HttpState)
      (uri fields body name : Bytes) (n line_end : ℕ)
      → Fits handler
      → Accepts app
      → app.httpd_post_begin uri (set (header_of fields) line_end 0) (suc n) ≡ (Err.ok, name)
      → IsIdle hs
      → hs.handle ≡ none
      → Without b' ' uri
      → Without 0 uri
      → Without 0 fields
      → strnstr (header_of fields) (crlf ++ crlf) (length (header_of fields)) ≡ some (length fields)
      → content_length (header_of fields) (length fields) ≡ some (suc n)
      → scontent_len_end (header_of fields) (length fields) ≡ some line_end
      → concat (hs.req ++ buffers a) ≡ post_request uri fields body
      → length (concat (hs.req ++ buffers a)) ≤ max_req_length
      → Fills (suc n - length body) as'
      → HasPosted files cgis ssi_allocated app handler pcb.sent
          (began uri (set (header_of fields) line_end 0) (suc n))
          (body ++ data_of as')
          (recv_posts files cgis ssi_allocated app handler
            (a ∷ as')
            (keeps pcb (record { hs = hs; left = 0; calls = [] })))
  unfolding recv_posts recv_post recv_post_to
  recv_posts-answered handler a as' pcb hs uri fields body name n line_end fits accepts begins idle
        empty b c d ends value ended e le fills =
      subst
        (λ (r : Option PostConn).
          HasPosted files cgis ssi_allocated app handler pcb.sent
            (began uri (set (header_of fields) line_end 0) (suc n)) (body ++ data_of as')
            (do d ← r; recv_posts files cgis ssi_allocated app handler as' d))
        (sym (
          handled handler a.tcp pcb (start hs) (buffers a) hs.handle empty (
            parsed_begun files cgis ssi_allocated app uri fields body name n line_end ends value
              ended begins (start hs) (buffers a) hs.handle refl empty b c d e le)))
        (first_posted uri fields body n line_end handler fits accepts as' fills a.tcp pcb
          (record hs { req = [] })
          (record {
            no_ssi = idle.no_ssi;
            no_headers = idle.no_headers;
            headers_sent = idle.headers_sent;
            at_start = idle.at_start;
          })
          (skip_header (length (post_request uri fields body) - length body) (hs.req ++ buffers a))
          (body_of files cgis ssi_allocated app uri fields body name n line_end ends value ended
            begins (hs.req ++ buffers a) e))
