-- ===== src/Httpd/Post/Begin.antt =====
-- A POST request that the application accepts: what is handed on of its chain.
use scion_lwip_contrib.Base.{
  ℕ, suc, ◌+◌, ◌-◌, ◌≤◌, Bool, List, [], ◌∷◌, ◌++◌, append_assoc, min, Option, none, some, Bytes,
  codes, length, length-append, take, take-append, take-set, set, length-set, drop, drop-append_ge,
  ◌≡◌, refl, sym, ap, ◌∙◌, arith,
}
use scion_lwip_contrib.Lwip.{Err}
use scion_lwip_contrib.Httpd.Params.RoundTrip.{Without}
use scion_lwip_contrib.Httpd.State.{FsFile}
use scion_lwip_contrib.Httpd.Headers.Sent.{concat}
use scion_lwip_contrib.Httpd.Files.{FsdataFile, Cgi, strnstr, crlf}
use scion_lwip_contrib.Httpd.Request.{in_progress, max_req_length}
use scion_lwip_contrib.Httpd.Request.Served.{request_data-concat}
use scion_lwip_contrib.Httpd.Post.Line.{
  content_length, scontent_len_end, terminate, parse_post_line,
}
use scion_lwip_contrib.Httpd.Post.Handle.{
  App, PostCall, began, Posting, skip_header, post_body, post_begun, post_with_length,
  http_post_request, finish_post_parse, parse_posted,
}
use scion_lwip_contrib.Httpd.Post.Search.{
  strnstr-append, content_length-append, scontent_len_end-append,
}
use scion_lwip_contrib.Httpd.Post.RequestLine.{
  header_of, post_request, concat-skip_header, parse_post_line-request,
}

-- The application has accepted the request: what is handed on of the chain.
module _ (files : List FsdataFile) (cgis : List Cgi) (ssi_allocated : Bool) (app : App) where
  module _ (uri fields body name : Bytes) (n line_end : ℕ)
      (ends : strnstr (header_of fields) (crlf ++ crlf) (length (header_of fields))
        ≡ some (length fields))
      (value : content_length (header_of fields) (length fields) ≡ some (suc n))
      (ended : scontent_len_end (header_of fields) (length fields) ≡ some line_end)
      (begins : app.httpd_post_begin uri (set (header_of fields) line_end 0) (suc n)
        ≡ (Err.ok, name)) where
    abbrev pub header_len : ℕ
    header_len = length (post_request uri fields body) - length body

    abbrev pub call : PostCall
    call = began uri (set (header_of fields) line_end 0) (suc n)

    header_whole :
        (data_len : ℕ)
        → length (header_of fields) ≤ data_len
        → take (min data_len (length fields + 4)) (header_of fields ++ body) ≡ header_of fields
    header_whole data_len le =
        ap (λ (m : ℕ). take m (header_of fields ++ body))
          (let e : min data_len (length fields + 4) ≡ length (header_of fields) =
              omega (arith, le, length-append fields (crlf ++ crlf)) in
            e)
        ∙ take-append (length (header_of fields)) (header_of fields) body refl

    header_taken :
        (data_len : ℕ)
        → length (header_of fields) ≤ data_len
        → take (min data_len (length fields + 4)) (set (header_of fields ++ body) line_end 0)
          ≡ set (header_of fields) line_end 0
    header_taken data_len le =
        take-set (min data_len (length fields + 4)) (header_of fields ++ body) line_end 0
        ∙ ap (λ (t : Bytes). set t line_end 0) (header_whole data_len le)

    begun :
        (s : Posting)
        → http_post_request files cgis ssi_allocated app s uri
            (header_of fields ++ body)
            (length (post_request uri fields body))
          ≡ post_body files cgis ssi_allocated app
              (record { hs = record s.hs { req = [] }; left = suc n; calls = s.calls ++ call ∷ [] })
              (skip_header header_len s.hs.req)
    unfolding http_post_request post_with_length post_begun terminate
    begun s =
        let text = header_of fields ++ body in
        let cut = set text line_end 0 in
        let all = length (post_request uri fields body) in
        let size : all ≡ 6 + length uri + length text =
          omega (arith, length-append uri (codes " " ++ text)) in
        let parts = length-append (header_of fields) body in
        let head = length-append fields (crlf ++ crlf) in
        ap
          (λ (o : Option ℕ). elim o [
            | none ↦ (in_progress, s)
            | some k ↦
                post_with_length files cgis ssi_allocated app s uri
                  (terminate text (scontent_len_end text k)) all k (content_length text k)
          ])
          (strnstr-append (crlf ++ crlf) (header_of fields) body (length (header_of fields))
            (length text) (length fields) (omega (arith, parts)) ends)
        ∙ ap
            (λ (o : Option ℕ).
              post_with_length files cgis ssi_allocated app s uri (terminate text o) all
                (length fields) (content_length text (length fields)))
            (scontent_len_end-append (header_of fields) body (length fields) line_end ended)
        ∙ ap (post_with_length files cgis ssi_allocated app s uri cut all (length fields))
            (content_length-append (header_of fields) body (length fields) (suc n) value)
        ∙ ap
            (λ (m : ℕ).
              post_begun files cgis ssi_allocated app s m (suc n)
                (began uri (take (min all (length fields + 4)) cut) (suc n))
                (app.httpd_post_begin uri (take (min all (length fields + 4)) cut) (suc n)))
            (let e : min all (all - length cut + length fields + 4) ≡ header_len =
                omega (arith, size, parts, head, length-set text line_end 0) in
              e)
        ∙ ap
            (λ (h : Bytes).
              post_begun files cgis ssi_allocated app s header_len (suc n) (began uri h (suc n))
                (app.httpd_post_begin uri h (suc n)))
            (header_taken all (omega (arith, size, parts)))
        ∙ ap (post_begun files cgis ssi_allocated app s header_len (suc n) call) begins

    -- Behind the header stands the body.
    pub body_of :
        (qs : List Bytes)
        → concat qs ≡ post_request uri fields body
        → concat (skip_header header_len qs) ≡ body
    body_of qs e =
        let front = codes "POST " ++ (uri ++ (codes " " ++ header_of fields)) in
        let parts : post_request uri fields body ≡ front ++ body =
          ap (◌++◌ (codes "POST ")) (sym (append_assoc uri (codes " " ++ header_of fields) body)) in
        concat-skip_header header_len qs
        ∙ ap (drop header_len) (e ∙ parts)
        ∙ drop-append_ge header_len front body
            (omega (arith, ap length parts, length-append front body))
        ∙ ap (λ (k : ℕ). drop k body)
            (let z : header_len - length front ≡ 0 =
                omega (arith, ap length parts, length-append front body) in
              z)

    -- `http_recv` with the chain that completes the header.
    pub parsed_begun :
        (s : Posting) (p : List Bytes) (handle : Option FsFile)
        → s.hs.handle ≡ handle
        → handle ≡ none
        → Without b' ' uri
        → Without 0 uri
        → Without 0 fields
        → concat (s.hs.req ++ p) ≡ post_request uri fields body
        → length (concat (s.hs.req ++ p)) ≤ max_req_length
        → parse_posted files cgis ssi_allocated app handle s p
          ≡ post_body files cgis ssi_allocated app
              (record { hs = record s.hs { req = [] }; left = suc n; calls = s.calls ++ call ∷ [] })
              (skip_header header_len (s.hs.req ++ p))
    unfolding parse_posted finish_post_parse
    parsed_begun s p (some f) same empty b c d e le = cc
    parsed_begun s p none same empty b c d e le =
        let queued : Posting = record s { hs = record s.hs { req = s.hs.req ++ p } } in
        ap
          (λ (t : Bytes).
            finish_post_parse files cgis ssi_allocated app queued (length t) (parse_post_line t))
          (request_data-concat (s.hs.req ++ p) le ∙ e)
        ∙ ap
            (finish_post_parse files cgis ssi_allocated app queued
              (length (post_request uri fields body)))
            (parse_post_line-request uri fields body b c d)
        ∙ begun queued
