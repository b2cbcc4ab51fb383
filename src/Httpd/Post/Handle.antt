-- ===== src/Httpd/Post/Handle.antt =====
-- apps/httpserver_raw/httpd.c: `http_post_request`, `http_post_rxpbuf` and `http_handle_post_finished`, and
-- `http_parse_request` with POST.
use scion_lwip_contrib.Base.{
  ℕ, zero, suc, ◌+◌, ◌-◌, min, Bool, false, not, ◌||◌, List, [], ◌∷◌, ◌++◌, Option, none, some,
  Bytes, length, take, drop, ◌==◌, leb, ltb, if◌then◌else◌,
}
use scion_lwip_contrib.Lwip.{Err, is_ok}
use scion_lwip_contrib.Httpd.State.{FsFile, HttpState}
use scion_lwip_contrib.Httpd.Headers.Sent.{concat}
use scion_lwip_contrib.Httpd.Files.{FsdataFile, Cgi, strnstr, crlf}
use scion_lwip_contrib.Httpd.Response.{http_find_file}
use scion_lwip_contrib.Httpd.Request.{
  Parsed, parsed, in_progress, bad_request, in_use, request_data, finish_parse,
}
use scion_lwip_contrib.Httpd.Post.Line.{
  PostLine, line, bad, post, content_length, scontent_len_end, terminate, parse_post_line,
}

-- The calls of the application's three functions, in order.
pub data PostCall : Type 0 where
  began : Bytes → Bytes → ℕ → PostCall
  received : List Bytes → PostCall
  finished : PostCall

-- The application: `httpd_post_begin` gives a result and a file name, `httpd_post_receive_data` a result and
-- `httpd_post_finished` a file name. The latter two know the calls so far.
pub record App : Type 0 where
  pub httpd_post_begin : Bytes → Bytes → ℕ → Err × Bytes
  pub httpd_post_receive_data : List PostCall → List Bytes → Err
  pub httpd_post_finished : List PostCall → Bytes

-- A connection's state with `post_content_len_left`, and the calls made.
pub record Posting : Type 0 where
  pub hs : HttpState
  pub left : ℕ
  pub calls : List PostCall

-- The loop to the buffer where the body starts, and the hiding of the header in it.
unfoldable pub skip_header : ℕ → List Bytes → List Bytes
skip_header start_offset [] = []
skip_header start_offset (q ∷ qs) =
    let rest = skip_header (start_offset - length q) qs in
    if leb (length q) start_offset then rest else drop start_offset q ∷ qs

module _ (files : List FsdataFile) (cgis : List Cgi) (ssi_allocated : Bool) (app : App) where
  unfoldable pub http_handle_post_finished : Posting → Posting
  http_handle_post_finished s = record {
    hs = http_find_file files cgis s.hs (app.httpd_post_finished s.calls) false ssi_allocated;
    left = s.left;
    calls = s.calls ++ finished ∷ [];
  }

  unfoldable pub http_post_rxpbuf : Posting → List Bytes → Posting
  unfolding http_handle_post_finished
  http_post_rxpbuf s p =
      let left = if ltb s.left (length (concat p)) then 0 else s.left - length (concat p) in
      let s' = record s { left = left; calls = s.calls ++ received p ∷ [] } in
      if not (is_ok (app.httpd_post_receive_data s.calls p)) || left == 0
      then http_handle_post_finished s'
      else s'

  -- `http_post_request` from an accepting `httpd_post_begin` on: the buffers behind the header.
  unfoldable pub post_body : Posting → List Bytes → Parsed × Posting
  unfolding http_post_rxpbuf
  post_body s [] = (parsed, s)
  post_body s (q ∷ qs) = (parsed, http_post_rxpbuf s (q ∷ qs))

  -- With the results of `httpd_post_begin`.
  unfoldable pub post_begun : Posting → ℕ → ℕ → PostCall → Err × Bytes → Parsed × Posting
  unfolding post_body
  post_begun s hdr_len content_len call (Err.ok, name) =
      post_body
        (record { hs = record s.hs { req = [] }; left = content_len; calls = s.calls ++ call ∷ [] })
        (skip_header hdr_len s.hs.req)
  post_begun s hdr_len content_len call (err, name) = (
    parsed,
    record s {
      hs = http_find_file files cgis s.hs name false ssi_allocated;
      calls = s.calls ++ call ∷ [];
    },
  )

  -- With the number in the header, for the header's end at `k`.
  unfoldable pub post_with_length : Posting → Bytes → Bytes → ℕ → ℕ → Option ℕ → Parsed × Posting
  unfolding post_begun
  post_with_length s uri fields data_len k none = (in_progress, s)
  post_with_length s uri fields data_len k (some zero) = (bad_request, s)
  post_with_length s uri fields data_len k (some (suc n)) =
      post_begun s (min data_len (data_len - length fields + k + 4)) (suc n)
        (began uri (take (min data_len (k + 4)) fields) (suc n))
        (app.httpd_post_begin uri (take (min data_len (k + 4)) fields) (suc n))

  unfoldable pub http_post_request : Posting → Bytes → Bytes → ℕ → Parsed × Posting
  unfolding post_with_length terminate
  http_post_request s uri fields data_len = elim (strnstr fields (crlf ++ crlf) (length fields)) [
    | none ↦ (in_progress, s)
    | some k ↦
        post_with_length s uri (terminate fields (scontent_len_end fields k)) data_len k
          (content_length fields k)
  ]

  -- `http_parse_request` with POST.
  unfoldable pub finish_post_parse : Posting → ℕ → PostLine → Parsed × Posting
  unfolding http_post_request finish_parse
  finish_post_parse s data_len (line l) =
      let r = finish_parse files cgis ssi_allocated s.hs l in (r.0, record s { hs = r.1 })
  finish_post_parse s data_len bad = (bad_request, s)
  finish_post_parse s data_len (post uri fields) = http_post_request s uri fields data_len

  unfoldable pub parse_posted : Option FsFile → Posting → List Bytes → Parsed × Posting
  unfolding finish_post_parse parse_post_line
  parse_posted (some f) s p = (in_use, s)
  parse_posted none s p =
      finish_post_parse (record s { hs = record s.hs { req = s.hs.req ++ p } })
        (length (request_data (s.hs.req ++ p))) (parse_post_line (request_data (s.hs.req ++ p)))
