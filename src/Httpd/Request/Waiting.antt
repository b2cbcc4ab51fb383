-- ===== src/Httpd/Request/Waiting.antt =====
-- A request whose headers have not ended is waited for.
use scion_lwip_contrib.Base.{
  ℕ, ◌+◌, ◌-◌, ◌≤◌, inl, inr, Bool, Bool-cases, true, false, List, [], ◌∷◌, ◌++◌, Option, none,
  some, Bytes, codes, length, starts_with, ◌==◌, leb, le→leb, leb→le, drop, take, ◌≡◌, refl, ap,
  ◌∙◌, arith,
}
use scion_lwip_contrib.Lwip.{Err}
use scion_lwip_contrib.Httpd.Write.{Tcp, Pcb}
use scion_lwip_contrib.Httpd.State.{FsFile, HttpState}
use scion_lwip_contrib.Httpd.Ssi.Insert.{SsiHandler}
use scion_lwip_contrib.Httpd.Headers.Sent.{concat}
use scion_lwip_contrib.Httpd.Files.{FsdataFile, Cgi, strnstr, crlf}
use scion_lwip_contrib.Httpd.Request.{
  RequestLine, in_progress, max_req_length, req_queuelen, parse_uri, parse_get, parse_method,
  parse_line, parse_for, finish_parse, http_parse_request, recv_data, recv_to, after_parse,
  http_recv,
}
use scion_lwip_contrib.Httpd.Request.Get.{same_char}
use scion_lwip_contrib.Httpd.Request.Served.{request_data-concat, waiting}

-- No end of the headers is in the text.
abbrev pub Unended : Bytes → Type 0
Unended text = strnstr text (crlf ++ crlf) (length text) ≡ none

pub starts_with-longer :
    (word xs ys : Bytes) → starts_with word xs ≡ true → starts_with word (xs ++ ys) ≡ true
unfolding starts_with
starts_with-longer [] xs ys e = refl
starts_with-longer (w ∷ word) [] ys e = cc
starts_with-longer (w ∷ word) (x ∷ xs) ys e = elim (Bool-cases (w == x)) [
  | inl t ↦ rw t (starts_with-longer word xs ys (rw t at e))
  | inr f ↦ cc (rw f at e)
]

none_before : (o : Option ℕ) → elim o [ none ↦ none | some k ↦ some (k + 1) ] ≡ none → o ≡ none
none_before none e = refl
none_before (some k) e = cc

-- A beginning of a text that has no end of the headers has none.
pub strnstr-none :
    (token xs ys : Bytes) (n m : ℕ)
    → n ≤ m
    → strnstr (xs ++ ys) token m ≡ none
    → strnstr xs token n ≡ none
unfolding strnstr
strnstr-none token [] ys n m le e = refl
strnstr-none token (x ∷ xs) ys n m le e = elim (Bool-cases (x == 0)) [
  | inl z ↦ rw z refl
  | inr z ↦ elim (Bool-cases (leb (length token) n)) [
    | inr f ↦ rw (z, f) refl
    | inl t ↦
        let t' = le→leb (length token) m (omega (arith, leb→le (length token) n t, le)) in
        elim (Bool-cases (starts_with token (x ∷ (xs ++ ys)))) [
          | inl s ↦ cc (rw (z, t', s) at e)
          | inr s ↦ elim (Bool-cases (starts_with token (x ∷ xs))) [
            | inl s' ↦ cc (starts_with-longer token (x ∷ xs) ys s', s)
            | inr s' ↦
                rw
                  (
                    z,
                    t,
                    s',
                    strnstr-none token xs ys (n - 1) (m - 1) (omega (arith, le))
                        (none_before (strnstr (xs ++ ys) token (m - 1)) (rw (z, t', s) at e)),
                  )
                  refl
          ]
        ]
  ]
]

starts_with-prefix :
    (word text p q : Bytes)
    → length word ≤ length p
    → p ++ q ≡ word ++ text
    → starts_with word p ≡ true
unfolding starts_with
starts_with-prefix [] text p q le e = refl
starts_with-prefix (w ∷ word) text [] q le e = absurd (omega (arith, le))
starts_with-prefix (w ∷ word) text (c ∷ p) q le e =
    let same : w ≡ c = cc in
    let tails : p ++ q ≡ word ++ text = cc in
    rw (same, same_char c) (starts_with-prefix word text p q (omega (arith, le)) tails)

none_elim {ℓ} :
    {A : Type ℓ} (o : Option ℕ) (x y : A) → o ≡ none → elim o [ none ↦ x | some k ↦ y ] ≡ x
none_elim none x y e = refl
none_elim (some k) x y e = cc

parse_uri-waits :
    (request after : Bytes) (o : Option ℕ) (is_09 : Bool)
    → Unended request
    → parse_uri request after o is_09 ≡ RequestLine.incomplete
unfolding parse_uri
parse_uri-waits request after none is_09 u = refl
parse_uri-waits request after (some k) is_09 u =
    none_elim (strnstr request (crlf ++ crlf) (length request)) RequestLine.incomplete
      (RequestLine.get (take k after) is_09) u

parse_get-waits :
    (request after : Bytes) (o : Option ℕ)
    → Unended request
    → parse_get request after o ≡ RequestLine.incomplete
unfolding parse_get
parse_get-waits request after none u =
    parse_uri-waits request after (strnstr after crlf (length after)) true u
parse_get-waits request after (some k) u = parse_uri-waits request after (some k) false u

parse_method-waits :
    (p q text : Bytes)
    → 4 ≤ length p
    → p ++ q ≡ codes "GET " ++ text
    → Unended p
    → parse_method p ≡ RequestLine.incomplete
unfolding parse_method
parse_method-waits p q text le e u =
    rw (starts_with-prefix (codes "GET ") text p q le e)
      (parse_get-waits p (drop 4 p) (strnstr (drop 4 p) (codes " ") (length (drop 4 p))) u)

same_branches {ℓ} :
    {A : Type ℓ} (o : Option ℕ) (x y : A) → y ≡ x → elim o [ none ↦ x | some k ↦ y ] ≡ x
same_branches none x y e = refl
same_branches (some k) x y e = e

-- A beginning of a GET request without the end of its headers is not complete.
parse_line-waits :
    (p q text : Bytes)
    → p ++ q ≡ codes "GET " ++ text
    → Unended p
    → parse_line p ≡ RequestLine.incomplete
unfolding parse_line
parse_line-waits p q text e u = elim (Bool-cases (leb 7 (length p))) [
  | inr f ↦ rw f refl
  | inl t ↦ rw t (
      same_branches (strnstr p crlf (length p)) RequestLine.incomplete (parse_method p)
        (parse_method-waits p q text (omega (arith, leb→le 7 (length p) t)) e u))
]

recv_data-waits :
    (files : List FsdataFile) (cgis : List Cgi) (ssi_allocated : Bool) (hs : HttpState)
    (p : List Bytes) (handle : Option FsFile) (q text : Bytes)
    → hs.handle ≡ handle
    → handle ≡ none
    → concat (hs.req ++ p) ++ q ≡ codes "GET " ++ text
    → Unended (concat (hs.req ++ p))
    → length (concat (hs.req ++ p)) ≤ max_req_length
    → length (hs.req ++ p) ≤ req_queuelen
    → recv_data files cgis ssi_allocated handle hs p
      ≡ (in_progress, record hs { req = hs.req ++ p })
unfolding recv_data parse_for http_parse_request finish_parse
recv_data-waits files cgis ssi_allocated hs p (some f) q text same empty e u le few = cc
recv_data-waits files cgis ssi_allocated hs p none q text same empty e u le few =
    let queued = record hs { req = hs.req ++ p } in
    ap (λ (h : Option FsFile). parse_for files cgis ssi_allocated h queued hs) same
    ∙ ap (finish_parse files cgis ssi_allocated queued) (
        ap parse_line (request_data-concat (hs.req ++ p) le)
        ∙ parse_line-waits (concat (hs.req ++ p)) q text e u)
    ∙ rw
        (
          le→leb (length (concat (hs.req ++ p))) max_req_length le,
          le→leb (length (hs.req ++ p)) req_queuelen few,
        )
        refl

-- It is queued, and nothing is sent.
pub http_recv-waits :
    (files : List FsdataFile) (cgis : List Cgi) (ssi_allocated : Bool) (tcp : Tcp)
    (handler : Option SsiHandler) (pcb : Pcb) (hs : HttpState) (p : Bytes) (ps : List Bytes)
    (q text : Bytes)
    → hs.handle ≡ none
    → concat (hs.req ++ p ∷ ps) ++ q ≡ codes "GET " ++ text
    → Unended (concat (hs.req ++ p ∷ ps))
    → length (concat (hs.req ++ p ∷ ps)) ≤ max_req_length
    → length (hs.req ++ p ∷ ps) ≤ req_queuelen
    → http_recv files cgis ssi_allocated tcp handler (p ∷ ps) Err.ok (waiting pcb hs)
      ≡ some (waiting pcb (record hs { req = hs.req ++ p ∷ ps }))
unfolding http_recv recv_to after_parse
http_recv-waits files cgis ssi_allocated tcp handler pcb hs p ps q text empty e u le few =
    ap (after_parse tcp handler pcb)
      (recv_data-waits files cgis ssi_allocated hs (p ∷ ps) hs.handle q text refl empty e u le few)
