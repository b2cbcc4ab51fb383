-- ===== src/Httpd/Post/RequestLine.antt =====
-- A POST request is recognised.
use scion_lwip_contrib.Base.{
  ℕ, zero, suc, ◌+◌, ◌-◌, inl, inr, Bool-cases, List, [], ◌∷◌, ◌++◌, append_assoc, Bytes, codes,
  length, length-append, take, take-append, drop, drop-append_le, drop-append_ge, starts_with, leb,
  leb→le, leb_false→lt, le→leb, ◌≡◌, refl, sym, subst, ap, ◌∙◌, arith,
}
use scion_lwip_contrib.Httpd.Params.RoundTrip.{Without, Without-append}
use scion_lwip_contrib.Httpd.Headers.Sent.{concat}
use scion_lwip_contrib.Httpd.Files.{strnstr, crlf}
use scion_lwip_contrib.Httpd.Request.{RequestLine}
use scion_lwip_contrib.Httpd.Request.Get.{IsFound, strnstr-first, strnstr-IsFound, found_elim}
use scion_lwip_contrib.Httpd.Post.Line.{line, post, parse_post, parse_post_method, parse_post_line}
use scion_lwip_contrib.Httpd.Post.Handle.{skip_header}

-- A POST request: `fields` is the version with the headers, up to the empty line.
abbrev pub header_of : Bytes → Bytes
header_of fields = fields ++ (crlf ++ crlf)

abbrev pub post_request : Bytes → Bytes → Bytes → Bytes
post_request uri fields body = codes "POST " ++ (uri ++ (codes " " ++ (header_of fields ++ body)))

pub concat-skip_header :
    (off : ℕ) (qs : List Bytes) → concat (skip_header off qs) ≡ drop off (concat qs)
unfolding skip_header
concat-skip_header zero [] = refl
concat-skip_header (suc off) [] = refl
concat-skip_header off (q ∷ qs) = elim (Bool-cases (leb (length q) off)) [
  | inl t ↦ rw t (
      concat-skip_header (off - length q) qs
      ∙ sym (drop-append_ge off q (concat qs) (leb→le (length q) off t)))
  | inr f ↦ rw f (
      sym (
        drop-append_le off q (concat qs)
          (let lt = leb_false→lt (length q) off f in omega (arith, lt))))
]

module _ (uri fields body : Bytes) (a : Without b' ' uri) (b : Without 0 uri)
    (c : Without 0 fields) where
  abbrev request : Bytes
  request = post_request uri fields body

  abbrev front : Bytes
  front = codes "POST " ++ (uri ++ (codes " " ++ fields))

  as_parts : request ≡ front ++ ((crlf ++ crlf) ++ body)
  as_parts =
      ap (λ (t : Bytes). codes "POST " ++ (uri ++ (codes " " ++ t)))
        (append_assoc fields (crlf ++ crlf) body)
      ∙ ap (◌++◌ (codes "POST "))
          (sym (append_assoc uri (codes " " ++ fields) ((crlf ++ crlf) ++ body)))

  no_nul : Without 0 front
  no_nul =
      Without-append 0 (codes "POST ") (uri ++ (codes " " ++ fields)) (grind arith)
        (Without-append 0 uri (codes " " ++ fields) b ((λ e. omega (arith, e)), c))

  size : length request ≡ length front + (4 + length body)
  size = omega (arith, ap length as_parts, length-append front ((crlf ++ crlf) ++ body))

  finds :
      (ts ys : Bytes)
      → (13 ∷ ts) ++ ys ≡ (crlf ++ crlf) ++ body
      → IsFound (strnstr request (13 ∷ ts) (length request))
  finds ts ys e =
      subst (λ (r : Bytes). IsFound (strnstr r (13 ∷ ts) (length request)))
        (ap (◌++◌ front) e ∙ sym as_parts)
        (strnstr-IsFound 13 ts front ys (length request) (λ z. omega (arith, z)) no_nul
          (omega (arith, size, ap length e, length-append (13 ∷ ts) ys)))

  parse_post_method-request : parse_post_method request ≡ post uri (header_of fields ++ body)
  unfolding parse_post_method parse_post starts_with
  parse_post_method-request =
      let rest = header_of fields ++ body in
      let after = uri ++ b' ' ∷ rest in
      ap (parse_post request after) (
        strnstr-first b' ' uri rest (length after) (λ e. omega (arith, e)) a b
          (omega (arith, length-append uri (b' ' ∷ rest))))
      ∙ found_elim (strnstr request (crlf ++ crlf) (length request)) (line RequestLine.incomplete)
          (post (take (length uri) after) (drop (length uri + 1) after))
          (finds (10 ∷ 13 ∷ 10 ∷ []) body refl)
      ∙ ap (λ (u : Bytes). post u (drop (length uri + 1) after))
          (take-append (length uri) uri (b' ' ∷ rest) refl)
      ∙ ap (post uri) (
          drop-append_ge (length uri + 1) uri (b' ' ∷ rest) (omega arith)
          ∙ ap (λ (n : ℕ). drop n (b' ' ∷ rest))
              (let e : length uri + 1 - length uri ≡ 1 = omega arith in e))

  pub parse_post_line-request : parse_post_line request ≡ post uri (header_of fields ++ body)
  unfolding parse_post_line
  parse_post_line-request =
      rw (le→leb 7 (length request) (omega (arith, size, length-append uri (codes " " ++ fields))))
        (found_elim (strnstr request crlf (length request)) (line RequestLine.incomplete)
            (parse_post_method request) (finds (10 ∷ []) (crlf ++ body) refl)
          ∙ parse_post_method-request)
