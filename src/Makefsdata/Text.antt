-- ===== src/Makefsdata/Text.antt =====
-- The texts that makefsdata.c writes are read as their bytes.
use scion_lwip_contrib.Base.{
  ℕ, zero, suc, ◌+◌, ◌/◌, ◌%◌, inl, inr, Bool, Bool-cases, true, false, not, ◌&&◌, List, [], ◌∷◌,
  ◌++◌, none, Bytes, codes, length, starts_with, same, ◌==◌, ==_iff, ltb, ltb→lt, if◌then◌else◌,
  ◌≡◌, refl, arith,
}
use scion_lwip_contrib.Httpd.Params.RoundTrip.{Without, Without-append}
use scion_lwip_contrib.Httpd.Files.{crlf}
use scion_lwip_contrib.Httpd.Response.{
  hdr_ok, hdr_not_found, hdr_bad_request, hdr_not_impl, type_headers, default_type, find_type,
  find_extension,
}
use scion_lwip_contrib.Makefsdata.{
  put_loop, file_put_ascii, decimal_loop, decimal, comment, response_type, type_for, file_ext,
  file_type, put_header,
}
use scion_lwip_contrib.Makefsdata.Reading.{
  Reads, Reads-append, Reads-crlf, Reads-comment, AreBytes, Reads-put_loop,
}

-- Text of bytes without '*', and a test for it.
abbrev pub IsPlain : Bytes → Type 0
IsPlain text = Without b'*' text × AreBytes text

unfoldable pub plain : Bytes → Bool
plain [] = true
plain (c ∷ cs) = not (c == b'*') && ltb c 256 && plain cs

pub plain-IsPlain : (text : Bytes) → plain text ≡ true → IsPlain text
unfolding plain
plain-IsPlain [] h = (tt, tt)
plain-IsPlain (c ∷ cs) h = elim (Bool-cases (c == b'*')) [
  | inl t ↦ cc (rw t at h)
  | inr f ↦ elim (Bool-cases (ltb c 256)) [
    | inl t ↦
        let r = plain-IsPlain cs (rw (f, t) at h) in
        (
          ((λ e. let star : (c == b'*') ≡ true = (==_iff c b'*').1 e in cc), r.0),
          (ltb→lt c 256 t, r.1),
        )
    | inr g ↦ cc (rw (f, g) at h)
  ]
]

one_of : (b : Bool) (x y : Bytes) → IsPlain x → IsPlain y → IsPlain (if b then x else y)
one_of true x y p q = p
one_of false x y p q = q

pub response_type-IsPlain : (filename : Bytes) → IsPlain (response_type filename)
unfolding response_type plain
response_type-IsPlain filename =
    let third = if starts_with (codes "501") filename then hdr_not_impl else hdr_ok in
    let second = if starts_with (codes "400") filename then hdr_bad_request else third in
    one_of (starts_with (codes "404") filename) hdr_not_found second
      (plain-IsPlain hdr_not_found refl)
      (one_of (starts_with (codes "400") filename) hdr_bad_request third
        (plain-IsPlain hdr_bad_request refl)
        (one_of (starts_with (codes "501") filename) hdr_not_impl hdr_ok
          (plain-IsPlain hdr_not_impl refl) (plain-IsPlain hdr_ok refl)))

unfoldable all_plain : List (Bytes × Bytes) → Bool
unfolding plain
all_plain [] = true
all_plain ((e, h) ∷ es) = plain h && all_plain es

find_type-IsPlain :
    (es : List (Bytes × Bytes)) (ext : Bytes) → all_plain es ≡ true → IsPlain (find_type es ext)
unfolding find_type all_plain plain
find_type-IsPlain [] ext h = plain-IsPlain default_type refl
find_type-IsPlain ((e, header) ∷ es) ext h = elim (Bool-cases (plain header)) [
  | inr f ↦ cc (rw f at h)
  | inl t ↦ elim (Bool-cases (same e ext)) [
    | inl s ↦ rw s (plain-IsPlain header t)
    | inr s ↦ rw s (find_type-IsPlain es ext (rw t at h))
  ]
]

type_for-IsPlain : (filename ext : Bytes) → IsPlain (type_for filename ext)
unfolding type_for all_plain plain
type_for-IsPlain filename [] = plain-IsPlain default_type refl
type_for-IsPlain filename (c ∷ cs) = find_type-IsPlain type_headers (c ∷ cs) refl

pub file_type-IsPlain : (filename : Bytes) → IsPlain (file_type filename)
unfolding file_type
file_type-IsPlain filename =
    type_for-IsPlain filename (file_ext filename (find_extension none filename))

decimal_loop-Without :
    (fuel n : ℕ) (digits : Bytes) → Without b'*' digits → Without b'*' (decimal_loop fuel n digits)
unfolding decimal_loop
decimal_loop-Without zero n digits w = w
decimal_loop-Without (suc fuel) n digits w =
    let w' : Without b'*' ((b'0' + n % 10) ∷ digits) = ((λ e. omega (arith, e)), w) in
    elim (Bool-cases (ltb n 10)) [
      | inl t ↦ rw t w'
      | inr f ↦ rw f (decimal_loop-Without fuel (n / 10) ((b'0' + n % 10) ∷ digits) w')
    ]

decimal-Without : (n : ℕ) → Without b'*' (decimal n)
unfolding decimal
decimal-Without n = decimal_loop-Without (n + 1) n [] tt

-- A comment around a text and a number.
pub counted :
    (before text middle : Bytes) (n : ℕ) (after : Bytes)
    → plain before ≡ true
    → Without b'*' text
    → plain middle ≡ true
    → plain after ≡ true
    → Reads (comment (before ++ (text ++ (middle ++ (decimal n ++ after))))) []
counted before text middle n after p w q r =
    Reads-comment (before ++ (text ++ (middle ++ (decimal n ++ after)))) (
      Without-append b'*' before (text ++ (middle ++ (decimal n ++ after)))
        (plain-IsPlain before p).0
        (Without-append b'*' text (middle ++ (decimal n ++ after)) w (
          Without-append b'*' middle (decimal n ++ after) (plain-IsPlain middle q).0
            (Without-append b'*' (decimal n) after (decimal-Without n) (plain-IsPlain after r).0))))

pub put_header-Reads : (text : Bytes) → IsPlain text → Reads (put_header text) text
unfolding put_header file_put_ascii plain
put_header-Reads text h =
    let c =
      comment
        (codes " \"" ++ (text ++ (codes "\" (" ++ (decimal (length text) ++ codes " bytes) ")))) in
    Reads-append crlf (c ++ (crlf ++ put_loop 0 text)) [] text Reads-crlf (
      Reads-append c (crlf ++ put_loop 0 text) [] text
        (counted (codes " \"") text (codes "\" (") (length text) (codes " bytes) ") refl h.0 refl
          refl)
        (Reads-append crlf (put_loop 0 text) [] text Reads-crlf (Reads-put_loop 0 text h.1)))

pub AreBytes-split : (xs ys : Bytes) → AreBytes (xs ++ ys) → AreBytes xs × AreBytes ys
AreBytes-split [] ys h = (tt, h)
AreBytes-split (x ∷ xs) ys h = let r = AreBytes-split xs ys h.1 in ((h.0, r.0), r.1)
