-- ===== src/Makefsdata/Reading.antt =====
-- How a C compiler reads the elements of the generated array, and the bytes that they give.
use scion_lwip_contrib.Base.{
  ℕ, ◌+◌, ◌-◌, ◌*◌, ◌/◌, ◌%◌, ◌<◌, Bool, true, false, ◌&&◌, ◌||◌, [], ◌∷◌, ◌++◌, append_assoc,
  Option, none, some, Bytes, ◌==◌, leb, ltb, le→leb, lt→leb_false, ltb→lt, ltb_false→le,
  ne→==_false, Bool-cases, inl, inr, codes, if◌then◌else◌, ◌≡◌, refl, sym, ap, ◌∙◌, arith,
}
use scion_lwip_contrib.Httpd.Params.RoundTrip.{Without}
use scion_lwip_contrib.Makefsdata.{hex_digit, hex_byte, comment, put_loop, hex_bytes_per_line}
use scion_lwip_contrib.Httpd.Files.{crlf}

-- Between two elements, within one, and within a comment.
pub data Place : Type 0 where
  between after_zero after_x in_slash in_comment in_star : Place
  after_digit after_byte : ℕ → Place

abbrev hex_value : ℕ → Option ℕ
hex_value c =
    if leb b'0' c && leb c b'9'
    then some (c - b'0')
    else if leb b'a' c && leb c b'f'
    then some (c - b'a' + 10)
    else none

abbrev with_digit : Option ℕ → (ℕ → Place) → Option Place
with_digit none f = none
with_digit (some d) f = some (f d)

-- The place behind a character; `none` where it is no array of bytes.
unfoldable pub next_place : Place → ℕ → Option Place
next_place between c =
    if c == 13 || c == 10 || c == b' '
    then some between
    else if c == b'0'
    then some after_zero
    else if c == b'/'
    then some in_slash
    else none
next_place after_zero c = if c == b'x' then some after_x else none
next_place after_x c = with_digit (hex_value c) after_digit
next_place (after_digit d) c = with_digit (hex_value c) (λ e. after_byte (d * 16 + e))
next_place (after_byte v) c = if c == b',' then some between else none
next_place in_slash c = if c == b'*' then some in_comment else none
next_place in_comment c = if c == b'*' then some in_star else some in_comment
next_place in_star c =
    if c == b'/' then some between else if c == b'*' then some in_star else some in_comment

-- The byte that a place gives, and a text in front of what is read.
abbrev pub byte_of : Place → Bytes
byte_of (after_byte v) = v ∷ []
byte_of p = []

abbrev pub prepend : Bytes → Option Bytes → Option Bytes
prepend bytes none = none
prepend bytes (some more) = some (bytes ++ more)

unfoldable pub read_array : Place → Bytes → Option Bytes
unfolding next_place
read_array between [] = some []
read_array p [] = none
read_array p (c ∷ cs) = elim (next_place p c) [
  | none ↦ none
  | some q ↦ prepend (byte_of q) (read_array q cs)
]

-- The text is elements, blanks and comments that give the bytes.
abbrev pub Reads : Bytes → Bytes → Type 0
Reads text bytes =
    (rest : Bytes) → read_array between (text ++ rest) ≡ prepend bytes (read_array between rest)

prepend-prepend : (a b : Bytes) (o : Option Bytes) → prepend a (prepend b o) ≡ prepend (a ++ b) o
prepend-prepend a b none = refl
prepend-prepend a b (some more) = ap (λ (t : Bytes). some t) (sym (append_assoc a b more))

prepend-nil : (o : Option Bytes) → prepend [] o ≡ o
prepend-nil none = refl
prepend-nil (some more) = refl

pub Reads-nil : Reads [] []
Reads-nil rest = sym (prepend-nil (read_array between rest))

pub Reads-append :
    (text text' bytes bytes' : Bytes)
    → Reads text bytes
    → Reads text' bytes'
    → Reads (text ++ text') (bytes ++ bytes')
Reads-append text text' bytes bytes' h h' rest =
    ap (read_array between) (append_assoc text text' rest)
    ∙ h (text' ++ rest)
    ∙ ap (prepend bytes) (h' rest)
    ∙ prepend-prepend bytes bytes' (read_array between rest)

pub Reads-crlf : Reads (13 ∷ 10 ∷ []) []
unfolding read_array
Reads-crlf rest = ap (prepend []) (prepend-nil (read_array between rest))

Reads-newline : (b : Bool) → Reads (if b then crlf else []) []
Reads-newline true = Reads-crlf
Reads-newline false = Reads-nil

-- A comment gives nothing.
comment_ends :
    (text rest : Bytes)
    → Without b'*' text
    → read_array in_comment (text ++ b'*' ∷ b'/' ∷ rest) ≡ read_array between rest
unfolding read_array
comment_ends [] rest w =
    prepend-nil (read_array in_star (b'/' ∷ rest)) ∙ prepend-nil (read_array between rest)
comment_ends (c ∷ text) rest w =
    rw (ne→==_false c b'*' w.0, read_array)
      (prepend-nil (read_array in_comment (text ++ b'*' ∷ b'/' ∷ rest))
        ∙ comment_ends text rest w.1)

pub Reads-comment : (text : Bytes) → Without b'*' text → Reads (comment text) []
unfolding read_array
Reads-comment text w rest =
    prepend-nil (read_array in_slash (b'*' ∷ ((text ++ codes "*/") ++ rest)))
    ∙ prepend-nil (read_array in_comment ((text ++ codes "*/") ++ rest))
    ∙ ap (read_array in_comment) (append_assoc text (codes "*/") rest)
    ∙ comment_ends text rest w
    ∙ sym (prepend-nil (read_array between rest))

hex_value-hex_digit : (d : ℕ) → d < 16 → hex_value (hex_digit d) ≡ some d
unfolding hex_digit
hex_value-hex_digit d lt = elim (Bool-cases (ltb d 10)) [
  | inl t ↦
      let low = ltb→lt d 10 t in
      rw (t, le→leb b'0' (b'0' + d) (omega arith), le→leb (b'0' + d) b'9' (omega (arith, low)))
        (ap (λ (n : ℕ). some n) (let e : b'0' + d - b'0' ≡ d = omega arith in e))
  | inr f ↦
      let high = ltb_false→le d 10 f in
      rw
        (
          f,
          lt→leb_false (b'a' + (d - 10)) b'9' (omega arith),
          le→leb b'0' (b'a' + (d - 10)) (omega arith),
          le→leb b'a' (b'a' + (d - 10)) (omega arith),
          le→leb (b'a' + (d - 10)) b'f' (omega (arith, lt)),
        )
        (ap (λ (n : ℕ). some n)
          (let e : b'a' + (d - 10) - b'a' + 10 ≡ d = omega (arith, high) in e))
]

-- The text for a byte gives the byte.
pub Reads-hex_byte : (c : ℕ) → c < 256 → Reads (hex_byte c) (c ∷ [])
unfolding read_array hex_byte
Reads-hex_byte c lt rest =
    rw
      (hex_value-hex_digit (c / 16) (omega (arith, lt)), hex_value-hex_digit (c % 16) (omega arith))
      (let v = c / 16 * 16 + c % 16 in
        let whole : v ≡ c = omega arith in
        let more = read_array between rest in
        prepend-nil (prepend [] (prepend [] (prepend (v ∷ []) (prepend [] more))))
        ∙ prepend-nil (prepend [] (prepend (v ∷ []) (prepend [] more)))
        ∙ prepend-nil (prepend (v ∷ []) (prepend [] more))
        ∙ ap (prepend (v ∷ [])) (prepend-nil more)
        ∙ ap (λ (b : ℕ). prepend (b ∷ []) more) whole)

-- Bytes are below 256.
abbrev pub AreBytes : Bytes → Type 0
AreBytes [] = Unit {0}
AreBytes (c ∷ cs) = (c < 256) × AreBytes cs

-- The text for a string gives the string.
pub Reads-put_loop : (i : ℕ) (cs : Bytes) → AreBytes cs → Reads (put_loop i cs) cs
unfolding put_loop
Reads-put_loop i [] h = Reads-nil
Reads-put_loop i (c ∷ cs) h =
    Reads-append (hex_byte c)
      ((if (i + 1) % hex_bytes_per_line == 0 then crlf else []) ++ put_loop (i + 1) cs) (c ∷ []) cs
      (Reads-hex_byte c h.0)
      (Reads-append (if (i + 1) % hex_bytes_per_line == 0 then crlf else []) (put_loop (i + 1) cs)
        [] cs (Reads-newline ((i + 1) % hex_bytes_per_line == 0)) (Reads-put_loop (i + 1) cs h.1))
