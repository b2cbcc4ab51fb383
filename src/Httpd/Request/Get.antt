-- ===== src/Httpd/Request/Get.antt =====
-- A GET request is recognised, in one buffer or in several.
use scion_lwip_contrib.Base.{
  ℕ, suc, ◌+◌, ◌-◌, ◌≤◌, ◌<◌, ◌≢◌, inl, inr, Bool-cases, true, false, [], ◌∷◌, ◌++◌, append_assoc,
  Option, none, some, Bytes, codes, length, length-append, take, take-append, starts_with, ◌==◌,
  ne→==_false, le→leb, ◌≡◌, refl, sym, subst, ap, ◌∙◌, arith,
}
use scion_lwip_contrib.Httpd.Params.RoundTrip.{Without, Without-append}
use scion_lwip_contrib.Httpd.Files.{strnstr, crlf}
use scion_lwip_contrib.Httpd.Request.{RequestLine, get, parse_get, parse_method, parse_line}

pub same_char : (t : ℕ) → (t == t) ≡ true
same_char t = ground arith

-- Without the token's first character before it, the token is found where it stands.
pub strnstr-first :
    (t : ℕ) (xs ys : Bytes) (n : ℕ)
    → t ≢ 0
    → Without t xs
    → Without 0 xs
    → length xs < n
    → strnstr (xs ++ t ∷ ys) (t ∷ []) n ≡ some (length xs)
unfolding strnstr starts_with
strnstr-first t [] ys n nz a b lt = rw (ne→==_false t 0 nz, le→leb 1 n lt, same_char t) refl
strnstr-first t (x ∷ xs) ys n nz a b lt =
    let ih = strnstr-first t xs ys (n - 1) nz a.1 b.1 (omega (arith, lt)) in
    rw (ne→==_false x 0 b.0, le→leb 1 n (omega (arith, lt)), ne→==_false t x (λ e. a.0 (sym e)), ih)
      (ap (λ (k : ℕ). some k) (let e : length xs + 1 ≡ suc (length xs) = omega arith in e))

abbrev pub IsFound : Option ℕ → Type 0
IsFound none = ⊥
IsFound (some k) = Unit {0}

pub starts_with-append : (word text : Bytes) → starts_with word (word ++ text) ≡ true
unfolding starts_with
starts_with-append [] text = refl
starts_with-append (w ∷ word) text = rw (same_char w) (starts_with-append word text)

next-IsFound : (o : Option ℕ) → IsFound o → IsFound (elim o [ none ↦ none | some k ↦ some (k + 1) ])
next-IsFound none h = h
next-IsFound (some k) h = tt

-- A token that stands behind a text without NUL is found, there or before.
pub strnstr-IsFound :
    (t : ℕ) (ts xs ys : Bytes) (n : ℕ)
    → t ≢ 0
    → Without 0 xs
    → length xs + length (t ∷ ts) ≤ n
    → IsFound (strnstr (xs ++ ((t ∷ ts) ++ ys)) (t ∷ ts) n)
unfolding strnstr
strnstr-IsFound t ts [] ys n nz a le =
    rw
      (
        ne→==_false t 0 nz,
        le→leb (length (t ∷ ts)) n (omega (arith, le)),
        starts_with-append (t ∷ ts) ys,
      )
      tt
strnstr-IsFound t ts (x ∷ xs) ys n nz a le =
    let later =
      next-IsFound (strnstr (xs ++ ((t ∷ ts) ++ ys)) (t ∷ ts) (n - 1))
        (strnstr-IsFound t ts xs ys (n - 1) nz a.1 (omega (arith, le))) in
    rw (ne→==_false x 0 a.0, le→leb (length (t ∷ ts)) n (omega (arith, le)))
      (elim (Bool-cases (starts_with (t ∷ ts) (x ∷ (xs ++ ((t ∷ ts) ++ ys))))) [
        | inl e ↦ rw e tt
        | inr e ↦ rw e later
      ])

found_some : (o : Option ℕ) → IsFound o → (k : ℕ) × (o ≡ some k)
found_some none h = absurd h
found_some (some k) h = (k, refl)

-- A request for a URI: what stands behind it holds the end of the headers.
abbrev pub get_request : Bytes → Bytes → Bytes → Bytes
get_request uri version headers =
    codes "GET " ++ (uri ++ (codes " " ++ (version ++ ((crlf ++ crlf) ++ headers))))

pub found_elim {ℓ} :
    {A : Type ℓ} (o : Option ℕ) (x y : A) → IsFound o → (elim o [ none ↦ x | some k ↦ y ]) ≡ y
found_elim none x y h = absurd h
found_elim (some k) x y h = refl

module _ (uri version headers : Bytes) (a : Without b' ' uri) (b : Without 0 uri)
    (c : Without 0 version) where
  abbrev request : Bytes
  request = get_request uri version headers

  abbrev front : Bytes
  front = codes "GET " ++ (uri ++ (codes " " ++ version))

  abbrev behind : Bytes
  behind = uri ++ (codes " " ++ (version ++ ((crlf ++ crlf) ++ headers)))

  as_parts : request ≡ front ++ ((crlf ++ crlf) ++ headers)
  as_parts =
      ap (◌++◌ (codes "GET "))
        (sym (append_assoc uri (codes " " ++ version) ((crlf ++ crlf) ++ headers)))

  no_nul : Without 0 front
  no_nul = (
    λ e. omega (arith, e),
    (
      λ e. omega (arith, e),
      (
        λ e. omega (arith, e),
        (
          λ e. omega (arith, e),
          Without-append 0 uri (codes " " ++ version) b ((λ e. omega (arith, e)), c),
        ),
      ),
    ),
  )

  size : length request ≡ length front + (4 + length headers)
  size = omega (arith, ap length as_parts, length-append front ((crlf ++ crlf) ++ headers))

  finds :
      (ts ys : Bytes)
      → (13 ∷ ts) ++ ys ≡ (crlf ++ crlf) ++ headers
      → IsFound (strnstr request (13 ∷ ts) (length request))
  finds ts ys e =
      subst (λ (r : Bytes). IsFound (strnstr r (13 ∷ ts) (length request)))
        (ap (◌++◌ front) e ∙ sym as_parts)
        (strnstr-IsFound 13 ts front ys (length request) (λ z. omega (arith, z)) no_nul
          (omega (arith, size, ap length e, length-append (13 ∷ ts) ys)))

  parse_method-get_request : parse_method request ≡ get uri false
  unfolding parse_method starts_with
  parse_method-get_request =
      let rest = version ++ ((crlf ++ crlf) ++ headers) in
      ap (parse_get request behind) (
        strnstr-first b' ' uri rest (length behind) (λ e. omega (arith, e)) a b
          (omega (arith, length-append uri (b' ' ∷ rest))))
      ∙ found_elim (strnstr request (crlf ++ crlf) (length request)) RequestLine.incomplete
          (get (take (length uri) behind) false) (finds (10 ∷ 13 ∷ 10 ∷ []) headers refl)
      ∙ ap (λ (u : Bytes). get u false) (take-append (length uri) uri (b' ' ∷ rest) refl)

  -- No space or NUL in the URI, and no NUL before the headers' end.
  pub parse_line-get_request : parse_line request ≡ get uri false
  unfolding parse_line
  parse_line-get_request =
      rw
        (le→leb 7 (length request) (
          omega (
            arith,
            length-append uri (b' ' ∷ (version ++ ((crlf ++ crlf) ++ headers))),
            length-append version ((crlf ++ crlf) ++ headers),
          )))
        (found_elim (strnstr request crlf (length request)) RequestLine.incomplete
            (parse_method request) (finds (10 ∷ []) (crlf ++ headers) refl)
          ∙ parse_method-get_request)
