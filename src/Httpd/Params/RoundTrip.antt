-- ===== src/Httpd/Params/RoundTrip.antt =====
-- The parameters of a CGI request against the text that they are written as.
use scion_lwip_contrib.Base.{
  ℕ, zero, suc, ◌≤◌, ◌≢◌, List, [], ◌∷◌, ◌++◌, Option, none, some, Bytes, length, break_at,
  ne→==_false, ◌≡◌, ◌∙◌, refl, ap, arith,
}
use scion_lwip_contrib.Httpd.Params.{
  Param, max_cgi_parameters, split_pair, extract_loop, extract_uri_parameters,
}

-- No character of a text is `c`.
abbrev pub Without : ℕ → Bytes → Type 0
Without c [] = Unit
Without c (x ∷ xs) = (x ≢ c) × Without c xs

abbrev pub print_param : Param → Bytes
print_param p = elim p.value [ none ↦ p.name | some v ↦ p.name ++ b'=' ∷ v ]

-- The parameters as they stand in a URI: name, or name=value, joined by '&'.
abbrev pub print_params : List Param → Bytes
print_params [] = []
print_params (p ∷ []) = print_param p
print_params (p ∷ q ∷ ps) = print_param p ++ b'&' ∷ print_params (q ∷ ps)

abbrev ValueOk : Option Bytes → Type 0
ValueOk none = Unit
ValueOk (some v) = Without b'&' v × Without b' ' v

-- A name is not empty and has no '&', '=' and space; a value has no '&' and no space.
abbrev pub IsPlain : List Param → Type 0
IsPlain [] = Unit
IsPlain (p ∷ ps) =
    (p.name ≢ [])
    × Without b'&' p.name
    × Without b'=' p.name
    × Without b' ' p.name
    × ValueOk p.value
    × IsPlain ps

pub break_at-found :
    (c : ℕ) (xs ys : Bytes) → Without c xs → break_at c (xs ++ c ∷ ys) ≡ (xs, some ys)
unfolding break_at
break_at-found c [] ys h = ground arith
break_at-found c (x ∷ xs) ys h = rw (break_at-found c xs ys h.1, ne→==_false x c h.0) refl

pub break_at-none : (c : ℕ) (xs : Bytes) → Without c xs → break_at c xs ≡ (xs, none)
unfolding break_at
break_at-none c [] h = refl
break_at-none c (x ∷ xs) h = rw (break_at-none c xs h.1, ne→==_false x c h.0) refl

pub Without-append : (c : ℕ) (xs ys : Bytes) → Without c xs → Without c ys → Without c (xs ++ ys)
Without-append c [] ys h k = k
Without-append c (x ∷ xs) ys h k = (h.0, Without-append c xs ys h.1 k)

eq_is_not_and : ◌≢◌ {A = ℕ} b'=' b'&'
eq_is_not_and e = omega (arith, e)

eq_is_not_space : ◌≢◌ {A = ℕ} b'=' b' '
eq_is_not_space e = omega (arith, e)

-- A printed parameter has no '&' and no space, and is split into its parts.
print_param-Without :
    (name : Bytes) (value : Option Bytes)
    → Without b'&' name
    → Without b' ' name
    → ValueOk value
    → Without b'&' (print_param (record { name = name; value = value }))
      × Without b' ' (print_param (record { name = name; value = value }))
print_param-Without name none h k v = (h, k)
print_param-Without name (some t) h k v = (
  Without-append b'&' name (b'=' ∷ t) h (eq_is_not_and, v.0),
  Without-append b' ' name (b'=' ∷ t) k (eq_is_not_space, v.1),
)

split_pair-print_param :
    (name : Bytes) (value : Option Bytes)
    → Without b'=' name
    → split_pair (print_param (record { name = name; value = value }))
      ≡ record { name = name; value = value }
unfolding split_pair
split_pair-print_param name none h = rw (break_at-none b'=' name h) refl
split_pair-print_param name (some t) h = rw (break_at-found b'=' name t h) refl

extract_loop-print_param :
    (slots : ℕ) (p : Param) → IsPlain (p ∷ []) → extract_loop (suc slots) (print_param p) ≡ p ∷ []
unfolding extract_loop
extract_loop-print_param slots p h =
    let w = print_param-Without p.name p.value h.1 h.3 h.4 in
    rw
      (
        break_at-none b'&' (print_param p) w.0,
        break_at-none b' ' (print_param p) w.1,
        split_pair-print_param p.name p.value h.2,
        extract_loop,
      )
      refl

extract_loop-more :
    (slots : ℕ) (p : Param) (rest : Bytes)
    → p.name ≢ []
    → Without b'&' p.name
    → Without b'=' p.name
    → Without b' ' p.name
    → ValueOk p.value
    → extract_loop (suc slots) (print_param p ++ b'&' ∷ rest) ≡ p ∷ extract_loop slots rest
unfolding extract_loop
extract_loop-more slots p rest n h e k v =
    let w = print_param-Without p.name p.value h k v in
    let cut = break_at-found b'&' (print_param p) rest w.0 in
    rw (cut, extract_loop)
      (ap (λ (q : Param). q ∷ extract_loop slots rest)
        (rw cut (split_pair-print_param p.name p.value e)))

-- A text that is not empty goes through the loop.
extract_uri_parameters-loop :
    (text : Bytes)
    → text ≢ []
    → extract_uri_parameters (some text) ≡ extract_loop max_cgi_parameters text
unfolding extract_uri_parameters
extract_uri_parameters-loop [] h = absurd (h refl)
extract_uri_parameters-loop (c ∷ cs) h = refl

ne_nil-append : (xs ys : Bytes) → xs ≢ [] → xs ++ ys ≢ []
ne_nil-append [] ys h = absurd (h refl)
ne_nil-append (x ∷ xs) ys h = λ e. cc

print_param-ne_nil :
    (name : Bytes) (value : Option Bytes)
    → name ≢ []
    → print_param (record { name = name; value = value }) ≢ []
print_param-ne_nil name none h = h
print_param-ne_nil name (some v) h = ne_nil-append name (b'=' ∷ v) h

print_params-ne_nil : (p : Param) (ps : List Param) → p.name ≢ [] → print_params (p ∷ ps) ≢ []
print_params-ne_nil p [] h = print_param-ne_nil p.name p.value h
print_params-ne_nil p (q ∷ ps) h =
    ne_nil-append (print_param p) (b'&' ∷ print_params (q ∷ ps))
      (print_param-ne_nil p.name p.value h)

extract_loop-print_params :
    (slots : ℕ) (p : Param) (ps : List Param)
    → IsPlain (p ∷ ps)
    → length (p ∷ ps) ≤ slots
    → extract_loop slots (print_params (p ∷ ps)) ≡ p ∷ ps
unfolding extract_loop
extract_loop-print_params zero p ps h room = absurd (omega (arith, room))
extract_loop-print_params (suc slots) p [] h room = extract_loop-print_param slots p h
extract_loop-print_params (suc slots) p (q ∷ ps) h room =
    extract_loop-more slots p (print_params (q ∷ ps)) h.0 h.1 h.2 h.3 h.4
    ∙ ap (◌∷◌ p) (extract_loop-print_params slots q ps h.5 (omega (arith, room)))

-- Up to 16 parameters, whose names are not empty and have no '&', '=' and space and whose values have no '&'
-- and space, written as name or name=value and joined by '&', are extracted as they were written, in order.
pub extract_uri_parameters-print_params :
    (ps : List Param)
    → IsPlain ps
    → length ps ≤ max_cgi_parameters
    → extract_uri_parameters (some (print_params ps)) ≡ ps
unfolding extract_uri_parameters
extract_uri_parameters-print_params [] h room = refl
extract_uri_parameters-print_params (p ∷ ps) h room =
    extract_uri_parameters-loop (print_params (p ∷ ps)) (print_params-ne_nil p ps h.0)
    ∙ extract_loop-print_params max_cgi_parameters p ps h room
