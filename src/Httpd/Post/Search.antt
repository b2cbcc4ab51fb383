-- ===== src/Httpd/Post/Search.antt =====
-- `strnstr` on a text and on a longer one, and the number in "Content-Length: ".
use scion_lwip_contrib.Base.{
  ℕ, ◌+◌, ◌-◌, ◌≤◌, inl, inr, Bool-cases, true, [], ◌∷◌, ◌++◌, Option, none, some, Bytes, codes,
  length, take, drop, drop-append_le, take-append_le, starts_with, ◌==◌, leb, le→leb, leb→le, ◌≡◌,
  refl, sym, ap, ◌∙◌, arith, ◌&&◌,
}
use scion_lwip_contrib.Httpd.Files.{strnstr, crlf}
use scion_lwip_contrib.Httpd.Request.Waiting.{starts_with-longer}
use scion_lwip_contrib.Httpd.Post.Line.{
  content_length, value_at, number_at, atoi, number_end, scontent_len_end,
}

found_next :
    (o : Option ℕ) (k : ℕ)
    → elim o [ none ↦ none | some j ↦ some (j + 1) ] ≡ some k
    → (j : ℕ) × (o ≡ some j) × (k ≡ j + 1)
found_next none k e = cc
found_next (some j) k e = (j, refl, cc)

starts_with-length : (word text : Bytes) → starts_with word text ≡ true → length word ≤ length text
unfolding starts_with
starts_with-length [] text e = omega arith
starts_with-length (w ∷ word) [] e = cc
starts_with-length (w ∷ word) (c ∷ text) e = elim (Bool-cases (w == c)) [
  | inl t ↦ omega (arith, starts_with-length word text (rw t at e))
  | inr f ↦ cc (rw f at e)
]

-- In a text of the token's length at least, only the text counts.
starts_with-cut :
    (word xs ys : Bytes)
    → length word ≤ length xs
    → starts_with word (xs ++ ys) ≡ starts_with word xs
unfolding starts_with
starts_with-cut [] xs ys le = refl
starts_with-cut (w ∷ word) [] ys le = absurd (omega (arith, le))
starts_with-cut (w ∷ word) (x ∷ xs) ys le =
    ap (◌&&◌ (w == x)) (starts_with-cut word xs ys (omega (arith, le)))

-- The token is found within the text.
pub strnstr-length :
    (token xs : Bytes) (n k : ℕ) → strnstr xs token n ≡ some k → k + length token ≤ length xs
unfolding strnstr
strnstr-length token [] n k e = cc
strnstr-length token (x ∷ xs) n k e = elim (Bool-cases (x == 0)) [
  | inl z ↦ cc (rw z at e)
  | inr z ↦ elim (Bool-cases (leb (length token) n)) [
    | inr f ↦ cc (rw (z, f) at e)
    | inl t ↦ elim (Bool-cases (starts_with token (x ∷ xs))) [
      | inl s ↦
          let here : some 0 ≡ some k = rw (z, t, s) at e in
          let at_start : 0 ≡ k = cc in omega (arith, at_start, starts_with-length token (x ∷ xs) s)
      | inr s ↦
          let r = found_next (strnstr xs token (n - 1)) k (rw (z, t, s) at e) in
          omega (arith, r.2, strnstr-length token xs (n - 1) r.0 r.1)
    ]
  ]
]

-- What is found in a text is found in a longer one, and with a longer limit.
pub strnstr-append :
    (token xs ys : Bytes) (n m k : ℕ)
    → n ≤ m
    → strnstr xs token n ≡ some k
    → strnstr (xs ++ ys) token m ≡ some k
unfolding strnstr
strnstr-append token [] ys n m k le e = cc
strnstr-append token (x ∷ xs) ys n m k le e = elim (Bool-cases (x == 0)) [
  | inl z ↦ cc (rw z at e)
  | inr z ↦ elim (Bool-cases (leb (length token) n)) [
    | inr f ↦ cc (rw (z, f) at e)
    | inl t ↦
        let t' = le→leb (length token) m (omega (arith, leb→le (length token) n t, le)) in
        elim (Bool-cases (starts_with token (x ∷ xs))) [
          | inl s ↦ rw (z, t', starts_with-longer token (x ∷ xs) ys s) (rw (z, t, s) at e)
          | inr s ↦
              let r = found_next (strnstr xs token (n - 1)) k (rw (z, t, s) at e) in
              let cut =
                starts_with-cut token (x ∷ xs) ys
                  (omega (arith, strnstr-length token xs (n - 1) r.0 r.1)) in
              rw
                (
                  z,
                  t',
                  cut,
                  s,
                  strnstr-append token xs ys (n - 1) (m - 1) r.0 (omega (arith, le)) r.1,
                )
                (ap (λ (j : ℕ). some j) (sym r.2))
        ]
  ]
]

abbrev number_of : Bytes → Option ℕ → Option ℕ
number_of text o = elim o [ none ↦ none | some e ↦ some (atoi (take e text)) ]

number_ends :
    (text : Bytes) (o : Option ℕ) (n : ℕ)
    → number_of text o ≡ some n
    → (e : ℕ) × (o ≡ some e) × (some (atoi (take e text)) ≡ some n)
number_ends text none n h = cc
number_ends text (some e) n h = (e, refl, h)

number_at-append : (xs ys : Bytes) (n : ℕ) → number_at xs ≡ some n → number_at (xs ++ ys) ≡ some n
unfolding number_at
number_at-append xs ys n h =
    let r = number_ends xs (strnstr xs crlf 10) n h in
    ap (number_of (xs ++ ys)) (strnstr-append crlf xs ys 10 10 r.0 (omega arith) r.1)
    ∙ ap (λ (t : Bytes). some (atoi t))
        (take-append_le r.0 xs ys (omega (arith, strnstr-length crlf xs 10 r.0 r.1)))
    ∙ r.2

value_found :
    (fields : Bytes) (o : Option ℕ) (n : ℕ)
    → value_at fields o ≡ some n
    → (j : ℕ) × (o ≡ some j) × (number_at (drop (j + 16) fields) ≡ some n)
unfolding value_at
value_found fields none n h = cc
value_found fields (some j) n h = (j, refl, h)

-- The number is read in the header, whatever follows it.
pub content_length-append :
    (xs ys : Bytes) (k n : ℕ) → content_length xs k ≡ some n → content_length (xs ++ ys) k ≡ some n
unfolding content_length value_at
content_length-append xs ys k n h =
    let r = value_found xs (strnstr xs (codes "Content-Length: ") k) n h in
    ap (value_at (xs ++ ys))
      (strnstr-append (codes "Content-Length: ") xs ys k k r.0 (omega arith) r.1)
    ∙ ap number_at
        (drop-append_le (r.0 + 16) xs ys (strnstr-length (codes "Content-Length: ") xs k r.0 r.1))
    ∙ number_at-append (drop (r.0 + 16) xs) ys n r.2

end_found :
    (fields : Bytes) (o : Option ℕ) (n : ℕ)
    → number_end fields o ≡ some n
    → (j : ℕ) × (o ≡ some j)
      × ((e : ℕ) × (strnstr (drop (j + 16) fields) crlf 10 ≡ some e) × (some (j + 16 + e) ≡ some n))
unfolding number_end
end_found fields none n h = cc
end_found fields (some j) n h = (j, refl, at_end (strnstr (drop (j + 16) fields) crlf 10) h)
  where
    at_end :
        (o : Option ℕ)
        → elim o [ none ↦ none | some e ↦ some (j + 16 + e) ] ≡ some n
        → (e : ℕ) × (o ≡ some e) × (some (j + 16 + e) ≡ some n)
    at_end none e = cc
    at_end (some e) h' = (e, refl, h')

-- The end of its line too.
pub scontent_len_end-append :
    (xs ys : Bytes) (k n : ℕ)
    → scontent_len_end xs k ≡ some n
    → scontent_len_end (xs ++ ys) k ≡ some n
unfolding scontent_len_end number_end
scontent_len_end-append xs ys k n h =
    let r = end_found xs (strnstr xs (codes "Content-Length: ") k) n h in
    let j = r.0 in
    ap (number_end (xs ++ ys))
      (strnstr-append (codes "Content-Length: ") xs ys k k j (omega arith) r.1)
    ∙ ap (λ (t : Bytes). elim (strnstr t crlf 10) [ none ↦ none | some e ↦ some (j + 16 + e) ])
        (drop-append_le (j + 16) xs ys (strnstr-length (codes "Content-Length: ") xs k j r.1))
    ∙ ap (λ (o : Option ℕ). elim o [ none ↦ none | some e ↦ some (j + 16 + e) ])
        (strnstr-append crlf (drop (j + 16) xs) ys 10 10 r.2.0 (omega arith) r.2.1)
    ∙ r.2.2
