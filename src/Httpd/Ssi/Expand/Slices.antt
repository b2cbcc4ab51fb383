-- ===== src/Httpd/Ssi/Expand/Slices.antt =====
-- Pieces of the file, and the scanner over one more character of it.
use native.Mathlib.Numerals.{unary_clauses}
use scion_lwip_contrib.Base.{
  ℕ, zero, suc, ◌+◌, ◌-◌, ◌≤◌, ◌<◌, Bytes, [], ◌∷◌, ◌++◌, get_or, take, drop, length,
  take-take-drop, drop-drop, ◌==◌, ◌≡◌, refl, sym, ap, ◌∙◌, Bool-cases, inl, inr, arith,
}
use scion_lwip_contrib.Httpd.Ssi.Scan.{
  TagCheckState, tag_none, tag_leadin, tag_found, tag_leadout, tag_sending, SsiState, SsiState,
}
use scion_lwip_contrib.Httpd.Ssi.Expand.{
  Scanner, next, scanner, scanner_of, slice, expand, resume, inserted, pending_in, ssi_pending,
}
use scion_lwip_contrib.Httpd.Ssi.Expand.Steps.{IsScanning}

pub drop-get_or : (p : ℕ) (xs : Bytes) → p < length xs → drop p xs ≡ get_or xs p 0 ∷ drop (p + 1) xs
drop-get_or p [] h = absurd (omega (arith, h))
drop-get_or zero (x ∷ xs) h = refl
drop-get_or (suc p) (x ∷ xs) h =
    simp unary_clauses (simp unary_clauses at (drop-get_or p xs (omega (arith, h))))

take-more : (n : ℕ) (xs : Bytes) → n < length xs → take (n + 1) xs ≡ take n xs ++ get_or xs n 0 ∷ []
take-more n [] h = absurd (omega (arith, h))
take-more zero (x ∷ xs) h = refl
take-more (suc n) (x ∷ xs) h =
    simp unary_clauses (simp unary_clauses at (ap (◌∷◌ x) (take-more n xs (omega (arith, h)))))

get_or-drop : (a n : ℕ) (xs : Bytes) → get_or (drop a xs) n 0 ≡ get_or xs (a + n) 0
get_or-drop zero n xs = ap (λ (k : ℕ). get_or xs k 0) (omega arith)
get_or-drop (suc a) n [] = refl
get_or-drop (suc a) n (x ∷ xs) =
    get_or-drop a n xs
    ∙ ap (λ (k : ℕ). get_or (x ∷ xs) k 0) (let e : suc (a + n) ≡ suc a + n = omega arith in e)

pub length-drop_at : (a : ℕ) (xs : Bytes) → a ≤ length xs → a + length (drop a xs) ≡ length xs
length-drop_at zero xs h = omega arith
length-drop_at (suc a) [] h = absurd (omega (arith, h))
length-drop_at (suc a) (x ∷ xs) h = omega (arith, length-drop_at a xs (omega (arith, h)))

-- One more character.
pub slice-more :
    (xs : Bytes) (a p : ℕ)
    → a ≤ p
    → p < length xs
    → slice xs a (p + 1) ≡ slice xs a p ++ get_or xs p 0 ∷ []
slice-more xs a p le lt =
    ap (λ (k : ℕ). take k (drop a xs)) (let e : p + 1 - a ≡ (p - a) + 1 = omega arith in e)
    ∙ take-more (p - a) (drop a xs) (omega (arith, length-drop_at a xs (omega arith)))
    ∙ ap (λ (c : ℕ). slice xs a p ++ c ∷ [])
        (get_or-drop a (p - a) xs ∙ ap (λ (k : ℕ). get_or xs k 0) (omega arith))

-- The part that is sent, and the rest.
pub slice-sent :
    (xs : Bytes) (a n b : ℕ) → n ≤ b - a → take n (drop a xs) ++ slice xs (a + n) b ≡ slice xs a b
slice-sent xs a n b h =
    ap (λ (t : Bytes). take n (drop a xs) ++ take (b - (a + n)) t) (sym (drop-drop a n xs))
    ∙ take-take-drop n (b - (a + n)) (drop a xs)
    ∙ ap (λ (k : ℕ). take k (drop a xs)) (omega (arith, h))

pub slice-same : (xs : Bytes) (a : ℕ) → slice xs a a ≡ []
slice-same xs a = ap (λ (k : ℕ). take k (drop a xs)) (let e : a - a ≡ 0 = omega arith in e)

resume-scanner_of :
    (st : TagCheckState) (k : ℕ) (n : Bytes) → resume (scanner_of st k n) ≡ scanner_of st k n
unfolding resume
resume-scanner_of tag_none k n = refl
resume-scanner_of tag_leadin k n = ground arith
resume-scanner_of tag_found k n = refl
resume-scanner_of tag_leadout k n = refl
resume-scanner_of tag_sending k n = refl

inserted-scanner_of :
    (insert : Bytes → Bytes) (st : TagCheckState) (k : ℕ) (n cs : Bytes)
    → inserted insert (scanner_of st k n) cs ≡ []
unfolding inserted
inserted-scanner_of insert st k n [] = refl
inserted-scanner_of insert tag_none k n (c ∷ cs) = refl
inserted-scanner_of insert tag_leadin k n (c ∷ cs) = elim (Bool-cases (k == 5)) [
  | inl e ↦ rw e refl
  | inr e ↦ rw e refl
]
inserted-scanner_of insert tag_found k n (c ∷ cs) = refl
inserted-scanner_of insert tag_leadout k n (c ∷ cs) = refl
inserted-scanner_of insert tag_sending k n (c ∷ cs) = refl

-- A step of the scanner within text or a tag passes the character on.
pub expand-moves :
    (insert : Bytes → Bytes) (from : Scanner) (ssi' : SsiState) (c : ℕ) (cs : Bytes)
    → scanner ssi' ≡ next from c
    → expand insert from (c ∷ cs) ≡ c ∷ expand insert (scanner ssi') cs
unfolding expand
expand-moves insert from ssi' c cs e =
    let plain = resume-scanner_of ssi'.tag_state ssi'.tag_index ssi'.tag_name in
    ap (λ (s : Scanner). c ∷ (inserted insert s cs ++ expand insert (resume s) cs)) (sym e)
    ∙ ap (λ (t : Bytes). c ∷ (t ++ expand insert (resume (scanner ssi')) cs))
        (inserted-scanner_of insert ssi'.tag_state ssi'.tag_index ssi'.tag_name cs)
    ∙ ap (λ (s : Scanner). c ∷ expand insert s cs) plain

-- What is to come where no insert is being sent.
pub ssi_pending-scanning :
    (insert : Bytes → Bytes) (file_data : Bytes) (file : ℕ) (ssi : SsiState)
    → IsScanning ssi.tag_state
    → ssi_pending insert file_data file ssi
      ≡ slice file_data file ssi.parsed ++ expand insert (scanner ssi) (drop ssi.parsed file_data)
unfolding ssi_pending
ssi_pending-scanning insert file_data file ssi h = by_state ssi.tag_state h
  where
    by_state :
        (st : TagCheckState)
        → IsScanning st
        → pending_in st insert file_data file ssi
          ≡ slice file_data file ssi.parsed
            ++ expand insert (scanner ssi) (drop ssi.parsed file_data)
    by_state tag_none h = refl
    by_state tag_leadin h = refl
    by_state tag_found h = refl
    by_state tag_leadout h = refl
    by_state tag_sending h = absurd h
