-- ===== src/Readers.antt =====
-- Readers of packet buffers by search from left to right, which keep what lwIP documents.
use scion_lwip_contrib.Base.{
  ℕ, ◌+◌, ◌-◌, ◌≤◌, ◌<◌, ◌≢◌, Bool, true, false, [], ◌∷◌, Bytes, length, take, drop, get_or,
  length-take, length-drop, ◌==◌, Bool-cases, inl, inr, if◌then◌else◌, ◌≡◌, refl, ◌∙◌, arith, min,
}
use scion_lwip_contrib.Lwip.{PbufReaders, PbufLaws, not_found}

abbrev is_prefix : Bytes → Bytes → Bool
is_prefix [] p = true
is_prefix (m ∷ mem) [] = false
is_prefix (m ∷ mem) (x ∷ p) = let rest = is_prefix mem p in if m == x then rest else false

abbrev find_from : Bytes → Bytes → ℕ → ℕ
find_from [] mem i = not_found
find_from (x ∷ p) mem i =
    let later = find_from p mem (i + 1) in if is_prefix mem (x ∷ p) then i else later

abbrev pub readers : PbufReaders
readers = record {
  memfind = λ p mem start. find_from (drop start p) mem start;
  strstr = λ p word. find_from p word 0;
  get_at = λ p i. get_or p i 0;
  copy_partial = λ p n offset. take n (drop offset p);
}

is_prefix-length : (mem p : Bytes) → is_prefix mem p ≡ true → length mem ≤ length p
is_prefix-length [] p e = omega arith
is_prefix-length (m ∷ mem) [] e = cc
is_prefix-length (m ∷ mem) (x ∷ p) e = elim (Bool-cases (m == x)) [
  | inl same ↦ omega (arith, is_prefix-length mem p (rw same at e))
  | inr other ↦ cc (rw other at e)
]

find_from-within :
    (p mem : Bytes) (i : ℕ)
    → find_from p mem i ≢ not_found
    → (i ≤ find_from p mem i) × (find_from p mem i + length mem ≤ i + length p) × (0 < length p)
find_from-within [] mem i found = absurd (found refl)
find_from-within (x ∷ p) mem i found = elim (Bool-cases (is_prefix mem (x ∷ p))) [
  | inl here ↦ rw here (omega arith, omega (arith, is_prefix-length mem (x ∷ p) here), omega arith)
  | inr later ↦
      let (a, b, c) = find_from-within p mem (i + 1) (rw later at found) in
      rw later (omega (arith, a), omega (arith, b), omega arith)
]

pub readers-laws : PbufLaws readers
readers-laws = record {
  memfind_from = λ p mem start found.
      let (a, b, c) = find_from-within (drop start p) mem start found in
      (a, omega (arith, b, c, length-drop start p));
  length-copy_partial = λ p n offset. length-take n (drop offset p) ∙ by_drop n p offset;
}
  where
    by_drop :
        (n : ℕ) (p : Bytes) (offset : ℕ)
        → min n (length (drop offset p)) ≡ min n (length p - offset)
    by_drop n p offset = rw (length-drop offset p) refl
