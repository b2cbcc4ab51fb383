-- ===== src/Base/Buffer.antt =====
-- Bytes, text literals, and a checked `memcpy` into a fixed buffer.
use Prim.Native.Nat.{ℕ, zero, suc, ◌+◌, ◌≤◌, ◌<◌}
use Prim.Native.Char.{code}
use Prim.Native.String.{String}
use mathlib.Core.Path.{◌≡◌, refl, ap, ◌∙◌}
use mathlib.Core.List.{List, [], ◌∷◌, ◌++◌}
use mathlib.Core.Bool.{Bool, true, false}
use mathlib.Core.Logic.{inl, inr}
use mathlib.Core.Option.{Option, none, some}
use native.Mathlib.Omega.{arith}
use scion_lwip_contrib.Base.Tests.{leb, ltb, ltb→lt, Bool-cases, if◌then◌else◌, le→leb}
use scion_lwip_contrib.Base.Lists.{length, take, drop}

-- `char` and `u8_t` values are numbers below 256.
abbrev pub Bytes : Type 0
Bytes = List ℕ

-- The bytes of an ASCII literal.
abbrev pub codes : String → Bytes
codes String.[] = []
codes (String.◌∷◌ c s) = code c ∷ codes s

-- The list `xs` with `ys` written over it from index `i` on; what would go past the end is lost.
unfoldable pub overwrite : ℕ → Bytes → Bytes → Bytes
overwrite i ys [] = []
overwrite (suc i) ys (x ∷ xs) = x ∷ overwrite i ys xs
overwrite zero [] (x ∷ xs) = x ∷ xs
overwrite zero (y ∷ ys) (x ∷ xs) = y ∷ overwrite zero ys xs

-- `memcpy(&buf[i], ys, n)`: `none` is a write outside the buffer.
unfoldable pub copy_to : Bytes → ℕ → Bytes → Option Bytes
copy_to buf i ys = if leb (i + length ys) (length buf) then some (overwrite i ys buf) else none

pub length-overwrite : (i : ℕ) (ys xs : Bytes) → length (overwrite i ys xs) ≡ length xs
unfolding overwrite
length-overwrite zero ys [] = refl
length-overwrite (suc i) ys [] = refl
length-overwrite (suc i) ys (x ∷ xs) = ap suc (length-overwrite i ys xs)
length-overwrite zero [] (x ∷ xs) = refl
length-overwrite zero (y ∷ ys) (x ∷ xs) = ap suc (length-overwrite zero ys xs)

-- A text put over the beginning of a longer buffer.
pub overwrite_start :
    (ys xs : Bytes) → length ys ≤ length xs → overwrite 0 ys xs ≡ ys ++ drop (length ys) xs
unfolding overwrite
overwrite_start [] [] h = refl
overwrite_start [] (x ∷ xs) h = refl
overwrite_start (y ∷ ys) [] h = absurd (omega arith)
overwrite_start (y ∷ ys) (x ∷ xs) h = ap (◌∷◌ y) (overwrite_start ys xs (omega arith))

-- What stands before the copied bytes, and the copied bytes themselves.
pub take-overwrite :
    (i n : ℕ) (ys xs : Bytes)
    → n ≡ i + length ys
    → n ≤ length xs
    → take n (overwrite i ys xs) ≡ take i xs ++ ys
unfolding overwrite
take-overwrite zero zero [] xs e h = refl
take-overwrite zero zero (y ∷ ys) xs e h = absurd (omega arith)
take-overwrite zero (suc n) ys [] e h = absurd (omega arith)
take-overwrite zero (suc n) [] (x ∷ xs) e h = absurd (omega arith)
take-overwrite zero (suc n) (y ∷ ys) (x ∷ xs) e h =
    ap (◌∷◌ y) (take-overwrite zero n ys xs (omega arith) (omega arith))
take-overwrite (suc i) zero ys xs e h = absurd (omega arith)
take-overwrite (suc i) (suc n) ys [] e h = absurd (omega arith)
take-overwrite (suc i) (suc n) ys (x ∷ xs) e h =
    ap (◌∷◌ x) (take-overwrite i n ys xs (omega arith) (omega arith))

-- A copy that fits extends a known beginning of the buffer by the copied bytes.
pub copy_to_fits :
    (buf : Bytes) (i : ℕ) (ys done : Bytes)
    → take i buf ≡ done
    → i + length ys ≤ length buf
    → (buf' : Bytes) × (copy_to buf i ys ≡ some buf')
      × (take (i + length ys) buf' ≡ done ++ ys)
      × (length buf' ≡ length buf)
unfolding copy_to
copy_to_fits buf i ys done e h = (
  overwrite i ys buf,
  rw (le→leb _ _ h),
  take-overwrite i (i + length ys) ys buf refl h ∙ ap (λ t. t ++ ys) e,
  length-overwrite i ys buf,
)

-- A copy that does not fit faults.
pub copy_to-eq-none :
    (buf : Bytes) (i : ℕ) (ys : Bytes) → length buf < i + length ys → copy_to buf i ys ≡ none
unfolding copy_to
copy_to-eq-none buf i ys h = ground arith

-- A copy keeps the size of the buffer.
pub length-copy_to :
    (buf : Bytes) (i : ℕ) (ys : Bytes) {buf' : Bytes}
    → copy_to buf i ys ≡ some buf'
    → length buf' ≡ length buf
unfolding copy_to
length-copy_to buf i ys h = ground (arith, length-overwrite i ys buf)

-- A copy that succeeds was within the buffer.
pub copy_to_within :
    (buf : Bytes) (i : ℕ) (ys : Bytes) {buf' : Bytes}
    → copy_to buf i ys ≡ some buf'
    → i + length ys ≤ length buf
unfolding copy_to
copy_to_within buf i ys h = ground arith

-- Every element is below `n`; at 256, these are bytes.
abbrev pub AllLt : ℕ → Bytes → Type 0
AllLt n [] = Unit
AllLt n (x ∷ xs) = (x < n) × AllLt n xs

-- The test of it, to be computed.
abbrev pub all_lt : ℕ → Bytes → Bool
all_lt n [] = true
all_lt n (x ∷ xs) = let rest = all_lt n xs in if ltb x n then rest else false

pub all_lt-AllLt : (n : ℕ) (xs : Bytes) → all_lt n xs ≡ true → AllLt n xs
all_lt-AllLt n [] e = tt
all_lt-AllLt n (x ∷ xs) e = elim (Bool-cases (ltb x n)) [
  | inl yes_lt ↦ (ltb→lt x n yes_lt, all_lt-AllLt n xs (rw yes_lt at e))
  | inr no_lt ↦ cc (rw no_lt at e)
]
