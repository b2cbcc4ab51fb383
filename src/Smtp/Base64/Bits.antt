-- ===== src/Smtp/Base64/Bits.antt =====
-- One byte through the bit loop of `smtp_base64_encode`, at each of the three places that a byte
-- has in a group of three.
use Prim.Native.Nat.{bit_and, bit_or}
use scion_lwip_contrib.Base.{
  holds_under, holds_under-at, ℕ, ◌+◌, ◌*◌, ◌/◌, ◌%◌, ◌^◌, ◌<◌, [], ◌∷◌, ◌++◌, append-nil,
  append_assoc, Bytes, Bool, true, false, ◌&&◌, ◌==◌, if◌then◌else◌, ◌≡◌, refl, sym, ap, ◌∙◌, arith,
}
use scion_lwip_contrib.Smtp.Base64.{Encoder, table_at, bit_step, byte_step}

-- The encoder after one byte, where it was at bit `x` with `c` collected and had written nothing.
abbrev from : ℕ → ℕ → Encoder
from x c = record { x = x; current = c; target = [] }

same_bytes : Bytes → Bytes → Bool
same_bytes [] [] = true
same_bytes (x ∷ xs) (y ∷ ys) = x == y && same_bytes xs ys
same_bytes _ _ = false

same_bytes_sound : (xs ys : Bytes) → same_bytes xs ys ≡ true → xs ≡ ys
unfolding same_bytes
same_bytes_sound (x ∷ xs) (y ∷ ys) h = ground (arith, same_bytes_sound xs ys)
same_bytes_sound _ _ h = ground arith

same : Encoder → Encoder → Bool
same e f = e.x == f.x && (e.current == f.current && same_bytes e.target f.target)

same_sound : (e f : Encoder) → same e f ≡ true → e ≡ f
unfolding same
same_sound e f h = ground (arith, same_bytes_sound e.target f.target)

-- A byte that starts a group, in the middle of one, and at its end.
abbrev first : ℕ → Encoder
first b = record { x = 3; current = b % 4 * 16; target = table_at (b / 4) ∷ [] }

abbrev second : ℕ → ℕ → Encoder
second c b = record { x = 1; current = b % 16 * 4; target = table_at (c * 16 + b / 16) ∷ [] }

abbrev third : ℕ → ℕ → Encoder
third c b = record {
  x = 5;
  current = 0;
  target = table_at (c * 4 + b / 64) ∷ table_at (b % 64) ∷ [];
}

first_table : holds_under (λ b. same (byte_step b (from 5 0)) (first b)) 256 ≡ true
unfolding holds_under same same_bytes byte_step bit_step
first_table = refl

second_table :
    holds_under (λ c. holds_under (λ b. same (byte_step b (from 3 (c * 16))) (second c b)) 256) 4
    ≡ true
unfolding holds_under same same_bytes byte_step bit_step
second_table = refl

third_table :
    holds_under (λ c. holds_under (λ b. same (byte_step b (from 1 (c * 4))) (third c b)) 256) 16
    ≡ true
unfolding holds_under same same_bytes byte_step bit_step
third_table = refl

-- An encoder that had already written `t`.
abbrev onto : Bytes → Encoder → Encoder
onto t e = record { x = e.x; current = e.current; target = t ++ e.target }

bit_step-onto :
    (b j : ℕ) (t : Bytes) (e : Encoder) → bit_step b j (onto t e) ≡ onto t (bit_step b j e)
unfolding bit_step
bit_step-onto b j t e = ground (
  arith,
  append_assoc t e.target (
      table_at (bit_or e.current ((if bit_and b (2 ^ j) == 0 then 0 else 1) * 2 ^ e.x) % 256) ∷ []),
)

byte_step-onto : (b : ℕ) (t : Bytes) (e : Encoder) → byte_step b (onto t e) ≡ onto t (byte_step b e)
unfolding byte_step
byte_step-onto b t e = simp bit_step-onto

byte_step-first :
    (b : ℕ) (t : Bytes)
    → b < 256
    → byte_step b (record { x = 5; current = 0; target = t }) ≡ onto t (first b)
byte_step-first b t h =
    ap (byte_step b) (ap (λ u. record { x = 5; current = 0; target = u }) (sym (append-nil t)))
    ∙ byte_step-onto b t (from 5 0)
    ∙ ap (onto t) (same_sound _ _ (holds_under-at _ 256 b h first_table))

module _ (b : ℕ) (t : Bytes) (h : b < 256) where
  byte_step-second :
      (c : ℕ)
      → c < 4
      → byte_step b (record { x = 3; current = c * 16; target = t }) ≡ onto t (second c b)
  byte_step-second c k =
      ap (byte_step b)
        (ap (λ u. record { x = 3; current = c * 16; target = u }) (sym (append-nil t)))
      ∙ byte_step-onto b t (from 3 (c * 16))
      ∙ ap (onto t)
          (same_sound _ _ (holds_under-at _ 256 b h (holds_under-at _ 4 c k second_table)))

  byte_step-third :
      (c : ℕ)
      → c < 16
      → byte_step b (record { x = 1; current = c * 4; target = t }) ≡ onto t (third c b)
  byte_step-third c k =
      ap (byte_step b)
        (ap (λ u. record { x = 1; current = c * 4; target = u }) (sym (append-nil t)))
      ∙ byte_step-onto b t (from 1 (c * 4))
      ∙ ap (onto t)
          (same_sound _ _ (holds_under-at _ 256 b h (holds_under-at _ 16 c k third_table)))

-- The four characters of the group of `a`, `b` and `c`.
abbrev pub group : ℕ → ℕ → ℕ → Bytes
group a b c =
    table_at (a / 4)
    ∷ table_at (a % 4 * 16 + b / 16)
    ∷ table_at (b % 16 * 4 + c / 64)
    ∷ table_at (c % 64)
    ∷ []

-- Three bytes from a group's start lead to the next group's start and write its four characters.
pub byte_step-group :
    (a b c : ℕ) (t : Bytes)
    → a < 256
    → b < 256
    → c < 256
    → byte_step c (byte_step b (byte_step a (record { x = 5; current = 0; target = t })))
      ≡ record { x = 5; current = 0; target = t ++ group a b c }
byte_step-group a b c t ha hb hc = rw (byte_step-first a t ha) (
    rw (byte_step-second b _ hb (a % 4) (omega arith))
      (rw (byte_step-third c _ hc (b % 16) (omega arith)) (simp append_assoc)))
