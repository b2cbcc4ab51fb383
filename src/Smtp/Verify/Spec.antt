-- ===== src/Smtp/Verify/Spec.antt =====
-- Which texts `smtp_verify` accepts.
use Prim.Native.Nat.{bit_and}
use scion_lwip_contrib.Base.{
  ℕ, ◌<◌, ◌≢◌, ◌↔◌, ◌⊎◌, inl, inr, Bool, true, false, [], ◌∷◌, Bytes, AllLt, holds_under,
  holds_under-at, ltb, not, ◌==◌, ◌≡◌, refl, arith,
}
use scion_lwip_contrib.Lwip.{Err}
use scion_lwip_contrib.Smtp.Verify.{verify_loop, smtp_verify}

-- A byte that may stand in a line.
abbrev pub IsPlain : ℕ → Type 0
IsPlain c = (c < 128) × (c ≢ b'\r') × (c ≢ b'\n')

abbrev same : Bool → Bool → Bool
same true b = b
same false b = not b

same_sound : (a b : Bool) → same a b ≡ true → a ≡ b
same_sound a b h = ground arith

-- 7-bit text with no line break.
pub data IsOneLine : Bytes → Type 0 where
  end : IsOneLine []
  char : {c : ℕ} {cs : Bytes} → IsPlain c → IsOneLine cs → IsOneLine (c ∷ cs)

-- 7-bit text in which each LF follows a CR, and no CR follows a CR. The flag tells whether a CR
-- stands just before.
pub data IsLines : Bool → Bytes → Type 0 where
  end : {b : Bool} → IsLines b []
  char : {b : Bool} {c : ℕ} {cs : Bytes} → IsPlain c → IsLines false cs → IsLines b (c ∷ cs)
  cr :
      {b : Bool} {c : ℕ} {cs : Bytes} → b ≡ false → c ≡ b'\r' → IsLines true cs → IsLines b (c ∷ cs)
  lf :
      {b : Bool} {c : ℕ} {cs : Bytes} → b ≡ true → c ≡ b'\n' → IsLines false cs → IsLines b (c ∷ cs)

-- The sign bit of a byte.
sign_table : holds_under (λ c. same (bit_and c 0x80 == 0) (ltb c 128)) 256 ≡ true
unfolding holds_under
sign_table = refl

sign_bit : (c : ℕ) → c < 256 → (bit_and c 0x80 == 0) ≡ ltb c 128
sign_bit c h = same_sound _ _ (holds_under-at _ 256 c h sign_table)

one_line-head :
    (c : ℕ) (cs : Bytes)
    → c < 256
    → verify_loop false false (c ∷ cs) ≡ Err.ok
    → IsPlain c × (verify_loop false false cs ≡ Err.ok)
unfolding verify_loop
one_line-head c cs h e = ground (arith, sign_bit c)

one_line : (text : Bytes) → AllLt 256 text → verify_loop false false text ≡ Err.ok → IsOneLine text
one_line [] h e = IsOneLine.end
one_line (c ∷ cs) h e =
    let (plain, rest) = one_line-head c cs h.0 e in IsOneLine.char plain (one_line cs h.1 rest)

one_line_ok :
    {text : Bytes} → IsOneLine text → AllLt 256 text → verify_loop false false text ≡ Err.ok
unfolding verify_loop
one_line_ok IsOneLine.end b = refl
one_line_ok (IsOneLine.char {c} {cs} k h) b = ground (arith, sign_bit c, one_line_ok h b.1)

-- What the loop has checked of the first character.
lines-head :
    (last : Bool) (c : ℕ) (cs : Bytes)
    → c < 256
    → verify_loop true last (c ∷ cs) ≡ Err.ok
    → (IsPlain c × (verify_loop true false cs ≡ Err.ok))
      ⊎ ((last ≡ false) × (c ≡ b'\r') × (verify_loop true true cs ≡ Err.ok))
      ⊎ ((last ≡ true) × (c ≡ b'\n') × (verify_loop true false cs ≡ Err.ok))
unfolding verify_loop
lines-head last c cs h e = ground (arith, sign_bit c)

lines :
    (last : Bool) (text : Bytes)
    → AllLt 256 text
    → verify_loop true last text ≡ Err.ok
    → IsLines last text
lines last [] h e = IsLines.end
lines last (c ∷ cs) h e = elim (lines-head last c cs h.0 e) [
  | inl (plain, rest) ↦ IsLines.char plain (lines false cs h.1 rest)
  | inr (inl (l, k, rest)) ↦ IsLines.cr l k (lines true cs h.1 rest)
  | inr (inr (l, k, rest)) ↦ IsLines.lf l k (lines false cs h.1 rest)
]

lines_ok :
    {last : Bool} {text : Bytes}
    → IsLines last text
    → AllLt 256 text
    → verify_loop true last text ≡ Err.ok
unfolding verify_loop
lines_ok IsLines.end b = refl
lines_ok (IsLines.char {c} {cs} k h) b = ground (arith, sign_bit c, lines_ok h b.1)
lines_ok (IsLines.cr {c} l e h) b = ground (arith, sign_bit c, lines_ok h b.1)
lines_ok (IsLines.lf {c} l e h) b = ground (arith, sign_bit c, lines_ok h b.1)

-- `smtp_verify` accepts a text of bytes exactly if, with line breaks forbidden, it is 7-bit with no
-- CR and no LF; with line breaks allowed, it is 7-bit, each LF follows a CR, and no CR follows a CR.
pub smtp_verify_iff :
    (text : Bytes)
    → AllLt 256 text
    → ((smtp_verify text false ≡ Err.ok) ↔ IsOneLine text)
      × ((smtp_verify text true ≡ Err.ok) ↔ IsLines false text)
unfolding smtp_verify
smtp_verify_iff text h =
    ((one_line text h, λ k. one_line_ok k h), (lines false text h, λ k. lines_ok k h))
