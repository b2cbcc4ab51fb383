-- ===== src/Smtp/Response/Codes.antt =====
-- The codes that `smtp_is_response` returns.
use scion_lwip_contrib.Base.{
  ℕ, ◌+◌, ◌-◌, ◌*◌, ◌≤◌, ◌<◌, [], ◌∷◌, false, Option, none, some, Bytes, ◌≡◌, refl, arith,
}
use scion_lwip_contrib.Lwip.{PbufReaders}
use scion_lwip_contrib.Smtp.Response.{smtp_is_response, digits, strtol}

abbrev IsDigit : ℕ → Type 0
IsDigit c = (b'0' ≤ c) × (c ≤ b'9')

digits-digit :
    (acc c : ℕ) (cs : Bytes) → IsDigit c → digits acc (c ∷ cs) ≡ digits (acc * 10 + (c - b'0')) cs
unfolding digits
digits-digit acc c cs h = ground arith

digits-nil : (acc : ℕ) → digits acc [] ≡ acc
unfolding digits
digits-nil acc = refl

strtol-digit :
    (c : ℕ) (cs : Bytes)
    → IsDigit c
    → strtol (c ∷ cs) ≡ record { negative = false; magnitude = digits 0 (c ∷ cs) }
unfolding strtol
strtol-digit c cs h = ground arith

module _ (pb : PbufReaders) where
  -- A response code is 0 or lies between 1 and 999.
  pub smtp_is_response-lt : (p : Option Bytes) → smtp_is_response pb p < 1000
  unfolding smtp_is_response
  smtp_is_response-lt none = omega arith
  smtp_is_response-lt (some p) = ground arith

  -- Data that starts with three digits has their number as its code.
  pub smtp_is_response_digits :
      (p : Bytes) (a b c : ℕ)
      → IsDigit a
      → IsDigit b
      → IsDigit c
      → pb.copy_partial p 3 0 ≡ a ∷ b ∷ c ∷ []
      → smtp_is_response pb (some p) ≡ (a - b'0') * 100 + (b - b'0') * 10 + (c - b'0')
  unfolding smtp_is_response
  smtp_is_response_digits p a b c ha hb hc e = rw e (
      rw (strtol-digit a (b ∷ c ∷ []) ha) (
        rw (digits-digit 0 a _ ha)
          (rw (digits-digit _ b _ hb) (rw (digits-digit _ c _ hc) (rw digits-nil (ground arith))))))
