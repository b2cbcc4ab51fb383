-- ===== src/Smtp/Response.antt =====
-- apps/smtp/smtp.c: `smtp_is_response` and `smtp_is_response_finished`, over the data received so far.
pub mod Total
pub mod Codes
use scion_lwip_contrib.Base.{
  ℕ, zero, suc, ◌+◌, ◌-◌, ◌*◌, ◌%◌, Bool, true, false, not, ◌&&◌, ◌||◌, List, [], ◌∷◌, Option, none,
  some, Bytes, codes, length, ◌==◌, leb, ltb, if◌then◌else◌,
}
use scion_lwip_contrib.Lwip.{Err, PbufReaders, not_found, ◌>>=◌}
use scion_lwip_contrib.Smtp.Types.{u16}

-- A `long`: whether it is negative, and its absolute value.
pub record Long : Type 0 where
  pub negative : Bool
  pub magnitude : ℕ

-- `isspace` and `isdigit` of the C locale.
abbrev pub is_space : ℕ → Bool
is_space c = c == b' ' || (leb 9 c && leb c 13)

abbrev pub is_digit : ℕ → Bool
is_digit c = leb b'0' c && leb c b'9'

-- The leading decimal digits of a text, onto `acc`.
unfoldable pub digits : ℕ → Bytes → ℕ
digits acc [] = acc
digits acc (c ∷ cs) =
    let more = digits (acc * 10 + (c - b'0')) cs in if is_digit c then more else acc

-- `strtol(text, NULL, 10)`: white space, a sign, digits.
unfoldable pub strtol : Bytes → Long
unfolding digits
strtol [] = record { negative = false; magnitude = 0 }
strtol (c ∷ cs) =
    let rest = strtol cs in
    if is_space c
    then rest
    else if c == b'-'
    then record { negative = true; magnitude = digits 0 cs }
    else if c == b'+'
    then record { negative = false; magnitude = digits 0 cs }
    else record { negative = false; magnitude = digits 0 (c ∷ cs) }

module _ (pb : PbufReaders) where
  -- `smtp_is_response`: the response code at the start of the data, or 0.
  unfoldable pub smtp_is_response : Option Bytes → ℕ
  unfolding strtol
  smtp_is_response none = 0
  smtp_is_response (some p) =
      let copied = pb.copy_partial p 3 0 in
      let num = strtol copied in
      if not (length copied == 3)
      then 0
      else if num.negative || (num.magnitude == 0 || leb 1000 num.magnitude)
      then 0
      else num.magnitude

  -- The loop `again:` from `offset` on, `true` for `ERR_OK` and `false` for `ERR_VAL`. Each round
  -- takes one unit of the fuel; `none` is fuel run out.
  unfoldable pub finished_loop : ℕ → Bytes → ℕ → Option Bool
  finished_loop zero p offset = none
  finished_loop (suc fuel) p offset =
      let crlf = pb.memfind p (codes "\r\n") (u16 (offset + 4)) in
      let sp = pb.get_at p (u16 (offset + 3)) in
      let again = finished_loop fuel p (u16 (crlf + 2)) in
      if crlf == not_found
      then some false
      else if sp == b'-'
      then again
      else if sp == b' '
      then some true
      else some false

  -- `smtp_is_response_finished`. A round moves on by six bytes at least, so one unit of fuel for each
  -- byte, and one more, is enough (`Total`).
  unfoldable pub smtp_is_response_finished : Option Bytes → Option Bool
  unfolding finished_loop
  smtp_is_response_finished none = some false
  smtp_is_response_finished (some p) = finished_loop (length p + 1) p 0
