-- ===== src/Smtp/Verify.antt =====
-- apps/smtp/smtp.c: `smtp_verify`.
pub mod Spec
use Prim.Native.Nat.{bit_and}
use scion_lwip_contrib.Base.{ℕ, Bool, true, false, not, [], ◌∷◌, Bytes, ◌==◌, if◌then◌else◌}
use scion_lwip_contrib.Lwip.{Err}

-- The loop over the characters left; `last` is `last_was_cr`.
unfoldable pub verify_loop : Bool → Bool → Bytes → Err
verify_loop allowed last [] = Err.ok
verify_loop allowed last (current ∷ rest) =
    let after_cr = verify_loop allowed true rest in
    let after_other = verify_loop allowed false rest in
    if not (bit_and current 0x80 == 0)
    then Err.arg
    else if current == b'\r'
    then if not allowed then Err.arg else if last then Err.arg else after_cr
    else if current == b'\n'
    then if not last then Err.arg else after_other
    else after_other

-- `linebreaks_allowed` comes last in the source.
unfoldable pub smtp_verify : Bytes → Bool → Err
unfolding verify_loop
smtp_verify text linebreaks_allowed = verify_loop linebreaks_allowed false text
