-- ===== src/Base/Strings.antt =====
-- C strings and searches in them.
use Prim.Native.Nat.{ℕ}
use mathlib.Core.Bool.{Bool, true, false, ◌&&◌}
use mathlib.Core.List.{[], ◌∷◌}
use mathlib.Core.Option.{Option, none, some}
use scion_lwip_contrib.Base.Tests.{◌==◌, if◌then◌else◌}
use scion_lwip_contrib.Base.Buffer.{Bytes}

-- The C string at the start of an array.
unfoldable pub c_string : Bytes → Bytes
c_string [] = []
c_string (c ∷ cs) = if c == 0 then [] else c ∷ c_string cs

unfoldable pub starts_with : Bytes → Bytes → Bool
starts_with [] text = true
starts_with (w ∷ word) [] = false
starts_with (w ∷ word) (c ∷ text) = w == c && starts_with word text

-- `strstr(text, word) != NULL`
unfoldable pub contains : Bytes → Bytes → Bool
unfolding starts_with
contains word [] = starts_with word []
contains word (c ∷ text) = if starts_with word (c ∷ text) then true else contains word text

-- `strcmp(a, b) == 0` on strings.
unfoldable pub same : Bytes → Bytes → Bool
same [] [] = true
same [] (d ∷ ds) = false
same (c ∷ cs) [] = false
same (c ∷ cs) (d ∷ ds) = c == d && same cs ds

-- `strchr(text, c)`: the text before the character, and the text behind it, `none` where there is none.
unfoldable pub break_at : ℕ → Bytes → Bytes × Option Bytes
break_at c [] = ([], none)
break_at c (x ∷ xs) =
    let rest = break_at c xs in if x == c then ([], some xs) else (x ∷ rest.0, rest.1)
