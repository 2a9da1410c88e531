-- ===== src/Common/Strings.antt =====
-- Go strings as lists of code points. A string of the program is valid UTF-8, so that its order by
-- bytes is the order by code points; `byte_len` is Go's `len`.
use Prim.Native.Char.{code}
use Prim.Native.Nat.{ℕ, ◌+◌}
use Prim.Native.String.{String}
use mathlib.Core.Bool.{Bool, true, false, ◌&&◌, ◌||◌}
use mathlib.Core.List.{List, [], ◌∷◌}
use mathlib.Core.Logic.{◌↔◌}
use mathlib.Core.Path.{◌≡◌, refl}
use native.Mathlib.Omega.{arith}
use lanrunner.Common.Tests.{◌==◌, ltb, if◌then◌else◌}

abbrev pub Text : Type 0
Text = List ℕ

abbrev pub codes : String → Text
codes String.[] = []
codes (String.◌∷◌ c s) = code c ∷ codes s

abbrev pub rune_len : ℕ → ℕ
rune_len c = if ltb c 0x80 then 1 else if ltb c 0x800 then 2 else if ltb c 0x10000 then 3 else 4

abbrev pub byte_len : Text → ℕ
byte_len [] = 0
byte_len (c ∷ s) = rune_len c + byte_len s

-- `a == b` on strings.
unfoldable pub same : Text → Text → Bool
same [] [] = true
same [] (d ∷ t) = false
same (c ∷ s) [] = false
same (c ∷ s) (d ∷ t) = c == d && same s t

pub same_iff : (s t : Text) → (same s t ≡ true) ↔ (s ≡ t)
unfolding same
same_iff [] [] = ground arith
same_iff [] (d ∷ t) = ground arith
same_iff (c ∷ s) [] = ground arith
same_iff (c ∷ s) (d ∷ t) = ground (arith, same_iff s t)

pub same_refl : (s : Text) → same s s ≡ true
same_refl s = (same_iff s s).1 refl

-- `a < b` on strings.
unfoldable pub text_lt : Text → Text → Bool
text_lt [] [] = false
text_lt [] (d ∷ t) = true
text_lt (c ∷ s) [] = false
text_lt (c ∷ s) (d ∷ t) = ltb c d || (c == d && text_lt s t)

-- Of two strings one is smaller, unless they are equal.
pub text_lt_flip : (s t : Text) → (text_lt s t ≡ true) → text_lt t s ≡ false
unfolding text_lt
text_lt_flip [] [] h = refl
text_lt_flip [] (d ∷ t) h = refl
text_lt_flip (c ∷ s) [] h = ground arith
text_lt_flip (c ∷ s) (d ∷ t) h = ground (arith, text_lt_flip s t)

pub text_lt_tie : (s t : Text) → text_lt s t ≡ false → text_lt t s ≡ false → s ≡ t
unfolding text_lt
text_lt_tie [] [] h k = refl
text_lt_tie [] (d ∷ t) h k = ground arith
text_lt_tie (c ∷ s) [] h k = ground arith
text_lt_tie (c ∷ s) (d ∷ t) h k = ground (arith, text_lt_tie s t)
