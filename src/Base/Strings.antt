-- ===== src/Base/Strings.antt =====
-- Go strings: sequences of bytes, and what the source uses of the package `strings`.
use Prim.Native.Nat.{ℕ}
use Prim.Native.Char.{code}
use Prim.Native.String.{String}
use mathlib.Core.Path.{◌≡◌, refl}
use mathlib.Core.Logic.{◌↔◌}
use mathlib.Core.Bool.{Bool, true, false, ◌&&◌}
use mathlib.Core.List.{List, [], ◌∷◌, ◌++◌}
use native.Mathlib.Omega.{arith}
use beamlit_controller.Base.Tests.{nat_eq, Eq, if◌then◌else◌}

abbrev pub Text : Type 0
Text = List ℕ

-- The bytes of an ASCII literal.
unfoldable pub bytes : String → Text
bytes String.[] = []
bytes (String.◌∷◌ c s) = code c ∷ bytes s

unfoldable pub text_eq : Text → Text → Bool
text_eq [] [] = true
text_eq [] (y ∷ ys) = false
text_eq (x ∷ xs) [] = false
text_eq (x ∷ xs) (y ∷ ys) = nat_eq x y && text_eq xs ys

pub text_eq_iff : (a b : Text) → (text_eq a b ≡ true) ↔ (a ≡ b)
unfolding text_eq
text_eq_iff [] [] = ground arith
text_eq_iff [] (y ∷ ys) = ground arith
text_eq_iff (x ∷ xs) [] = ground arith
text_eq_iff (x ∷ xs) (y ∷ ys) = ground (arith, text_eq_iff xs ys)

instance abbrev pub Text_Eq : Eq Text
Text_Eq = record { equals = text_eq; equals_iff = text_eq_iff }

-- strings.HasPrefix
unfoldable pub has_prefix : Text → Text → Bool
has_prefix s [] = true
has_prefix [] (p ∷ ps) = false
has_prefix (c ∷ s) (p ∷ ps) = nat_eq c p && has_prefix s ps

-- s[len(p):]
unfoldable pub text_drop : Text → Text → Text
text_drop [] s = s
text_drop (p ∷ ps) [] = []
text_drop (p ∷ ps) (c ∷ s) = text_drop ps s

-- strings.Split(s, sep)[0] for a separator of one byte
unfoldable pub split_first : ℕ → Text → Text
split_first sep [] = []
split_first sep (c ∷ s) = if nat_eq c sep then [] else c ∷ split_first sep s

pub has_prefix-append : (p s : Text) → has_prefix (p ++ s) p ≡ true
unfolding has_prefix
has_prefix-append [] [] = refl
has_prefix-append [] (c ∷ s) = refl
has_prefix-append (p ∷ ps) s = ground (arith, has_prefix-append ps s)

pub text_drop-append : (p s : Text) → text_drop p (p ++ s) ≡ s
unfolding text_drop
text_drop-append [] s = refl
text_drop-append (p ∷ ps) s = text_drop-append ps s

-- What a prefix test and a drop take apart, an append joins.
pub append-text_drop : (s p : Text) → has_prefix s p ≡ true → p ++ text_drop p s ≡ s
unfolding has_prefix text_drop
append-text_drop s [] h = refl
append-text_drop [] (p ∷ ps) h = ground arith
append-text_drop (c ∷ s) (p ∷ ps) h = ground (arith, append-text_drop s ps)
