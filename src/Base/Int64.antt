-- ===== src/Base/Int64.antt =====
-- Arithmetic on int64: the results wrap around, and a division by zero panics.
use Prim.Native.Nat.{ℕ, zero, suc, ◌+◌, ◌*◌, ◌/◌, ◌^◌, ◌<◌}
use mathlib.Core.Path.{◌≡◌, ap, ◌∙◌}
use mathlib.Core.List.{List, [], ◌∷◌, map}
use native.Mathlib.Omega.{arith}
use beamlit_controller.Base.Integers.{
  ℤ, pos, negsuc, pos_part, neg_part, sub_ℕ, ◌+ℤ◌, wrap64, wrap64-pos,
}
use beamlit_controller.Base.Actions.{Result, ok, panic}

unfoldable pub add64 : ℤ → ℤ → ℤ
add64 a b = wrap64 (a +ℤ b)

unfoldable pub mul64 : ℤ → ℤ → ℤ
mul64 a b = wrap64 (
    sub_ℕ (pos_part a * pos_part b + neg_part a * neg_part b)
      (pos_part a * neg_part b + neg_part a * pos_part b))

-- Division rounds towards zero.
abbrev quotient : ℤ → ℤ → ℤ
quotient (pos a) (pos b) = pos (a / b)
quotient (pos a) (negsuc b) = sub_ℕ 0 (a / suc b)
quotient (negsuc a) (pos b) = sub_ℕ 0 (suc a / b)
quotient (negsuc a) (negsuc b) = pos (suc a / suc b)

unfoldable pub div64 : ℤ → ℤ → Result ℤ
div64 a (pos zero) = panic
div64 a (pos (suc b)) = ok (wrap64 (quotient a (pos (suc b))))
div64 a (negsuc b) = ok (wrap64 (quotient a (negsuc b)))

-- A loop that adds up the values of a list.
unfoldable pub total64 : ℤ → List ℤ → ℤ
total64 acc [] = acc
total64 acc (x ∷ xs) = total64 (add64 acc x) xs

unfoldable pub sum : List ℕ → ℕ
sum [] = 0
sum (x ∷ xs) = x + sum xs

pub add64-pos : (a b : ℕ) → a + b < 2 ^ 63 → add64 (pos a) (pos b) ≡ pos (a + b)
unfolding add64 ◌+ℤ◌
add64-pos a b h = ground (arith, wrap64-pos (a + b) h)

-- Values that are not negative and whose sum is in range are added up exactly.
pub total64-pos :
    (a : ℕ) (xs : List ℕ) → a + sum xs < 2 ^ 63 → total64 (pos a) (map pos xs) ≡ pos (a + sum xs)
unfolding total64 sum
total64-pos a [] h = ground arith
total64-pos a (x ∷ xs) h =
    rw (total64, add64-pos a x (omega arith))
      (total64-pos (a + x) xs (omega arith) ∙ ap pos (omega arith))

pub div64-pos : (a b : ℕ) → a < 2 ^ 63 → div64 (pos a) (pos (suc b)) ≡ ok (pos (a / suc b))
unfolding div64
div64-pos a b h = rw (wrap64-pos (a / suc b) (grind arith))

pub total64-sum : (xs : List ℕ) → sum xs < 2 ^ 63 → total64 (pos 0) (map pos xs) ≡ pos (sum xs)
total64-sum xs h = total64-pos 0 xs (omega arith) ∙ ap pos (omega arith)
