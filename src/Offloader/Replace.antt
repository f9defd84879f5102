-- ===== src/Offloader/Replace.antt =====
-- What the offloader uses of the packages strings and fmt.
use beamlit_controller.Base.{
  ◌-◌, ◌*◌, ◌<◌, ◌≤◌, ◌≡◌, refl, arith, Bool-cases, inl, inr, ℕ, zero, suc, ◌+◌, ◌/◌, ◌%◌, [], ◌∷◌,
  ◌++◌, Text, bytes, has_prefix, ltb, ℤ, pos, negsuc, if◌then◌else◌,
}

abbrev tail_length : Text → ℕ
tail_length [] = 0
tail_length (c ∷ []) = 0
tail_length (c ∷ d ∷ s) = suc (tail_length (d ∷ s))

-- The bytes of an occurrence that are still to be passed over come first.
unfoldable replace_from : ℕ → Text → Text → Text → Text
replace_from n [] old new = []
replace_from (suc n) (c ∷ s) old new = replace_from n s old new
replace_from zero (c ∷ s) old new =
    let found = replace_from (tail_length old) s old new in
    let other = replace_from zero s old new in
    if has_prefix (c ∷ s) old then new ++ found else c ∷ other

-- strings.ReplaceAll, for a text that is not empty
unfoldable pub replace_all : Text → Text → Text → Text
unfolding replace_from
replace_all s old new = replace_from zero s old new

-- The decimal digits of a number that is at most the fuel.
unfoldable digits : ℕ → ℕ → Text
digits zero n = []
digits (suc fuel) n =
    let rest = digits fuel (n / 10) in
    if ltb n 10 then (48 + n) ∷ [] else rest ++ (48 + n % 10) ∷ []

-- %d
unfoldable pub print_int : ℤ → Text
unfolding digits
print_int (pos n) = digits (suc n) n
print_int (negsuc n) = bytes "-" ++ digits (suc (suc n)) (suc n)

-- The number that a text of digits stands for, behind the number `acc`.
abbrev pub value_from : ℕ → Text → ℕ
value_from acc [] = acc
value_from acc (c ∷ s) = value_from (acc * 10 + (c - 48)) s

value_from-append :
    (acc : ℕ) (s t : Text) → value_from acc (s ++ t) ≡ value_from (value_from acc s) t
value_from-append acc [] t = refl
value_from-append acc (c ∷ s) t = value_from-append (acc * 10 + (c - 48)) s t

value_from-digits : (fuel n : ℕ) → n < fuel → value_from 0 (digits fuel n) ≡ n
unfolding digits
value_from-digits zero n h = omega arith
value_from-digits (suc fuel) n h = elim (Bool-cases (ltb n 10)) [
  | inl p ↦ rw p (omega arith)
  | inr p ↦
      let large : 10 ≤ n = ground (arith, p) in
      let rest = value_from-digits fuel (n / 10) (omega arith) in
      rw p (
        rw (value_from-append 0 (digits fuel (n / 10)) ((48 + n % 10) ∷ []))
          (rw rest (omega arith)))
]

-- A number that is not negative is printed in digits that stand for it: the fuel is enough.
pub print_int_value : (n : ℕ) → value_from 0 (print_int (pos n)) ≡ n
unfolding print_int
print_int_value n = value_from-digits (suc n) n (omega arith)
