-- ===== src/Metric/Condition/Latest.antt =====
-- The condition against the history of observations: a metric counts as reached exactly if its
-- latest observation says so.
use beamlit_controller.Base.{
  Bool, true, false, Option, none, some, List, [], ◌∷◌, ℤ, Result, ok, err, panic, ◌≡◌, ◌||◌, ◌⊎◌,
  refl, arith, inl, inr, if◌then◌else◌,
}
use beamlit_controller.Metric.Condition.{on_element, scan}

-- One observation: a metric, whether it is reached, and when it was measured.
pub record Observation (M : Type 0) : Type 0 where
  pub metric : M
  pub reached : Bool
  pub time : ℤ

abbrev pub is_true : Result Bool → Bool
is_true (ok b) = b
is_true _ = false

module _ {M : Type 0} (equal : M → M → Result Bool) where
  abbrev pub same : M → M → Bool
  same a b = is_true (equal a b)

  abbrev pub contains : M → List M → Bool
  contains m [] = false
  contains m (x ∷ xs) = same x m || contains m xs

  -- No two elements are equal.
  abbrev pub IsDistinct : List M → Type 0
  IsDistinct [] = Unit
  IsDistinct (x ∷ xs) = (contains x xs ≡ false) × IsDistinct xs

  pub scan-true :
      (m : M) (xs : List M) {l : List M}
      → scan equal m true xs ≡ ok (some l)
      → (l ≡ xs) × (contains m xs ≡ true)
  unfolding scan
  scan-true m [] h = ground arith
  scan-true m (x ∷ xs) h = grind (arith, scan-true m xs)

  pub scan-none :
      (m : M) (b : Bool) (xs : List M) → scan equal m b xs ≡ ok none → contains m xs ≡ false
  unfolding scan
  scan-none m b [] h = refl
  scan-none m b (x ∷ xs) h = ground (arith, scan-none m b xs)

  -- How the loop comes to a result at the element `x`.
  pub on_element-cases :
      (e : Result Bool) (x : M) (xs : List M) (rest : Result (Option (List M))) {l : List M}
      → on_element equal e false x xs rest ≡ ok (some l)
      → ((e ≡ ok true) × (l ≡ xs))
        ⊎ ((k : List M) × (e ≡ ok false) × (rest ≡ ok (some k)) × (l ≡ x ∷ k))
  on_element-cases (ok true) x xs rest h = inl (refl, ground arith)
  on_element-cases (ok false) x xs (ok (some k)) h = inr (k, refl, refl, ground arith)
  on_element-cases (ok false) x xs (ok none) h = cc
  on_element-cases (ok false) x xs (err e) h = cc
  on_element-cases (ok false) x xs panic h = cc
  on_element-cases (err e) x xs rest h = cc
  on_element-cases panic x xs rest h = cc

  module _ (symmetric : (a b : M) → same a b ≡ same b a)
      (transitive : (a b c : M) → same a b ≡ true → same b c ≡ true → same a c ≡ true) where
    -- Equal metrics are contained alike.
    pub contains-same : (a b : M) (xs : List M) → same a b ≡ true → contains a xs ≡ contains b xs
    contains-same a b [] h = refl
    contains-same a b (x ∷ xs) h =
        ground (arith, contains-same a b xs h, transitive x a b, transitive x b a, symmetric a b)

    -- Taking the metric out leaves the others.
    pub scan-false :
        (m : M) (xs : List M) {l : List M}
        → IsDistinct xs
        → scan equal m false xs ≡ ok (some l)
        → (n : M) → contains n l ≡ (if same m n then false else contains n xs)
    unfolding scan
    scan-false m [] d h n = ground arith
    scan-false m (x ∷ xs) d h n =
        elim (on_element-cases (equal x m) x xs (scan equal m false xs) h) [
          | inl p ↦ ground (
            arith,
            p.0,
            p.1,
            contains-same x n xs,
            transitive x m n,
            transitive m x n,
            symmetric x m,
          )
          | inr p ↦
              ground (arith, p.1, p.3, scan-false m xs d.1 p.2 n, transitive x n m, symmetric m n)
        ]

    pub scan-false-IsDistinct :
        (m : M) (xs : List M) {l : List M}
        → IsDistinct xs
        → scan equal m false xs ≡ ok (some l)
        → IsDistinct l
    unfolding scan
    scan-false-IsDistinct m [] d h = ground arith
    scan-false-IsDistinct m (x ∷ xs) {l} d h =
        elim (on_element-cases (equal x m) x xs (scan equal m false xs) h) [
          | inl p ↦ rw p.1 d.1
          | inr p ↦
              rw p.3
                (ground (arith, d.0, scan-false m xs d.1 p.2 x), scan-false-IsDistinct m xs d.1 p.2)
        ]
