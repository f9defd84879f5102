-- ===== src/Metric/Condition/Members.antt =====
-- What holds of the metrics that are observed holds of the reached ones.
use beamlit_controller.Base.{
  All, All-concat, Bool, true, false, Option, none, some, List, [], ◌∷◌, ◌++◌, ℤ, Result, ok, err,
  panic, ◌≡◌, refl, arith, Bool-cases, inl, inr,
}
use beamlit_controller.Metric.Condition.{Condition, scan, reset, settle, settled, update}
use beamlit_controller.Metric.Condition.Latest.{scan-true, on_element-cases}

module _ {M : Type 0} (equal : M → M → Result Bool) (P : M → Type 0) where
  abbrev pub AllOf : Option (List M) → Type 0
  AllOf none = Unit
  AllOf (some l) = All P l

  current-reset : (c : Condition M) → (reset equal c).current ≡ c.current
  unfolding reset
  current-reset c = ground arith

  pub settle_keeps :
      (c : Condition M) (m : M) (b : Bool) (t : ℤ) (o : Option (List M))
      → P m
      → All P c.current
      → AllOf o
      → All P (settle equal m b t c o).current
  unfolding settle
  settle_keeps c m true t none p ps a = elim (Bool-cases c.reached) [
    | inl q ↦ rw q (
        rw (current-reset (record c { current = c.current ++ m ∷ []; reached = true }))
          (All-concat P m c.current ps p))
    | inr q ↦ rw q (
        rw
          (current-reset
            (record c { current = c.current ++ m ∷ []; reached = true; since_time = t }))
          (All-concat P m c.current ps p))
  ]
  settle_keeps c m false t none p ps a = rw (current-reset c) ps
  settle_keeps c m b t (some l) p ps a = rw (current-reset (record c { current = l })) a

  scan_keeps :
      (m : M) (b : Bool) (xs : List M) (o : Option (List M))
      → All P xs
      → scan equal m b xs ≡ ok o
      → AllOf o
  unfolding scan
  scan_keeps m b xs none ps h = tt
  scan_keeps m true xs (some l) ps h = rw ((scan-true equal m xs h).0) ps
  scan_keeps m false [] (some l) ps h = cc
  scan_keeps m false (x ∷ xs) (some l) ps h =
      elim (on_element-cases equal (equal x m) x xs (scan equal m false xs) h) [
        | inl p ↦ rw (p.1) (ps.1)
        | inr p ↦ rw (p.3) (ps.0, scan_keeps m false xs (some (p.0)) ps.1 p.2)
      ]

  pub update_keeps :
      (c d : Condition M) (m : M) (b : Bool) (t : ℤ)
      → P m
      → All P c.current
      → update equal c m b t ≡ ok d
      → All P d.current
  unfolding update
  update_keeps c d m b t p ps e = by_scan (scan equal m b c.current) refl e
    where
      by_scan :
          (x : Result (Option (List M)))
          → scan equal m b c.current ≡ x
          → settled equal m b t c x ≡ ok d
          → All P d.current
      by_scan (ok o) s q =
          let r : settle equal m b t c o ≡ d = cc q in
          rw (← r) (settle_keeps c m b t o p ps (scan_keeps m b c.current o ps s))
      by_scan (err x) s q = cc
      by_scan panic s q = cc
