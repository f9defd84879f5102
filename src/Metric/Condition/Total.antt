-- ===== src/Metric/Condition/Total.antt =====
-- The updates succeed where the comparison of metrics does.
use beamlit_controller.Base.{
  All, Bool, true, false, Option, none, some, List, [], ◌∷◌, ℤ, Result, ok, ◌≡◌, refl,
}
use beamlit_controller.Metric.Condition.{Condition, on_element, scan, settle, update}
use beamlit_controller.Metric.Condition.Latest.{Observation}
use beamlit_controller.Metric.Condition.Members.{AllOf, settle_keeps}
use beamlit_controller.Metric.Condition.History.{observe}

module _ {M : Type 0} (equal : M → M → Result Bool) (P : M → Type 0)
    (compares : (a b : M) → P a → P b → (e : Bool) × (equal a b ≡ ok e)) where
  element_total :
      (e b : Bool) (x : M) (xs : List M) (rest : Option (List M))
      → P x
      → All P xs
      → AllOf equal P rest
      → (o : Option (List M)) × (on_element equal (ok e) b x xs (ok rest) ≡ ok o) × AllOf equal P o
  element_total true true x xs rest p ps r = (some (x ∷ xs), refl, (p, ps))
  element_total true false x xs rest p ps r = (some xs, refl, ps)
  element_total false b x xs none p ps r = (none, refl, tt)
  element_total false b x xs (some l) p ps r = (some (x ∷ l), refl, (p, r))

  scan_total :
      (m : M) (b : Bool) (xs : List M)
      → P m
      → All P xs
      → (o : Option (List M)) × (scan equal m b xs ≡ ok o) × AllOf equal P o
  unfolding scan
  scan_total m b [] p ps = (none, refl, tt)
  scan_total m b (x ∷ xs) p ps =
      let (e, q) = compares x m ps.0 p in
      let (rest, r, a) = scan_total m b xs p ps.1 in
      rw (q, r) (element_total e b x xs rest ps.0 ps.1 a)

  update_total :
      (c : Condition M) (m : M) (b : Bool) (t : ℤ)
      → P m
      → All P c.current
      → (d : Condition M) × (update equal c m b t ≡ ok d) × All P d.current
  unfolding update
  update_total c m b t p ps =
      let (o, q, a) = scan_total m b c.current p ps in
      (settle equal m b t c o, rw q, settle_keeps equal P c m b t o p ps a)

  pub observe_total :
      (os : List (Observation M)) (c : Condition M)
      → All (λ o. P o.metric) os
      → All P c.current
      → (d : Condition M) × (observe equal c os ≡ ok d)
  unfolding observe
  observe_total [] c h ps = (c, refl)
  observe_total (o ∷ os) c h ps =
      let (d, q, ps') = update_total c o.metric o.reached o.time h.0 ps in
      let (e, r) = observe_total os d h.1 ps' in (e, rw (q, observe) r)
