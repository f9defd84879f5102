-- ===== src/Metric/Condition/History.antt =====
-- Runs of observations: which metrics are reached at the end, and for how long.
use beamlit_controller.Base.{
  All, Bool, true, false, not, List, [], ◌∷◌, ℤ, Result, ok, err, panic, ◌≡◌, refl, arith, ap, sym,
  ◌∙◌, if◌then◌else◌,
}
use beamlit_controller.Metric.Condition.{Condition, new_condition, is_empty, update}
use beamlit_controller.Metric.Condition.Settled.{IsConsistent, update_lem}
use beamlit_controller.Metric.Condition.Members.{update_keeps}
use beamlit_controller.Metric.Condition.Latest.{Observation, same, contains, IsDistinct}

-- The updates that a run of observations makes, the first one first.
unfoldable pub observe :
    {M : Type 0} → (M → M → Result Bool) → Condition M → List (Observation M) → Result (Condition M)
observe equal c [] = ok c
observe equal c (o ∷ os) = elim (update equal c o.metric o.reached o.time) [
  | ok d ↦ observe equal d os
  | err e ↦ err e
  | panic ↦ panic
]

-- What the latest observation of a metric says; `b` where there is none.
unfoldable pub latest :
    {M : Type 0} → (M → M → Result Bool) → M → Bool → List (Observation M) → Bool
latest equal m b [] = b
latest equal m b (o ∷ os) = latest equal m (if same equal o.metric m then o.reached else b) os

-- A run of observations that succeeds, by its first one.
pub observe-cons :
    {M : Type 0} (equal : M → M → Result Bool) (c d : Condition M) (o : Observation M)
    (os : List (Observation M))
    → observe equal c (o ∷ os) ≡ ok d
    → (c' : Condition M) × (update equal c o.metric o.reached o.time ≡ ok c')
      × (observe equal c' os ≡ ok d)
unfolding observe
observe-cons {M} equal c d o os e = by_update (update equal c o.metric o.reached o.time) refl e
  where
    by_update :
        (x : Result (Condition M))
        → update equal c o.metric o.reached o.time ≡ x
        → (elim x [ ok c' ↦ observe equal c' os | err e' ↦ err e' | panic ↦ panic ]) ≡ ok d
        → (c' : Condition M) × (update equal c o.metric o.reached o.time ≡ ok c')
          × (observe equal c' os ≡ ok d)
    by_update (ok c') p q = (c', p, q)
    by_update (err x) p q = cc
    by_update panic p q = cc

module _ {M : Type 0} (equal : M → M → Result Bool) where
  module _ (symmetric : (a b : M) → same equal a b ≡ same equal b a)
      (transitive : (a b c : M)
        → same equal a b ≡ true
        → same equal b c ≡ true
        → same equal a c ≡ true) where
    observe_lem :
        (os : List (Observation M)) (c d : Condition M)
        → IsConsistent equal c
        → observe equal c os ≡ ok d
        → IsConsistent equal d
          × ((n : M) → contains equal n d.current ≡ latest equal n (contains equal n c.current) os)
    unfolding observe latest
    observe_lem [] c d h e = let r : c ≡ d = cc e in rw (← r) (h, λ n. refl)
    observe_lem (o ∷ os) c d h e =
        let (c', p, q) = observe-cons equal c d o os e in
        let (k, s) = update_lem equal symmetric transitive c c' o.metric o.reached o.time h p in
        let (k', s') = observe_lem os c' d k q in
        (k', λ n. s' n ∙ ap (λ b. latest equal n b os) (s n))

    -- Metrics that are each equal to themselves are all among those that hold them.
    all_contained :
        (xs : List M) (says : M → Bool)
        → All (λ x. same equal x x ≡ true) xs
        → ((n : M) → contains equal n xs ≡ true → says n ≡ true)
        → All (λ x. says x ≡ true) xs
    all_contained [] says self h = tt
    all_contained (x ∷ xs) says self h = (
      h x (ground (arith, self.0)),
      all_contained xs says self.1 (λ n e. h n (ground (arith, e))),
    )

    observed_self :
        (os : List (Observation M)) (c d : Condition M)
        → All (λ o. same equal o.metric o.metric ≡ true) os
        → All (λ x. same equal x x ≡ true) c.current
        → observe equal c os ≡ ok d
        → All (λ x. same equal x x ≡ true) d.current
    unfolding observe
    observed_self [] c d self h e = let r : c ≡ d = cc e in rw (← r) h
    observed_self (o ∷ os) c d self h e =
        let (c', p, q) = observe-cons equal c d o os e in
        observed_self os c' d self.1
          (update_keeps equal (λ x. same equal x x ≡ true) c c' o.metric o.reached o.time self.0 h
            p)
          q

    -- After any observations from a new condition that succeed, each metric that the condition
    -- holds is one whose latest observation says that it is reached, an observed metric whose latest
    -- observation says so is held, no two of the metrics that it holds are equal, and it is reached
    -- exactly if it holds one. Metrics are equal where the comparison returns true. It supposes that
    -- this is symmetric and transitive, and that each observed metric is equal to itself.
    pub condition_tracks_latest :
        (window : ℤ) (os : List (Observation M)) (d : Condition M)
        → All (λ o. same equal o.metric o.metric ≡ true) os
        → observe equal (new_condition window) os ≡ ok d
        → All (λ x. latest equal x false os ≡ true) d.current
          × ((n : M) → contains equal n d.current ≡ latest equal n false os)
          × IsDistinct equal d.current
          × (d.reached ≡ not (is_empty d.current))
    unfolding new_condition
    condition_tracks_latest window os d self e =
        let start : IsConsistent equal (new_condition window) = record {
          distinct = tt;
          nonempty = refl;
        } in
        let (k, s) = observe_lem os (new_condition window) d start e in
        (
          all_contained d.current (λ n. latest equal n false os)
              (observed_self os (new_condition window) d self tt e) (λ n h. sym (s n) ∙ h),
          s,
          k.distinct,
          k.nonempty,
        )
