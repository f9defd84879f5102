-- ===== src/Metric/Condition/Window.antt =====
-- How long the condition has been reached when a watcher reports it.
use beamlit_controller.Base.{
  Bool, true, false, Option, none, some, List, [], ◌∷◌, ℤ, ◌≤ℤ◌, ◌-ℤ◌, ltb_ℤ, Result, ok, err,
  panic, ◌≡◌, refl, arith, ◌∙◌, sub_le_swap, Bool-cases, ◌⊎◌, inl, inr, if◌then◌else◌,
}
use beamlit_controller.Metric.Condition.{
  Condition, scan, reset, settle, settled, update, is_reached,
}
use beamlit_controller.Metric.Condition.Latest.{Observation}
use beamlit_controller.Metric.Condition.History.{observe, observe-cons}

-- No observation is from before `start`.
abbrev pub IsSince : {M : Type 0} → ℤ → List (Observation M) → Type 0
IsSince start [] = Unit
IsSince start (o ∷ os) = (start ≤ℤ o.time) × IsSince start os

module _ {M : Type 0} (equal : M → M → Result Bool) where
  -- An update that brings the condition about notes its time; any other keeps the noted time.
  since-settle :
      (c : Condition M) (m : M) (b : Bool) (t : ℤ) (o : Option (List M))
      → (settle equal m b t c o).reached ≡ true
      → ((settle equal m b t c o).window ≡ c.window)
        × (((c.reached ≡ true) × ((settle equal m b t c o).since_time ≡ c.since_time))
            ⊎ ((c.reached ≡ false) × ((settle equal m b t c o).since_time ≡ t)))
  unfolding settle reset
  since-settle c m true t none h = ground arith
  since-settle c m false t none h = ground arith
  since-settle c m b t (some l) h = ground arith

  window-settle :
      (c : Condition M) (m : M) (b : Bool) (t : ℤ) (o : Option (List M))
      → (settle equal m b t c o).window ≡ c.window
  unfolding settle reset
  window-settle c m true t none = ground arith
  window-settle c m false t none = ground arith
  window-settle c m b t (some l) = ground arith

  update-settle :
      (c d : Condition M) (m : M) (b : Bool) (t : ℤ)
      → update equal c m b t ≡ ok d
      → (o : Option (List M)) × (d ≡ settle equal m b t c o)
  unfolding update
  update-settle c d m b t e = by_scan (scan equal m b c.current) e
    where
      by_scan :
          (x : Result (Option (List M)))
          → settled equal m b t c x ≡ ok d
          → (o : Option (List M)) × (d ≡ settle equal m b t c o)
      by_scan (ok o) q = (o, cc q)
      by_scan (err x) q = cc
      by_scan panic q = cc

  -- `since` is not before `start`, if the condition is reached.
  abbrev Begins : ℤ → Condition M → Type 0
  Begins start c = c.reached ≡ true → start ≤ℤ c.since_time

  Begins-observe :
      (start : ℤ) (os : List (Observation M)) (c d : Condition M)
      → IsSince start os
      → Begins start c
      → observe equal c os ≡ ok d
      → (d.window ≡ c.window) × Begins start d
  unfolding observe
  Begins-observe start [] c d h g e = let r : c ≡ d = cc e in rw (← r) (refl, g)
  Begins-observe start (o ∷ os) c d h g e =
      let (c', p, q) = observe-cons equal c d o os e in
      let (x, r) = update-settle c c' o.metric o.reached o.time p in
      let next : Begins start c' =
        rw r (λ k. ground (arith, since-settle c o.metric o.reached o.time x k, g)) in
      let same_window : c'.window ≡ c.window = rw r (window-settle c o.metric o.reached o.time x) in
      let (w, s) = Begins-observe start os c' d h.1 next q in (w ∙ same_window, s)

  too_short :
      (w since now : ℤ) (reached : Bool)
      → (reached ≡ true → now -ℤ w ≤ℤ since)
      → (if reached then ltb_ℤ w (now -ℤ since) else false) ≡ false
  too_short w since now true h = sub_le_swap now w since (h refl)
  too_short w since now false h = refl

  -- The condition is reported as reached only if it has been reached for longer than the window:
  -- if it is reported at `now`, and every observation since a state `c` was made within the window
  -- before `now`, then it was reached already in the state `c`.
  pub reported_is_sustained :
      (os : List (Observation M)) (c d : Condition M) (now : ℤ)
      → observe equal c os ≡ ok d
      → IsSince (now -ℤ c.window) os
      → is_reached d now ≡ true
      → c.reached ≡ true
  unfolding is_reached
  reported_is_sustained os c d now e h r = elim (Bool-cases c.reached) [
    | inl p ↦ p
    | inr p ↦
        let (w, s) = Begins-observe (now -ℤ c.window) os c d h (λ q. cc) e in
        let short = too_short c.window d.since_time now d.reached s in cc (w, r, short)
  ]
