-- ===== src/Metric/Condition.antt =====
-- metricConditionStatus of internal/informers/metric/kubernetes_informer.go: which metrics of a
-- model are reached at present, and since when there is one. `equal` stands for IsMetricSpecEqual.
pub mod Latest
pub mod Members
pub mod Settled
pub mod History
pub mod Window
pub mod Total
use beamlit_controller.Base.{
  Bool, true, false, not, Option, none, some, List, [], ◌∷◌, ◌++◌, ℤ, pos, ◌-ℤ◌, ltb_ℤ, Result, ok,
  err, panic, if◌then◌else◌,
}

-- Instants and durations are nanoseconds, instants from the zero value of time.Time.
pub record Condition (M : Type 0) : Type 0 where
  pub current : List M
  pub reached : Bool
  pub window : ℤ
  pub since_time : ℤ

-- The condition that a watcher starts with.
unfoldable pub new_condition : {M : Type 0} → ℤ → Condition M
new_condition window = record { current = []; reached = false; window = window; since_time = pos 0 }

abbrev pub is_empty : {A : Type 0} → List A → Bool
is_empty [] = true
is_empty (x ∷ xs) = false

module _ {M : Type 0} (equal : M → M → Result Bool) where
  -- What the loop makes of the comparison of one element with the current metric; `rest` is what
  -- it makes of the elements behind. Nothing is returned where no element is equal.
  abbrev pub on_element :
      Result Bool → Bool → M → List M → Result (Option (List M)) → Result (Option (List M))
  on_element (ok true) reached x xs rest = ok (some (if reached then x ∷ xs else xs))
  on_element (ok false) reached x xs (ok none) = ok none
  on_element (ok false) reached x xs (ok (some l)) = ok (some (x ∷ l))
  on_element (ok false) reached x xs (err e) = err e
  on_element (ok false) reached x xs panic = panic
  on_element (err e) reached x xs rest = err e
  on_element panic reached x xs rest = panic

  -- The loop: the first element equal to the metric is taken out if the metric is not reached.
  unfoldable pub scan : M → Bool → List M → Result (Option (List M))
  scan metric reached [] = ok none
  scan metric reached (x ∷ xs) =
      let rest = scan metric reached xs in on_element (equal x metric) reached x xs rest

  -- The deferred function.
  unfoldable pub reset : Condition M → Condition M
  reset c = if is_empty c.current then record c { reached = false; since_time = pos 0 } else c

  unfoldable pub settle : M → Bool → ℤ → Condition M → Option (List M) → Condition M
  unfolding reset
  settle metric reached now c (some l) = reset (record c { current = l })
  settle metric true now c none = reset (
      if c.reached
      then record c { current = c.current ++ metric ∷ [] }
      else record c { current = c.current ++ metric ∷ []; reached = true; since_time = now })
  settle metric false now c none = reset c

  abbrev pub settled : M → Bool → ℤ → Condition M → Result (Option (List M)) → Result (Condition M)
  settled metric reached now c (ok o) = ok (settle metric reached now c o)
  settled metric reached now c (err e) = err e
  settled metric reached now c panic = panic

  unfoldable pub update : Condition M → M → Bool → ℤ → Result (Condition M)
  unfolding scan settle
  update c metric reached now = settled metric reached now c (scan metric reached c.current)

unfoldable pub is_reached : {M : Type 0} → Condition M → ℤ → Bool
is_reached c now = if c.reached then ltb_ℤ c.window (now -ℤ c.since_time) else false
