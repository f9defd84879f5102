-- ===== src/Metric/Turns.antt =====
-- What a Prometheus watcher sends over its rounds.
use beamlit_controller.Base.{
  ℕ, zero, suc, Bool, true, false, not, Option, none, some, List, [], ◌∷◌, ◌++◌, Text, ℤ, Act,
  Result, ok, err, panic, pure, ◌>>◌, ◌≡◌, refl, sym, ap,
}
use mathlib.Core.Path.{subst}
use beamlit_controller.Base.Keeps.{Keeps, Keeps-bind, keeps_rules}
use beamlit_controller.Metric.Spec.{Quantities, MetricSpec, ExternalMetricSource}
use beamlit_controller.Metric.Watcher.{MetricStatus}
use beamlit_controller.Metric.Prometheus.{
  Prometheus, PrometheusWatching, PrometheusWatcher, started, QueryResult, scalar, vector, matrix,
  nothing, unsupported, Next, on, skip, in_world, note, judge, on_scalar, if_changed, same, send,
  on_result, scrape_one, scrape,
}

-- The statuses of the model `name`, each the opposite of the one before it, from `first` to `last`.
abbrev pub IsTurns : Text → Bool → List MetricStatus → Bool → Type 0
IsTurns name first [] last = first ≡ last
IsTurns name first (m ∷ ms) last =
    (m ≡ record { model_name = name; reached = not first }) × IsTurns name (not first) ms last

IsTurns-append :
    (name : Text) (first last : Bool) (ms : List MetricStatus)
    → IsTurns name first ms last
    → IsTurns name first (ms ++ record { model_name = name; reached = not last } ∷ []) (not last)
IsTurns-append name first last [] h =
    (ap (λ b. record { model_name = name; reached = not b }) (sym h), ap not h)
IsTurns-append name first last (m ∷ ms) h = (h.0, IsTurns-append name (not first) last ms h.1)

module _ {Q F W : Type 0} (q : Quantities Q) (p : Prometheus Q F W) (w : PrometheusWatcher Q) where
  -- The watcher's own record of what it sent last is right.
  abbrev pub IsFresh : PrometheusWatching Q W → Type 0
  IsFresh s = IsTurns w.model false s.sent s.last_reached

  Keeps-in_world : {A : Type 0} (m : Act W A) → Keeps IsFresh (in_world m)
  Keeps-in_world m = record { at = λ s h. h }

  Keeps-note : (metric : MetricSpec Q) (reached : Bool) → Keeps IsFresh (note q p metric reached)
  unfolding note
  Keeps-note metric reached = search keeps_rules depth 20

  Keeps-on_scalar :
      (metric : MetricSpec Q) (bound : F) (r : Result F)
      → Keeps IsFresh (on_scalar q p metric bound r)
  Keeps-on_scalar metric bound (ok x) = search (keeps_rules, Keeps-note)
  Keeps-on_scalar metric bound (err e) = search keeps_rules
  Keeps-on_scalar metric bound panic = record { at = λ s h. h }

  Keeps-judge :
      (metric : MetricSpec Q) (bound : F) (r : QueryResult F)
      → Keeps IsFresh (judge q p metric bound r)
  unfolding judge
  Keeps-judge metric bound scalar = Keeps-on_scalar metric bound p.decode_type
  Keeps-judge metric bound (vector xs) = search (keeps_rules, Keeps-note)
  Keeps-judge metric bound matrix = search keeps_rules
  Keeps-judge metric bound nothing = search keeps_rules
  Keeps-judge metric bound unsupported = search keeps_rules

  sends :
      (reached last : Bool) (s : PrometheusWatching Q W)
      → s.last_reached ≡ last
      → IsFresh s
      → IsFresh (if_changed q p w (same last reached) reached s).1
  sends true true s e h = h
  sends false false s e h = h
  sends true false s e h =
      IsTurns-append w.model false false s.sent (subst (IsTurns w.model false s.sent) e h)
  sends false true s e h =
      IsTurns-append w.model false true s.sent (subst (IsTurns w.model false s.sent) e h)

  Keeps-send : (n : Next) → Keeps IsFresh (send q p w n)
  Keeps-send skip = search keeps_rules
  Keeps-send on = record { at = λ s h. sends s.condition.reached s.last_reached s refl h }

  Keeps-on_result :
      (metric : MetricSpec Q) (e : ExternalMetricSource Q) (r : Option (QueryResult F))
      → Keeps IsFresh (on_result q p w metric e r)
  Keeps-on_result metric e none = search keeps_rules
  Keeps-on_result metric e (some r) = search (keeps_rules, Keeps-judge, Keeps-send)

  Keeps-scrape_one : (metric : MetricSpec Q) → Keeps IsFresh (scrape_one q p w metric)
  unfolding scrape_one
  Keeps-scrape_one metric = search (keeps_rules, Keeps-in_world, Keeps-on_result) depth 20

  Keeps-scrape : (ms : List (MetricSpec Q)) → Keeps IsFresh (scrape q p w ms)
  unfolding scrape
  Keeps-scrape [] = search keeps_rules
  Keeps-scrape (m ∷ ms) =
      Keeps-bind (scrape_one q p w m) _ (Keeps-scrape_one m) (λ _. Keeps-scrape ms)

  unfoldable pub scrapes : ℕ → Act (PrometheusWatching Q W) (Unit {0})
  scrapes zero = pure tt
  scrapes (suc n) = do scrape q p w w.metrics; scrapes n

  Keeps-scrapes : (n : ℕ) → Keeps IsFresh (scrapes n)
  unfolding scrapes
  Keeps-scrapes zero = search keeps_rules
  Keeps-scrapes (suc n) =
      Keeps-bind (scrape q p w w.metrics) _ (Keeps-scrape w.metrics) (λ _. Keeps-scrapes n)

  -- A Prometheus watcher sends a status only when it differs from the one that it sent last: over
  -- any number of rounds, whatever Prometheus answers, the statuses bear its model and are by turns
  -- reached and not reached, beginning with reached.
  pub scrapes-IsTurns :
      (n : ℕ) (window : ℤ) (world : W)
      → let s = (scrapes n (started window world)).1 in IsTurns w.model false s.sent s.last_reached
  scrapes-IsTurns n window world = (Keeps-scrapes n).at (started window world) refl
