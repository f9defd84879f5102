-- ===== src/Metric/Scrapes.antt =====
-- The theorem on a metric that Prometheus finds above its target in every other round.
use beamlit_controller.Base.{
  ℕ, suc, false, none, some, [], ◌∷◌, bytes, pos, ltb, nat_eq, ok, err, failure, leb_ℤ, negsuc,
  if◌then◌else◌, ◌%◌,
}
use beamlit_controller.Metric.Spec.{Quantities, MetricSpec, external, average_value}
use beamlit_controller.Metric.Prometheus.{Prometheus, PrometheusWatcher, vector, started}
use beamlit_controller.Metric.Turns.{IsTurns, scrapes, scrapes-IsTurns}

abbrev counts : Quantities ℕ
counts = record { cmp_int64 = λ x v. if leb_ℤ v (pos x) then pos 0 else negsuc 0; equal = nat_eq }

abbrev requests : MetricSpec ℕ
requests = record {
  type = external;
  container_resource = none;
  external = some (record {
    metric = record { name = bytes "requests"; selector = none };
    target = record {
      type = average_value;
      value = none;
      average_value = some 5;
      average_utilization = none;
    };
  });
  object = none;
  pods = none;
  resource = none;
}

-- The world counts the queries.
abbrev swinging : Prometheus ℕ ℕ ℕ
swinging = record {
  query = λ text w. (ok (vector ((if nat_eq (w % 2) 0 then 9 else 1) ∷ [])), suc w);
  now = λ w. pos w;
  match_labels = λ s. [];
  approximate = λ n. n;
  zero_value = 0;
  is_above = λ a b. ltb b a;
  decode_type = err (failure "invalid scalar");
}

abbrev scraper : PrometheusWatcher ℕ
scraper = record { model = bytes "n/m"; metrics = requests ∷ [] }

scrapes-IsTurns_example :
    let s = (scrapes counts swinging scraper 3 (started (pos 5) 0)).1 in
    IsTurns (bytes "n/m") false s.sent s.last_reached
scrapes-IsTurns_example = scrapes-IsTurns counts swinging scraper 3 (pos 5) 0
