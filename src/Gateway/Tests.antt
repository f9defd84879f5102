-- ===== src/Gateway/Tests.antt =====
-- The theorems at concrete routes and requests.
use beamlit_controller.Base.{
  add64, wrap64, ◌+ℤ◌, total64, ℕ, true, none, some, [], ◌∷◌, ◌++◌, Text_Eq, bytes, text_eq,
  split_first, insert, lookup, pos, Result, Error, ok, err, ◌==◌, ◌≡◌, ◌≢◌, ◌↔◌, refl, arith, ◌>>◌,
}
use beamlit_controller.Gateway.InMem
use beamlit_controller.Gateway.Proxy.{
  extract_host, get_route, register_route, delete_route, is_among, delete_leaves_hosts,
}
use beamlit_controller.Gateway.Pick.{pick, weighted_random_backend, picked_by_weight}
use beamlit_controller.Gateway.Handler.{
  Response, Exchange, weigh, direct, rewrite, candidates, handle_backend, error_handler,
}
use beamlit_controller.Gateway.Answer.{modify_response, IsOutcome, replaced_body_closed}
use beamlit_controller.Gateway.Api.{
  json, by_content_type, handle_route, handle_routes, stored_then_got,
}
use beamlit_controller.Gateway.Routing.{rewrite_routed}
use beamlit_controller.Gateway.Retries.{
  IsAnswered, error_handler-IsAnswered, stale_route_unavailable, failing_left_out,
}
use beamlit_controller.Gateway.Samples.{
  near, far, shared, nothing, serving, stale, asked, answer, wire, exchange, codec, api_request,
  new_writer, server,
}

among_names : is_among (bytes "llm.local") shared.hostnames ≡ true
unfolding text_eq bytes
among_names = refl

delete_leaves_hosts_example :
    let x = (do register_route shared; delete_route shared.name) nothing in
    (x.0 ≡ ok shared)
    × (lookup shared.name x.1.routes ≡ none)
    × (lookup (bytes "llm.local") x.1.routes_per_host ≡ some shared.name)
delete_leaves_hosts_example = delete_leaves_hosts shared nothing (bytes "llm.local") among_names

picked_by_weight_example :
    weighted_random_backend wire.intn (weigh near ∷ weigh far ∷ []) (pos 100) 0 ≡ (ok far, 1)
picked_by_weight_example =
    picked_by_weight wire.intn 0 1 (weigh near ∷ []) [] (weigh far) 70 (pos 100) refl (refl, tt)
      refl (omega arith) (omega arith) (omega arith)

host_known :
    lookup (extract_host (bytes "llm.local:8080")) serving.routes_per_host ≡ some (bytes "llm")
unfolding lookup extract_host text_eq bytes split_first
host_known = refl

route_known : lookup (bytes "llm") serving.routes ≡ some shared
unfolding lookup text_eq bytes
route_known = refl

rewrite_routed_example :
    rewrite wire (asked (bytes "llm.local:8080")) (exchange serving (bytes "llm.local:8080")) ≡ (
      ok tt,
      record (exchange serving (bytes "llm.local:8080")) {
        request = record (asked (bytes "llm.local:8080")) {
          scheme = bytes "http";
          url_host = bytes "far";
          host = extract_host (bytes "far");
          header =
              insert (bytes "X-Forwarded-Host") (bytes "llm.local:8080" ∷ []) (
                insert
                  (bytes "X-Model")
                  (bytes "llm" ∷ [])
                  (asked (bytes "llm.local:8080")).header);
          path = bytes "/v1" ++ (asked (bytes "llm.local:8080")).path;
        };
        world = 1;
      },
    )
rewrite_routed_example =
    rewrite_routed wire (exchange serving (bytes "llm.local:8080")) (asked (bytes "llm.local:8080"))
      (bytes "llm") shared (weigh near ∷ []) [] (weigh far) 70 1 host_known route_known refl refl
      (refl, (refl, tt)) (omega arith) refl (omega arith) (omega arith)

abbrev outcome_of : Response → Exchange ℕ → Result Response
outcome_of r e = (modify_response wire r e).0

abbrev closed_answer : Response
closed_answer = record (answer (pos 200)) { closed = true }

answer_replaced : outcome_of (answer (pos 500)) (exchange serving (bytes "near")) ≡ ok closed_answer
unfolding modify_response lookup text_eq bytes get_route InMem.get_route total64 candidates add64
    wrap64 ◌+ℤ◌ weighted_random_backend pick handle_backend
answer_replaced = refl

replaced_body_closed_example : IsOutcome wire (answer (pos 500)) closed_answer
replaced_body_closed_example =
    replaced_body_closed wire (answer (pos 500)) closed_answer (exchange serving (bytes "near"))
      answer_replaced

error_handler-IsAnswered_example :
    ((c : Error) → (error_handler wire (exchange serving (bytes "near"))).0 ≢ err c)
    × ((error_handler wire (exchange serving (bytes "near"))).0 ≡ ok tt
        → IsAnswered (error_handler wire (exchange serving (bytes "near"))).1)
error_handler-IsAnswered_example = error_handler-IsAnswered wire (exchange serving (bytes "near"))

backend_known : lookup (bytes "near") stale.backend_host_to_route ≡ some (bytes "llm")
unfolding lookup text_eq bytes
backend_known = refl

route_gone : lookup (bytes "llm") stale.routes ≡ none
unfolding lookup
route_gone = refl

stale_route_unavailable_example : error_handler wire (exchange stale (bytes "near")) ≡ (
  ok tt,
  record (exchange stale (bytes "near")) {
    writer = record { header = []; status = some (pos 503); body = bytes "service unavailable" };
    world = 38;
  },
)
stale_route_unavailable_example =
    stale_route_unavailable wire (bytes "llm") (exchange stale (bytes "near")) backend_known
      route_gone

failing_left_out_example :
    (candidates (λ c. c.host == (direct wire near (asked (bytes "near"))).host) (near ∷ []) ≡ [])
    ↔ (extract_host near.host ≡ near.host)
failing_left_out_example = failing_left_out wire near (asked (bytes "near"))

accepts_json : by_content_type (bytes "application/json") ≡ some json
unfolding by_content_type text_eq bytes
accepts_json = refl

stored_then_got_example :
    let post = api_request (bytes "POST") (bytes "/v1alpha1/routes") in
    let put = api_request (bytes "PUT") (bytes "/v1alpha1/routes/other") in
    let get = api_request (bytes "GET") (bytes "/v1alpha1/routes/" ++ bytes "llm") in
    let a =
      (handle_route codec get
        (record (handle_routes codec post server).1 { writer = new_writer })).1.writer in
    let b =
      (handle_route codec get
        (record (handle_route codec put server).1 { writer = new_writer })).1.writer in
    ((a.status ≡ some (pos 200)) × (a.body ≡ bytes "llm"))
    × ((b.status ≡ some (pos 200)) × (b.body ≡ bytes "llm"))
stored_then_got_example =
    stored_then_got codec server (api_request (bytes "POST") (bytes "/v1alpha1/routes"))
      (api_request (bytes "PUT") (bytes "/v1alpha1/routes/other"))
      (api_request (bytes "GET") (bytes "/v1alpha1/routes/" ++ bytes "llm")) json shared
      (bytes "llm") new_writer refl refl accepts_json accepts_json refl refl refl refl refl refl
      refl
