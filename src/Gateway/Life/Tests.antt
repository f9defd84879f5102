-- ===== src/Gateway/Life/Tests.antt =====
-- The life of a gateway to which a route is sent, which passes a request on, and which is asked to
-- forget the route.
use beamlit_controller.Base.{List, [], ◌∷◌, bytes, pos, ◌≡◌}
use beamlit_controller.Gateway.Life.{
  Arrival, asked, rewritten, answered, unreachable, new, life, changes, no_routes, life-refines,
}
use beamlit_controller.Gateway.Refines.{view, spec_all}
use beamlit_controller.Gateway.Samples as Samples
use beamlit_controller.Gateway.Samples.{codec, wire, api_request}

abbrev events : List Arrival
events =
    asked (api_request (bytes "POST") (bytes "/v1alpha1/routes"))
    ∷ rewritten (Samples.asked (bytes "llm.local")) (Samples.asked (bytes "llm.local"))
    ∷ unreachable (Samples.asked (bytes "near"))
    ∷ answered (Samples.asked (bytes "near")) (Samples.answer (pos 500))
    ∷ asked (api_request (bytes "DELETE") (bytes "/v1alpha1/routes/llm"))
    ∷ []

life-refines_example :
    view (life codec wire events (record { proxy = new; world = 0 })).proxy
    ≡ (spec_all (changes codec events) no_routes).1
life-refines_example = life-refines codec wire events 0
