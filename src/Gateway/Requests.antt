-- ===== src/Gateway/Requests.antt =====
-- The refinement at a route that is registered, deleted and asked for.
use beamlit_controller.Base.{List, [], ◌∷◌, bytes, text_eq, ◌≡◌, arith}
use mathlib.Core.Quot
use beamlit_controller.Gateway.Order.{AreIndependent, performed, requests_comm}
use beamlit_controller.Gateway.Types.{Route}
use beamlit_controller.Gateway.Proxy.{ProxyState}
use beamlit_controller.Gateway.Refines.{
  Command, registering, deleting, getting, perform_all, view, spec_all, perform_all-refines,
}

abbrev hosted : Route
hosted = record { name = bytes "m"; hostnames = bytes "m.svc" ∷ []; backends = [] }

abbrev fresh : ProxyState
fresh = record { routes = []; routes_per_host = []; backend_host_to_route = [] }

abbrev requests : List Command
requests = registering hosted ∷ deleting hosted.name ∷ getting hosted.name ∷ []

perform_all-refines_example :
    ((perform_all requests fresh).0 ≡ (spec_all requests (view fresh)).0)
    × (view (perform_all requests fresh).1 ≡ (spec_all requests (view fresh)).1)
perform_all-refines_example = perform_all-refines requests fresh

abbrev other : Route
other = record { name = bytes "k"; hostnames = bytes "k.svc" ∷ []; backends = [] }

are_independent : AreIndependent (registering hosted) (registering other)
unfolding text_eq bytes
are_independent = record {
  names = λ h e. ground arith;
  hosts = λ h e. ground arith;
  behind = λ h e. cc;
}

requests_comm_example :
    performed (registering hosted) (performed (registering other) (Quot.mk fresh))
    ≡ performed (registering other) (performed (registering hosted) (Quot.mk fresh))
requests_comm_example =
    requests_comm (registering hosted) (registering other) (Quot.mk fresh) are_independent
