-- ===== src/Gateway/Life.antt =====
-- The gateway from its start: New of gateway/internal/proxy/proxy.go, and the handlers that
-- gateway/api and net/http/httputil call, in any order.
mod Changes
mod Traffic
mod Tests
use beamlit_controller.Base.{none, List, [], ◌∷◌, ◌++◌, Text_Eq, lookup, ◌≡◌, refl, ap, sym, ◌∙◌}
use beamlit_controller.Gateway.Proxy.{ProxyState}
use beamlit_controller.Gateway.Handler.{
  Request, Response, Writer, Net, Exchange, rewrite, error_handler,
}
use beamlit_controller.Gateway.Answer.{modify_response}
use beamlit_controller.Gateway.Api.{Codec, ApiRequest}
use beamlit_controller.Gateway.ClientSet.{serve}
use beamlit_controller.Gateway.Refines.{
  Command, perform, perform_all, perform_all-refines, view, View, spec_all,
}
use beamlit_controller.Gateway.Life.Changes.{changes_of, serve-changes}
use beamlit_controller.Gateway.Life.Traffic.{
  proxy_kept, rewrite-HasProxy, modify_response-HasProxy, error_handler-HasProxy,
}

-- New: a proxy without routes.
unfoldable pub new : ProxyState
new = record { routes = []; routes_per_host = []; backend_host_to_route = [] }

-- What the gateway is called for: a request at the address of the API, and, for the requests that
-- it passes on, the three handlers that New gives to httputil.ReverseProxy. A request that is
-- passed on is `out`.
pub data Arrival : Type 0 where
  asked : ApiRequest → Arrival
  rewritten : Request → Request → Arrival
  answered : Request → Response → Arrival
  unreachable : Request → Arrival

pub record Process (W : Type 0) : Type 0 where
  pub proxy : ProxyState
  pub world : W

abbrev unwritten : Writer
unwritten = record { header = []; status = none; body = [] }

module _ {W : Type 0} where
  abbrev exchanged : Request → Process W → Exchange W
  exchanged out s = record { proxy = s.proxy; request = out; writer = unwritten; world = s.world }

  abbrev left : Exchange W → Process W
  left e = record { proxy = e.proxy; world = e.world }

module _ {W : Type 0} (codec : Codec) (net : Net W) where
  unfoldable pub happen : Arrival → Process W → Process W
  happen (asked r) s = record s {
    proxy = (serve codec r (record { proxy = s.proxy; writer = unwritten })).1.proxy;
  }
  happen (rewritten incoming out) s = left (rewrite net incoming (exchanged out s)).1
  happen (answered out response) s = left (modify_response net response (exchanged out s)).1
  happen (unreachable out) s = left (error_handler net (exchanged out s)).1

  unfoldable pub life : List Arrival → Process W → Process W
  unfolding happen
  life [] s = s
  life (e ∷ es) s = life es (happen e s)

abbrev changes_by : Codec → Arrival → List Command
changes_by codec (asked r) = changes_of codec r
changes_by codec (rewritten incoming out) = []
changes_by codec (answered out response) = []
changes_by codec (unreachable out) = []

abbrev pub changes : Codec → List Arrival → List Command
changes codec [] = []
changes codec (e ∷ es) = changes_by codec e ++ changes codec es

-- Without a route, no name and no host leads anywhere.
abbrev pub no_routes : View
no_routes = record { route_named = λ n. none; name_at = λ h. none; name_behind = λ h. none }

module _ {W : Type 0} (codec : Codec) (net : Net W) where
  happen-changes :
      (e : Arrival) (s : Process W)
      → (happen codec net e s).proxy ≡ (perform_all (changes_by codec e) s.proxy).1
  unfolding happen perform_all
  happen-changes (asked r) s = serve-changes codec r _
  happen-changes (rewritten incoming out) s =
      proxy_kept (rewrite-HasProxy net s.proxy incoming) (exchanged out s) refl
  happen-changes (answered out response) s =
      proxy_kept (modify_response-HasProxy net s.proxy response) (exchanged out s) refl
  happen-changes (unreachable out) s =
      proxy_kept (error_handler-HasProxy net s.proxy) (exchanged out s) refl

  perform_all-append :
      (cs ds : List Command) (p : ProxyState)
      → (perform_all (cs ++ ds) p).1 ≡ (perform_all ds (perform_all cs p).1).1
  unfolding perform_all
  perform_all-append [] ds p = refl
  perform_all-append (c ∷ cs) ds p = perform_all-append cs ds (perform c p).1

  life-changes :
      (es : List Arrival) (s : Process W)
      → (life codec net es s).proxy ≡ (perform_all (changes codec es) s.proxy).1
  unfolding life perform_all
  life-changes [] s = refl
  life-changes (e ∷ es) s =
      life-changes es (happen codec net e s)
      ∙ ap (λ p. (perform_all (changes codec es) p).1) (happen-changes e s)
      ∙ sym (perform_all-append (changes_by codec e) (changes codec es) s.proxy)

  -- From its start, and whatever requests it serves and passes on, in whatever order, and whatever
  -- the backends and the network do: the routes of the gateway are those that its specification
  -- makes of the changes that the API requests ask for, in their order. The requests that it passes
  -- on, their retries and their failures change none.
  pub life-refines :
      (es : List Arrival) (w : W)
      → view (life codec net es (record { proxy = new; world = w })).proxy
        ≡ (spec_all (changes codec es) no_routes).1
  unfolding new lookup
  life-refines es w =
      ap view (life-changes es (record { proxy = new; world = w }))
      ∙ (perform_all-refines (changes codec es) new).1
