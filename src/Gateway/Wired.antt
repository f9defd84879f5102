-- ===== src/Gateway/Wired.antt =====
-- The delivery of a route, with the API at the other end of each call.
use beamlit_controller.Base.{
  List, [], ◌∷◌, ◌++◌, Text, Result, err, failure, arith, bytes, text_drop, text_drop-append, ok,
  ◌≡◌, refl, ap, ◌∙◌,
}
use beamlit_controller.Beamlit.Token.{split}
use beamlit_controller.Gateway.Types.{Route}
use beamlit_controller.Gateway.Proxy as Proxy
use beamlit_controller.Gateway.Proxy.{ProxyState}
use beamlit_controller.Gateway.Api.{Codec, ApiRequest}
use beamlit_controller.Gateway.ClientSet.{
  ClientRequest, HttpClient, url_of, serve, register_route, update_route,
}
use beamlit_controller.Gateway.Delivery.{
  unwritten, answer, IsPlain, IsConnected, IsCarried, route_delivered,
}

abbrev model_route : Route
model_route = record { name = bytes "m"; hostnames = bytes "m.svc" ∷ []; backends = [] }

-- A notation: the name and the hostnames, one on each line.
abbrev written : Route → Text
written r = on_lines r.name r.hostnames
  where
    on_lines : Text → List Text → Text
    on_lines n [] = n
    on_lines n (h ∷ hs) = n ++ 10 ∷ on_lines h hs

abbrev route_on : List Text → Result Route
route_on [] = err (failure "no route")
route_on (n ∷ hs) = ok (record { name = n; hostnames = hs; backends = [] })

abbrev lines : Codec
lines = record {
  decode = λ f t. route_on (split 10 t);
  encode = λ f r. ok (written r);
  describe = λ e. [];
}

abbrev addr : Text
addr = bytes "gateway:8081"

abbrev served_at : ClientRequest → Text → ApiRequest
served_at r path = record {
  method = r.method;
  path = path;
  accept = r.accept;
  content_type = r.content_type;
  body = r.body;
}

abbrev loopback : HttpClient ProxyState
loopback = record {
  exchange = λ r p. answer (
      serve lines (served_at r (text_drop (bytes "http://" ++ addr) r.url))
        (record { proxy = p; writer = unwritten }));
  marshal = λ r. ok (written r);
  decode = λ t. route_on (split 10 t);
}

abbrev here : ProxyState → ProxyState
here p = p

path_of :
    (r : ClientRequest) (path : Text)
    → r.url ≡ url_of addr path
    → text_drop (bytes "http://" ++ addr) r.url ≡ bytes "/" ++ path
unfolding url_of
path_of r path h =
    ap (text_drop (bytes "http://" ++ addr)) h
    ∙ text_drop-append (bytes "http://" ++ addr) (bytes "/" ++ path)

loopback-IsConnected : IsConnected loopback addr lines here
loopback-IsConnected = record { answered = λ r path w is h. rw (path_of r path h) (refl, refl) }

loopback-IsCarried : IsCarried loopback addr lines here model_route
unfolding split bytes
loopback-IsCarried = record {
  text = written model_route;
  marshalled = refl;
  received = refl;
  line = written model_route;
  encoded = refl;
  decoded = refl;
}

model_route-IsPlain : IsPlain model_route.name
unfolding bytes
model_route-IsPlain = ((refl, tt), λ h. cc, λ h. ground arith, λ h. cc)

abbrev no_routes : ProxyState
no_routes = record { routes = []; routes_per_host = []; backend_host_to_route = [] }

route_delivered_example :
    ((register_route loopback addr model_route no_routes).0 ≡ ok model_route)
    × ((register_route loopback addr model_route no_routes).1
        ≡ (Proxy.register_route model_route no_routes).1)
    × ((update_route loopback addr model_route no_routes).0 ≡ ok model_route)
    × ((update_route loopback addr model_route no_routes).1
        ≡ (Proxy.update_route model_route no_routes).1)
route_delivered_example =
    route_delivered loopback addr lines here loopback-IsConnected model_route loopback-IsCarried
      model_route-IsPlain no_routes
