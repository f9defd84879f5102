-- ===== src/Gateway/Samples.antt =====
-- Routes, requests, a network that answers at once and a notation, for the tests.
use beamlit_controller.Base.{
  ℕ, suc, ◌+◌, false, none, [], ◌∷◌, Text, Text_Eq, bytes, insert, ℤ, pos, ok,
}
use beamlit_controller.Gateway.Types.{Backend, Route}
use beamlit_controller.Gateway.Proxy.{ProxyState}
use beamlit_controller.Gateway.Handler.{Response, Request, Writer, Net, Exchange}
use beamlit_controller.Gateway.Api.{Codec, ApiRequest, Serving}

abbrev pub backend_of : Text → ℤ → Backend
backend_of host weight = record {
  host = host;
  weight = weight;
  auth = none;
  path_prefix = bytes "/v1";
  headers_to_add = (bytes "X-Model", bytes "llm") ∷ [];
  scheme = bytes "http";
}

abbrev pub near : Backend
near = backend_of (bytes "near:80") (pos 60)

abbrev pub far : Backend
far = backend_of (bytes "far") (pos 40)

abbrev pub shared : Route
shared = record {
  name = bytes "llm";
  hostnames = bytes "llm.local" ∷ [];
  backends = near ∷ far ∷ [];
}

abbrev pub nothing : ProxyState
nothing = record { routes = []; routes_per_host = []; backend_host_to_route = [] }

abbrev pub serving : ProxyState
serving = record {
  routes = (bytes "llm", shared) ∷ [];
  routes_per_host = (bytes "llm.local", bytes "llm") ∷ [];
  backend_host_to_route = (bytes "near", bytes "llm") ∷ (bytes "far", bytes "llm") ∷ [];
}

-- The routes are gone, the hosts are left.
abbrev pub stale : ProxyState
stale = record serving { routes = [] }

abbrev pub asked : Text → Request
asked host = record {
  method = bytes "GET";
  scheme = [];
  url_host = [];
  path = bytes "/chat";
  host = host;
  header = [];
  body = [];
  response = none;
}

abbrev pub answer : ℤ → Response
answer code = record {
  closed = false;
  status_code = code;
  status = [];
  header = [];
  body = bytes "hello";
}

-- Every draw is 70, and every backend answers; the world is the time.
abbrev pub wire : Net ℕ
wire = record {
  fetch_token = λ o w. (ok (bytes "t"), w);
  intn = λ n w. (ok (pos 70), suc w);
  sleep = λ n w. w + n;
  new_request = λ r. ok r;
  send = λ r w. (ok (answer (pos 200)), suc w);
  copy_body = λ r w. (ok r.body, w);
  set_header = λ k v h. insert k (v ∷ []) h;
  add_header = λ k v h. insert k (v ∷ []) h;
  x_forwarded = λ r h. insert (bytes "X-Forwarded-Host") (r.host ∷ []) h;
}

abbrev pub exchange : ProxyState → Text → Exchange ℕ
exchange p host = record {
  proxy = p;
  request = asked host;
  writer = record { header = []; status = none; body = [] };
  world = 0;
}

abbrev pub codec : Codec
codec = record {
  decode = λ f s. ok shared;
  encode = λ f r. ok r.name;
  describe = λ e. bytes "error";
}

abbrev pub api_request : Text → Text → ApiRequest
api_request method path = record {
  method = method;
  path = path;
  accept = bytes "application/json";
  content_type = bytes "application/json";
  body = bytes "{}";
}

abbrev pub new_writer : Writer
new_writer = record { header = []; status = none; body = [] }

abbrev pub server : Serving
server = record { proxy = nothing; writer = new_writer }
