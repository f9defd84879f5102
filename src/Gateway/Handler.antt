-- ===== src/Gateway/Handler.antt =====
-- gateway/internal/proxy/handler.go and handleOAuth of utils.go: what the reverse proxy calls for
-- a request, for an answer, and when a backend cannot be reached.
mod Http
pub use Http.*
use beamlit_controller.Base.{
  ℕ, zero, suc, Bool, true, false, not, ◌&&◌, ◌||◌, Option, none, some, List, [], ◌∷◌, ◌++◌, map,
  Text, Text_Eq, bytes, Dict, lookup, insert, ℤ, ℤ_Eq, pos, ltb_ℤ, total64, has_prefix, text_drop,
  Act, Result, Error, failure, ok, err, panic, pure, raise, lift, gets, deref, modify, catch, ◌>>=◌,
  ◌>>◌, ◌==◌, if◌then◌else◌,
}
use beamlit_controller.Gateway.Types.{AuthType, oauth, other, OAuth, Auth, Backend, Route}
use beamlit_controller.Gateway.Proxy.{ProxyState, extract_host, persistence, get_route}
use beamlit_controller.Gateway.Pick.{WeightedBackend, weighted_random_backend}

-- A prefix that starts with a slash is taken without it where the path does not start with one.
abbrev pub effective_prefix : Text → Text → Text
effective_prefix path [] = []
effective_prefix path (c ∷ cs) =
    if not (has_prefix path (bytes "/")) && has_prefix (c ∷ cs) (bytes "/") then cs else c ∷ cs

unfoldable pub remove_path_prefix : Text → Text → Text
remove_path_prefix path prefix =
    let p = effective_prefix path prefix in
    if not (has_prefix path p) then path else text_drop p path

-- The weight that a retry gives to a backend.
abbrev pub retry_weight : ℤ → ℤ
retry_weight w = if w == pos 0 then pos 1 else w

abbrev pub weigh : Backend → WeightedBackend
weigh b = record { backend = b; weight = b.weight }

-- The backends of a retry: those that are not skipped.
unfoldable pub candidates : (Backend → Bool) → List Backend → List WeightedBackend
candidates skipped [] = []
candidates skipped (b ∷ bs) =
    let rest = candidates skipped bs in
    if skipped b
    then rest
    else record {
      backend = record b { weight = retry_weight b.weight };
      weight = retry_weight b.weight;
    }
      ∷ rest

-- The path that the same loop leaves.
unfoldable pub strip_prefixes : (Backend → Bool) → List Backend → Text → Text
unfolding remove_path_prefix
strip_prefixes skipped [] path = path
strip_prefixes skipped (b ∷ bs) path =
    strip_prefixes skipped bs (if skipped b then path else remove_path_prefix path b.path_prefix)

abbrev pub total_weight : List WeightedBackend → ℤ
total_weight bs = total64 (pos 0) (map (λ b. b.weight) bs)

module _ {W : Type 0} (net : Net W) where
  abbrev pub add_headers : Dict Text Text → Dict Text (List Text) → Dict Text (List Text)
  add_headers [] h = h
  add_headers ((k, v) ∷ d) h = add_headers d (net.add_header k v h)

  -- Without a configuration there is no token, and no error.
  unfoldable pub handle_oauth : Option OAuth → Act W (Option Text)
  handle_oauth none = pure none
  handle_oauth (some config) = do token ← net.fetch_token config; pure (some token)

  unfoldable pub authorize_by : AuthType → Auth → Act (Exchange W) (Unit {0})
  unfolding handle_oauth
  authorize_by oauth auth = do
    answer ← outside (handle_oauth auth.oauth)
    token ← deref answer
    change (λ r. record r {
      header = net.set_header (bytes "Authorization") (bytes "Bearer " ++ token) r.header;
    })
  authorize_by (other s) auth = pure tt

  unfoldable pub authorize : Option Auth → Act (Exchange W) (Unit {0})
  unfolding authorize_by
  authorize none = pure tt
  authorize (some auth) = authorize_by auth.type auth

  -- The request as it goes to the backend.
  unfoldable pub direct : Backend → Request → Request
  direct b r = record r {
    scheme = b.scheme;
    url_host = b.host;
    host = extract_host b.host;
    header = add_headers b.headers_to_add r.header;
    path = if not (b.path_prefix == []) then b.path_prefix ++ r.path else r.path;
  }

  unfoldable pub handle_backend : Backend → Act (Exchange W) (Unit {0})
  unfolding authorize direct
  handle_backend b = do authorize b.auth; change (direct b)

  -- r.Out.Response.StatusCode = http.StatusNotFound, and the like
  unfoldable pub answer_not_found : Act (Exchange W) (Unit {0})
  answer_not_found = do
    request ← gets (λ e. e.request)
    response ← deref request.response
    change (λ r. record r {
      response = some (record response {
        status_code = pos 404;
        status = bytes "Not Found";
        body = bytes "not found";
      });
    })

  abbrev pub found_route : Text → Act (Exchange W) (Option Route)
  found_route name =
      catch (do route ← in_proxy (get_route name); pure (some route)) (λ _. pure none)

  unfoldable pub rewrite_route : Request → Option Route → Act (Exchange W) (Unit {0})
  unfolding answer_not_found handle_backend
  rewrite_route in_request none = answer_not_found
  rewrite_route in_request (some route) =
      if total_weight (map weigh route.backends) == pos 0 then pure tt else do
        backend ← outside (
            weighted_random_backend net.intn (map weigh route.backends)
              (total_weight (map weigh route.backends)))
        catch (handle_backend backend) (λ _. pure tt)
        change (λ r. record r { header = net.x_forwarded in_request r.header })

  abbrev pub rewrite_name : Request → Option Text → Act (Exchange W) (Unit {0})
  rewrite_name in_request none = answer_not_found
  rewrite_name in_request (some name) = do route ← found_route name; rewrite_route in_request route

  -- RewriteV1Alpha1; the request of the exchange is r.Out.
  unfoldable pub rewrite : Request → Act (Exchange W) (Unit {0})
  unfolding rewrite_route
  rewrite in_request = do
    name ← gets (λ e. lookup (extract_host in_request.host) e.proxy.routes_per_host)
    rewrite_name in_request name

  abbrev pub write : ℤ → Text → Act (Exchange W) (Unit {0})
  write code text = modify (λ e. record e {
    writer = record e.writer {
      status = written_status e.writer.status code;
      body = e.writer.body ++ text;
    };
  })

  abbrev pub copy_headers : Dict Text (List Text) → Dict Text (List Text) → Dict Text (List Text)
  copy_headers [] h = h
  copy_headers ((k, v) ∷ d) h = copy_headers d (insert k v h)

  abbrev pub write_head : Response → Act (Exchange W) (Unit {0})
  write_head response = modify (λ e. record e {
    writer = record e.writer {
      header = copy_headers response.header e.writer.header;
      status = written_status e.writer.status response.status_code;
    };
  })

  abbrev pub write_body : Text → Act (Exchange W) (Unit {0})
  write_body text =
      modify (λ e. record e { writer = record e.writer { body = e.writer.body ++ text } })

  -- The answer of a backend is passed on: headers, status and body.
  unfoldable pub pass_on : Response → Act (Exchange W) (Unit {0})
  pass_on response = do
    write_head response
    text ← outside (net.copy_body response)
    write_body text

  -- errorHandler, behind the choice of the backends.
  unfoldable pub retry_with : List WeightedBackend → Act (Exchange W) (Unit {0})
  unfolding handle_backend pass_on
  retry_with bs = if total_weight bs == pos 0 then raise (failure "no backends") else do
    backend ← outside (weighted_random_backend net.intn bs (total_weight bs))
    handle_backend backend
    r ← gets (λ e. e.request)
    made ← lift (net.new_request r)
    response ← outside (net.send (record made { header = r.header; host = r.host }))
    pass_on response

  -- errorHandler
  unfoldable pub attempt : Text → Act (Exchange W) (Unit {0})
  unfolding retry_with candidates strip_prefixes
  attempt name = do
    route ← catch (in_proxy (get_route name)) (λ _. raise (failure "not found"))
    request ← gets (λ e. e.request)
    change (λ r. record r {
      path = strip_prefixes (λ b. b.host == request.host) route.backends r.path;
    })
    retry_with (candidates (λ b. b.host == request.host) route.backends)

  abbrev pub pause : ℕ → Act (Exchange W) (Unit {0})
  pause n = modify (λ e. record e { world = net.sleep n e.world })

  -- One round of the loop; `rest` is what follows a failure. The pause is 10 ^ i, where `^` is the
  -- exclusive or.
  abbrev pub try_then : Text → ℕ → Act (Exchange W) (Unit {0}) → Act (Exchange W) (Unit {0})
  try_then name delay rest = catch (attempt name) (λ _. do pause delay; rest)

  abbrev pub unavailable : Act (Exchange W) (Unit {0})
  unavailable = write (pos 503) (bytes "service unavailable")

  abbrev pub handle_error_of : Option Text → Act (Exchange W) (Unit {0})
  handle_error_of none = write (pos 404) (bytes "not found")
  handle_error_of (some name) =
      try_then name 10 (try_then name 11 (try_then name 8 (try_then name 9 unavailable)))

  -- ErrorHandler
  unfoldable pub error_handler : Act (Exchange W) (Unit {0})
  unfolding attempt
  error_handler = do
    name ← gets (λ e. lookup e.request.host e.proxy.backend_host_to_route)
    handle_error_of name
