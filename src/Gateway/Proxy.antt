-- ===== src/Gateway/Proxy.antt =====
-- gateway/internal/proxy/proxy.go: ProxyV1Alpha1 and its routes.
use beamlit_controller.Base.{
  List, [], ◌∷◌, Text, Text_Eq, Dict, insert, Act, Bool, true, false, ◌||◌, ◌==◌, if◌then◌else◌,
  some, ◌≡◌, refl, arith, lookup, lookup-insert, lookup-insert_self, lookup-delete_self, none,
  modify, split_first, ok, ◌>>◌,
}
use beamlit_controller.Gateway.Types.{Backend, Route}
use beamlit_controller.Gateway.InMem

pub record ProxyState : Type 0 where
  pub routes : Dict Text Route
  pub routes_per_host : Dict Text Text
  pub backend_host_to_route : Dict Text Text

-- strings.Split(h, ":")[0]
unfoldable pub extract_host : Text → Text
extract_host h = split_first 58 h

abbrev pub persistence : {A : Type 0} → Act (Dict Text Route) A → Act ProxyState A
persistence m p = ((m p.routes).0, record p { routes = (m p.routes).1 })

-- The loops of RegisterRoute and UpdateRoute.
unfoldable pub store_hosts : Text → List Text → Dict Text Text → Dict Text Text
store_hosts name [] d = d
store_hosts name (h ∷ hs) d = store_hosts name hs (insert h name d)

unfoldable pub store_backends : Text → List Backend → Dict Text Text → Dict Text Text
unfolding extract_host
store_backends name [] d = d
store_backends name (b ∷ bs) d = store_backends name bs (insert (extract_host b.host) name d)

unfoldable pub register_route : Route → Act ProxyState Route
register_route route = do
  modify
      (λ p. record p { routes_per_host = store_hosts route.name route.hostnames p.routes_per_host })
  modify (λ p. record p {
    backend_host_to_route = store_backends route.name route.backends p.backend_host_to_route;
  })
  persistence (InMem.register_route route)

unfoldable pub get_route : Text → Act ProxyState Route
get_route name = persistence (InMem.get_route name)

unfoldable pub update_route : Route → Act ProxyState Route
update_route route = do
  modify
      (λ p. record p { routes_per_host = store_hosts route.name route.hostnames p.routes_per_host })
  modify (λ p. record p {
    backend_host_to_route = store_backends route.name route.backends p.backend_host_to_route;
  })
  persistence (InMem.update_route route)

unfoldable pub delete_route : Text → Act ProxyState Route
delete_route name = persistence (InMem.delete_route name)

abbrev pub is_among : Text → List Text → Bool
is_among h [] = false
is_among h (x ∷ xs) = x == h || is_among h xs

abbrev pub backend_hosts : List Backend → List Text
backend_hosts [] = []
backend_hosts (b ∷ bs) = extract_host b.host ∷ backend_hosts bs

pub store_hosts_lem :
    (name h : Text) (hs : List Text) (d : Dict Text Text)
    → lookup h (store_hosts name hs d) ≡ (if is_among h hs then some name else lookup h d)
unfolding store_hosts
store_hosts_lem name h [] d = refl
store_hosts_lem name h (x ∷ xs) d =
    ground (arith, store_hosts_lem name h xs (insert x name d), lookup-insert x h name d)

pub store_backends_lem :
    (name h : Text) (bs : List Backend) (d : Dict Text Text)
    → lookup h (store_backends name bs d)
      ≡ (if is_among h (backend_hosts bs) then some name else lookup h d)
unfolding store_backends
store_backends_lem name h [] d = refl
store_backends_lem name h (b ∷ bs) d = ground (
  arith,
  store_backends_lem name h bs (insert (extract_host b.host) name d),
  lookup-insert (extract_host b.host) h name d,
)

-- After a route is registered, its name leads to it and every other name leads where it led; a
-- host leads to the name of the route if it is one of its hostnames, or the host without the port
-- of one of its backends, and leads where it led otherwise.
pub register_resolves :
    (route : Route) (p : ProxyState)
    → let x = register_route route p in
      (x.0 ≡ ok route)
      × ((n : Text)
          → lookup n x.1.routes ≡ (if route.name == n then some route else lookup n p.routes))
      × ((h : Text)
          → lookup h x.1.routes_per_host
            ≡ (if is_among h route.hostnames then some route.name else lookup h p.routes_per_host))
      × ((h : Text)
          → lookup h x.1.backend_host_to_route ≡ (
              if is_among h (backend_hosts route.backends)
              then some route.name
              else lookup h p.backend_host_to_route))
unfolding register_route InMem.register_route
register_resolves route p = (
  refl,
  λ n. lookup-insert route.name n route p.routes,
  λ h. store_hosts_lem route.name h route.hostnames p.routes_per_host,
  λ h. store_backends_lem route.name h route.backends p.backend_host_to_route,
)

-- A route that is registered and then deleted is returned by the deletion, and its name leads to
-- nothing afterwards, while its hosts still lead to its name.
pub delete_leaves_hosts :
    (route : Route) (p : ProxyState) (h : Text)
    → is_among h route.hostnames ≡ true
    → let x = (do register_route route; delete_route route.name) p in
      (x.0 ≡ ok route)
      × (lookup route.name x.1.routes ≡ none)
      × (lookup h x.1.routes_per_host ≡ some route.name)
unfolding register_route delete_route InMem.register_route InMem.delete_route
delete_leaves_hosts route p h m = rw (lookup-insert_self route.name route p.routes) (
  refl,
  lookup-delete_self route.name (insert route.name route p.routes),
  ground (arith, store_hosts_lem route.name h route.hostnames p.routes_per_host),
)
