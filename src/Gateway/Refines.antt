-- ===== src/Gateway/Refines.antt =====
-- The routes of the proxy as its clients see them: three functions, of which the maps of proxy.go and
-- of inmem.go are one representation.
use beamlit_controller.Base.{
  List, [], ◌∷◌, Text, Text_Eq, Dict, delete, Act, Result, ok, Option, some, none, ◌==◌,
  if◌then◌else◌, failure, err, ◌≡◌, refl, ap, ◌∙◌, lookup, lookup-insert, lookup-delete, modify,
  pure, ◌>>=◌, ◌>>◌, text_eq_iff, Bool-cases, inl, inr, sym,
}
use beamlit_controller.Gateway.Types.{Route}
use beamlit_controller.Gateway.InMem
use beamlit_controller.Gateway.Proxy.{
  ProxyState, register_route, get_route, update_route, delete_route, is_among, backend_hosts,
  store_hosts_lem, store_backends_lem,
}

-- A request of the management of the gateway.
pub data Command : Type 0 where
  registering updating : Route → Command
  getting deleting : Text → Command

unfoldable pub perform : Command → Act ProxyState Route
perform (registering route) = register_route route
perform (updating route) = update_route route
perform (getting name) = get_route name
perform (deleting name) = delete_route name

-- The requests one after another: the replies and the state that they leave.
unfoldable pub perform_all : List Command → ProxyState → List (Result Route) × ProxyState
unfolding perform
perform_all [] p = ([], p)
perform_all (c ∷ cs) p =
    let rest = perform_all cs (perform c p).1 in ((perform c p).0 ∷ rest.0, rest.1)

-- What a client can tell of the routes: the route of a name, and the names that hosts lead to.
pub record View : Type 0 where
  pub route_named : Text → Option Route
  pub name_at : Text → Option Text
  pub name_behind : Text → Option Text

abbrev pub view : ProxyState → View
view p = record {
  route_named = λ n. lookup n p.routes;
  name_at = λ h. lookup h p.routes_per_host;
  name_behind = λ h. lookup h p.backend_host_to_route;
}

abbrev pub known : Option Route → Result Route
known none = err (failure "route not found")
known (some route) = ok route

-- The specification: a route that is stored takes its name, its hostnames and the hosts of its
-- backends, also those that another one had; a route that is deleted leaves only its name.
abbrev pub stored : Route → View → View
stored route v = record {
  route_named = λ n. if route.name == n then some route else v.route_named n;
  name_at = λ h. if is_among h route.hostnames then some route.name else v.name_at h;
  name_behind =
      λ h. if is_among h (backend_hosts route.backends) then some route.name else v.name_behind h;
}

abbrev pub removed : Text → View → View
removed name v = record v { route_named = λ n. if name == n then none else v.route_named n }

abbrev pub spec : Command → View → Result Route × View
spec (registering route) v = (ok route, stored route v)
spec (updating route) v = (ok route, stored route v)
spec (getting name) v = (known (v.route_named name), v)
spec (deleting name) v = (known (v.route_named name), removed name v)

abbrev pub spec_all : List Command → View → List (Result Route) × View
spec_all [] v = ([], v)
spec_all (c ∷ cs) v = let rest = spec_all cs (spec c v).1 in ((spec c v).0 ∷ rest.0, rest.1)

-- Two views that agree everywhere are one.
pub View-ext :
    (u v : View)
    → ((n : Text) → u.route_named n ≡ v.route_named n)
    → ((h : Text) → u.name_at h ≡ v.name_at h)
    → ((h : Text) → u.name_behind h ≡ v.name_behind h)
    → u ≡ v
View-ext u v r a b =
    λ i. record { route_named = λ n. r n i; name_at = λ h. a h i; name_behind = λ h. b h i }

stored_route :
    (route : Route) (p : ProxyState) → view (register_route route p).1 ≡ stored route (view p)
unfolding register_route InMem.register_route
stored_route route p =
    View-ext (view (register_route route p).1) (stored route (view p))
      (λ n. lookup-insert route.name n route p.routes)
      (λ h. store_hosts_lem route.name h route.hostnames p.routes_per_host)
      (λ h. store_backends_lem route.name h route.backends p.backend_host_to_route)

updated_route :
    (route : Route) (p : ProxyState) → view (update_route route p).1 ≡ stored route (view p)
unfolding update_route InMem.update_route
updated_route route p =
    View-ext (view (update_route route p).1) (stored route (view p))
      (λ n. lookup-insert route.name n route p.routes)
      (λ h. store_hosts_lem route.name h route.hostnames p.routes_per_host)
      (λ h. store_backends_lem route.name h route.backends p.backend_host_to_route)

found-known : {S : Type 0} (o : Option Route) (s : S) → InMem.found o s ≡ (known o, s)
found-known none s = refl
found-known (some route) s = refl

removed-route :
    (name : Text) (p : ProxyState)
    → ((delete_route name p).0 ≡ known (lookup name p.routes))
      × (view (delete_route name p).1 ≡ removed name (view p))
unfolding delete_route InMem.delete_route
removed-route name p = go (lookup name p.routes) refl
  where
    m : Option Route → Act (Dict Text Route) Route
    m o = do route ← InMem.found o; modify (delete name); pure route

    none-removed :
        (n : Text)
        → lookup name p.routes ≡ none
        → lookup n p.routes ≡ (if name == n then none else lookup n p.routes)
    none-removed n h = elim (Bool-cases (name == n)) [
      | inl t ↦ rw (t) (rw (sym ((text_eq_iff name n).0 t)) h)
      | inr f ↦ rw f refl
    ]

    go :
        (o : Option Route)
        → lookup name p.routes ≡ o
        → ((m o p.routes).0 ≡ known o)
          × (view (record p { routes = (m o p.routes).1 }) ≡ removed name (view p))
    go none h = (refl, View-ext _ _ (λ n. none-removed n h) (λ _. refl) (λ _. refl))
    go (some route) h =
        (refl, View-ext _ _ (λ n. lookup-delete name n p.routes) (λ _. refl) (λ _. refl))

pub perform-spec :
    (c : Command) (p : ProxyState)
    → ((perform c p).0 ≡ (spec c (view p)).0) × (view (perform c p).1 ≡ (spec c (view p)).1)
unfolding perform register_route update_route get_route InMem.register_route InMem.update_route
    InMem.get_route
perform-spec (registering route) p = (refl, stored_route route p)
perform-spec (updating route) p = (refl, updated_route route p)
perform-spec (getting name) p = rw (found-known (lookup name p.routes) p.routes) (refl, refl)
perform-spec (deleting name) p = removed-route name p

-- The proxy is the specification, over any requests: it gives the same replies, and the routes that
-- it is left with are those that the specification is left with.
pub perform_all-refines :
    (cs : List Command) (p : ProxyState)
    → ((perform_all cs p).0 ≡ (spec_all cs (view p)).0)
      × (view (perform_all cs p).1 ≡ (spec_all cs (view p)).1)
unfolding perform_all
perform_all-refines [] p = (refl, refl)
perform_all-refines (c ∷ cs) p =
    let (reply, left) = perform-spec c p in
    let (replies, end) = perform_all-refines cs (perform c p).1 in
    (
      ap (λ r. r ∷ (perform_all cs (perform c p).1).0) reply
          ∙ ap (λ rs. (spec c (view p)).0 ∷ rs) (replies ∙ ap (λ v. (spec_all cs v).0) left),
      end ∙ ap (λ v. (spec_all cs v).1) left,
    )
