-- ===== src/Gateway/Life/Changes.antt =====
-- What the API requests of the gateway change: gateway/api/v1alpha1.go over
-- gateway/internal/proxy/proxy.go.
use beamlit_controller.Base.{
  Option, none, some, List, [], ◌∷◌, Text, Text_Eq, bytes, has_prefix, Result, ok, err, panic, ◌==◌,
  if◌then◌else◌, ℤ, Act, lookup, ◌≡◌, refl, ap, ◌∙◌, arith, Bool-cases, text_eq, text_eq_iff, inl,
  inr,
}
use beamlit_controller.Gateway.Types.{Route}
use beamlit_controller.Gateway.Proxy.{
  ProxyState, register_route, get_route, update_route, delete_route,
}
use beamlit_controller.Gateway.InMem
use beamlit_controller.Gateway.Api.{
  Codec, Format, ApiRequest, Serving, trim_prefix, by_content_type, respond, report, decoded,
  store_body, handle_route, handle_routes,
}
use beamlit_controller.Gateway.ClientSet.{serve}
use beamlit_controller.Gateway.Refines.{
  Command, registering, updating, deleting, perform, perform_all,
}
use beamlit_controller.Gateway.Life.Traffic.{found-keeps}

-- What an API request asks to change, read off the request.
abbrev body_of : Result Route → (Route → Command) → List Command
body_of (ok route) command = command route ∷ []
body_of (err e) command = []
body_of panic command = []

abbrev sent : Codec → (Route → Command) → Text → Option Format → List Command
sent codec command body none = []
sent codec command body (some f) = body_of (codec.decode f body) command

abbrev pub changes_of : Codec → ApiRequest → List Command
changes_of codec r =
    if r.path == bytes "/v1alpha1/routes"
    then (if r.method == bytes "POST"
        then sent codec registering r.body (by_content_type r.content_type)
        else [])
    else if has_prefix r.path (bytes "/v1alpha1/routes/")
    then (if r.method == bytes "PUT"
        then sent codec updating r.body (by_content_type r.content_type)
        else if r.method == bytes "DELETE"
        then deleting (trim_prefix r.path (bytes "/v1alpha1/routes/")) ∷ []
        else [])
    else []

module _ (codec : Codec) where
  report-keeps :
      (code : ℤ) (f : Format) (a : Result Route) (s : Serving)
      → (report codec code f a s).1.proxy ≡ s.proxy
  unfolding respond
  report-keeps code f (ok route) s = ground arith
  report-keeps code f (err e) s = refl
  report-keeps code f panic s = refl

  decoded-changes :
      (f : Format) (store : Route → Act ProxyState Route) (command : Route → Command)
      (a : Result Route) (s : Serving)
      → ((route : Route) (p : ProxyState) → store route p ≡ perform (command route) p)
      → (decoded codec f store a s).1.proxy ≡ (perform_all (body_of a command) s.proxy).1
  unfolding perform_all
  decoded-changes f store command (ok route) s h =
      report-keeps _ f (store route s.proxy).0 _ ∙ ap (λ a. a.1) (h route s.proxy)
  decoded-changes f store command (err e) s h = refl
  decoded-changes f store command panic s h = refl

  store_body-changes :
      (store : Route → Act ProxyState Route) (command : Route → Command) (body : Text)
      (o : Option Format) (s : Serving)
      → ((route : Route) (p : ProxyState) → store route p ≡ perform (command route) p)
      → (store_body codec store body o s).1.proxy
        ≡ (perform_all (sent codec command body o) s.proxy).1
  unfolding perform_all
  store_body-changes store command body none s h = refl
  store_body-changes store command body (some f) s h =
      decoded-changes f store command (codec.decode f body) s h

  handle_routes-changes :
      (r : ApiRequest) (s : Serving)
      → (handle_routes codec r s).1.proxy
        ≡ (perform_all
            (if r.method == bytes "POST"
              then sent codec registering r.body (by_content_type r.content_type)
              else [])
            s.proxy).1
  unfolding handle_routes perform_all perform
  handle_routes-changes r s = elim (Bool-cases (r.method == bytes "POST")) [
    | inl p ↦ rw p (
        store_body-changes register_route registering r.body (by_content_type r.content_type) s
          (λ _ _. refl))
    | inr p ↦ rw p refl
  ]

  got-proxy : (name : Text) (p : ProxyState) → (get_route name p).1 ≡ p
  unfolding get_route InMem.get_route
  got-proxy name p = rw (found-keeps (lookup name p.routes) p.routes) refl

  handle_route-changes :
      (r : ApiRequest) (s : Serving)
      → (handle_route codec r s).1.proxy
        ≡ (perform_all
            (if r.method == bytes "PUT"
              then sent codec updating r.body (by_content_type r.content_type)
              else if r.method == bytes "DELETE"
              then deleting (trim_prefix r.path (bytes "/v1alpha1/routes/")) ∷ []
              else [])
            s.proxy).1
  unfolding handle_route perform_all perform text_eq bytes
  handle_route-changes r s = elim (Bool-cases (r.method == bytes "GET")) [
    | inl g ↦
        rw ((text_eq_iff r.method (bytes "GET")).0 g)
          (report-keeps _ _ (get_route _ s.proxy).0 _ ∙ got-proxy _ s.proxy)
    | inr g ↦ elim (Bool-cases (r.method == bytes "PUT")) [
      | inl p ↦
          rw (g, p)
            (store_body-changes update_route updating r.body (by_content_type r.content_type) s
              (λ _ _. refl))
      | inr p ↦ elim (Bool-cases (r.method == bytes "DELETE")) [
        | inl d ↦ rw (g, p, d) (report-keeps _ _ (delete_route _ s.proxy).0 _)
        | inr d ↦ rw (g, p, d) refl
      ]
    ]
  ]

  pub serve-changes :
      (r : ApiRequest) (s : Serving)
      → (serve codec r s).1.proxy ≡ (perform_all (changes_of codec r) s.proxy).1
  unfolding serve perform_all
  serve-changes r s = elim (Bool-cases (r.path == bytes "/v1alpha1/routes")) [
    | inl p ↦ rw p (handle_routes-changes r s)
    | inr p ↦ elim (Bool-cases (has_prefix r.path (bytes "/v1alpha1/routes/"))) [
      | inl q ↦ rw (p, q) (handle_route-changes r s)
      | inr q ↦ rw (p, q) (ground arith)
    ]
  ]
