-- ===== src/Gateway/Delivery.antt =====
-- The client of the API and the API on the other end of the wire.
use beamlit_controller.Base.{
  ℕ, Bool, true, leb, nat_eq, All, none, [], ◌++◌, Text, Text_Eq, bytes, text_eq, has_prefix,
  Result, ok, err, panic, failure, ◌&&◌, ◌||◌, ◌⊎◌, inl, inr, ◌≡◌, ◌≢◌, refl, ap, ◌∙◌,
}
use beamlit_controller.Gateway.Types.{Route}
use beamlit_controller.Gateway.Proxy as Proxy
use beamlit_controller.Gateway.Proxy.{ProxyState}
use beamlit_controller.Gateway.InMem
use beamlit_controller.Gateway.Handler.{Writer}
use beamlit_controller.Gateway.Api.{
  Codec, json, Serving, by_content_type, respond, handle_route, handle_routes,
}
use beamlit_controller.Gateway.ClientSet.{
  ClientRequest, HttpClient, route_path, url_of, register_route, update_route, serve,
}

abbrev pub unwritten : Writer
unwritten = record { header = []; status = none; body = [] }

-- What the handler returns to the client: the body that was written; a handler that panics closes
-- the connection.
abbrev pub answer : Result (Unit {0}) × Serving → Result Text × ProxyState
answer (panic, s) = (err (failure "EOF"), s.proxy)
answer (r, s) = (ok s.writer.body, s.proxy)

-- A name that stands in a path as it is, and that net/http does not clean away: lower case letters,
-- digits, dashes and dots, but neither one dot nor two, as the names of the resources of the
-- cluster are.
abbrev pub is_plain_byte : ℕ → Bool
is_plain_byte b = leb 97 b && leb b 122 || leb 48 b && leb b 57 || nat_eq b 45 || nat_eq b 46

abbrev pub IsPlain : Text → Type 0
IsPlain t = All (λ b. is_plain_byte b ≡ true) t × (t ≢ []) × (t ≢ bytes ".") × (t ≢ bytes "..")

-- A path of the API under which a route of that name, or the routes, are found.
abbrev pub IsPath : Text → Type 0
IsPath path =
    (path ≡ route_path) ⊎ ((name : Text) × IsPlain name × (path ≡ route_path ++ bytes "/" ++ name))

module _ {W : Type 0} (c : HttpClient W) (addr : Text) (codec : Codec)
    (gateway : W → ProxyState) where
  -- A request under such a path is answered by the API, and nothing else changes the gateway.
  pub record IsConnected : Type 0 where
    pub answered :
        (r : ClientRequest) (path : Text) (w : W)
        → IsPath path
        → r.url ≡ url_of addr path
        → let a = answer (
            serve codec
              (record {
                method = r.method;
                path = bytes "/" ++ path;
                accept = r.accept;
                content_type = r.content_type;
                body = r.body;
              })
              (record { proxy = gateway w; writer = unwritten })) in
          ((c.exchange r w).0 ≡ a.0) × (gateway (c.exchange r w).1 ≡ a.1)

  -- What each side encodes the route as, the other side decodes.
  pub record IsCarried (route : Route) : Type 0 where
    pub text : Text
    pub marshalled : c.marshal route ≡ ok text
    pub received : codec.decode json text ≡ ok route
    pub line : Text
    pub encoded : codec.encode json route ≡ ok line
    pub decoded : c.decode line ≡ ok route

  module _ (net : IsConnected) (route : Route) (carried : IsCarried route)
      (plain : IsPlain route.name) where
    -- What the handlers make of the body of the client.
    post_served :
        (p : ProxyState)
        → answer (
            serve codec
              (record {
                method = bytes "POST";
                path = bytes "/" ++ route_path;
                accept = [];
                content_type = bytes "application/json";
                body = carried.text;
              })
              (record { proxy = p; writer = unwritten }))
          ≡ (ok (carried.line), (Proxy.register_route route p).1)
    unfolding serve handle_routes by_content_type respond text_eq bytes Proxy.register_route
        InMem.register_route
    post_served p = simp (carried.received, carried.encoded)

    put_served :
        (p : ProxyState)
        → answer (
            serve codec
              (record {
                method = bytes "PUT";
                path = bytes "/" ++ (route_path ++ bytes "/" ++ route.name);
                accept = bytes "application/json";
                content_type = bytes "application/json";
                body = carried.text;
              })
              (record { proxy = p; writer = unwritten }))
          ≡ (ok (carried.line), (Proxy.update_route route p).1)
    unfolding serve handle_route by_content_type respond text_eq bytes has_prefix Proxy.update_route
        InMem.update_route
    put_served p = simp (carried.received, carried.encoded)

    abbrev posted : ClientRequest
    posted = record {
      method = bytes "POST";
      url = url_of addr route_path;
      accept = [];
      content_type = bytes "application/json";
      body = carried.text;
    }

    abbrev sent : ClientRequest
    sent = record {
      method = bytes "PUT";
      url = url_of addr (route_path ++ bytes "/" ++ route.name);
      accept = bytes "application/json";
      content_type = bytes "application/json";
      body = carried.text;
    }

    pub register_delivered :
        (w : W)
        → ((register_route c addr route w).0 ≡ ok route)
          × (gateway (register_route c addr route w).1 ≡ (Proxy.register_route route (gateway w)).1)
    unfolding register_route
    register_delivered w =
        let (text, left) = net.answered posted route_path w (inl refl) refl in
        let served = post_served (gateway w) in
        rw (carried.marshalled, text ∙ ap (λ a. a.0) served)
          (carried.decoded, left ∙ ap (λ a. a.1) served)

    pub update_delivered :
        (w : W)
        → ((update_route c addr route w).0 ≡ ok route)
          × (gateway (update_route c addr route w).1 ≡ (Proxy.update_route route (gateway w)).1)
    unfolding update_route
    update_delivered w =
        let (text, left) =
          net.answered sent (route_path ++ bytes "/" ++ route.name) w
            (inr (route.name, plain, refl)) refl in
        let served = put_served (gateway w) in
        rw (carried.marshalled, text ∙ ap (λ a. a.0) served)
          (carried.decoded, left ∙ ap (λ a. a.1) served)

    -- A route that the client set registers or updates passes the API into the maps of the proxy,
    -- and comes back as the answer. It supposes that the name of the route is plain, that a request
    -- of the client under the path of the routes, or of a route with a plain name, arrives at the
    -- API, and that each side reads the JSON that the other side makes of the route.
    pub route_delivered :
        (w : W)
        → ((register_route c addr route w).0 ≡ ok route)
          × (gateway (register_route c addr route w).1 ≡ (Proxy.register_route route (gateway w)).1)
          × ((update_route c addr route w).0 ≡ ok route)
          × (gateway (update_route c addr route w).1 ≡ (Proxy.update_route route (gateway w)).1)
    route_delivered w =
        let (registered, stored) = register_delivered w in
        let (updated, replaced) = update_delivered w in (registered, stored, updated, replaced)
