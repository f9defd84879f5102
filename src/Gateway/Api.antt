-- ===== src/Gateway/Api.antt =====
-- gateway/api/v1alpha1.go: the handlers of /v1alpha1/routes/ and of /v1alpha1/routes.
use beamlit_controller.Base.{
  Option, none, some, Text, Text_Eq, bytes, has_prefix, text_drop, text_eq, has_prefix-append,
  text_drop-append, ℤ, pos, Act, Result, Error, ok, err, panic, lookup, lookup-insert_self, lift,
  modify, catch, ◌++◌, [], ◌>>=◌, ◌==◌, ◌≡◌, refl, arith, if◌then◌else◌,
}
use beamlit_controller.Gateway.Types.{Route}
use beamlit_controller.Gateway.InMem
use beamlit_controller.Gateway.Proxy.{
  ProxyState, register_route, get_route, update_route, delete_route,
}
use beamlit_controller.Gateway.Handler.{Writer, written_status}

pub data Format : Type 0 where
  json yaml : Format

-- encoding/json and yaml.v2 on routes, and the text of an error
pub record Codec : Type 0 where
  pub decode : Format → Text → Result Route
  pub encode : Format → Route → Result Text
  pub describe : Error → Text

-- What a handler reads of a request.
pub record ApiRequest : Type 0 where
  pub method : Text
  pub path : Text
  pub accept : Text
  pub content_type : Text
  pub body : Text

pub record Serving : Type 0 where
  pub proxy : ProxyState
  pub writer : Writer

abbrev pub on_proxy : {A : Type 0} → Act ProxyState A → Act Serving A
on_proxy m s = ((m s.proxy).0, record s { proxy = (m s.proxy).1 })

-- Write sets the status 200, unless one was written before.
abbrev pub reply : ℤ → Text → Act Serving (Unit {0})
reply code text = modify (λ s. record s {
  writer = record s.writer {
    status = written_status s.writer.status code;
    body = s.writer.body ++ text;
  };
})

-- http.Error, which ends the text with a line break
abbrev pub http_error : Text → ℤ → Act Serving (Unit {0})
http_error text code = reply code (text ++ bytes "\n")

-- strings.TrimPrefix
unfoldable pub trim_prefix : Text → Text → Text
trim_prefix s p = if has_prefix s p then text_drop p s else s

unfoldable pub by_accept : Text → Format
by_accept accept = if accept == bytes "application/yaml" then yaml else json

unfoldable pub by_content_type : Text → Option Format
by_content_type t =
    if t == bytes "application/json"
    then some json
    else if t == bytes "application/yaml"
    then some yaml
    else none

module _ (c : Codec) where
  unfoldable pub respond : Format → Route → Act Serving (Unit {0})
  respond f route =
      catch (do text ← lift (c.encode f route); reply (pos 200) text)
        (λ e. http_error (c.describe e) (pos 500))

  -- The outcome of a call of the proxy: the route in a format, or the error with a status.
  abbrev pub report : ℤ → Format → Result Route → Act Serving (Unit {0})
  report code f (ok route) s = respond f route s
  report code f (err e) s = http_error (c.describe e) code s
  report code f panic s = (panic, s)

  abbrev pub outcome : ℤ → Format → Act ProxyState Route → Act Serving (Unit {0})
  outcome code f m s = report code f (m s.proxy).0 (record s { proxy = (m s.proxy).1 })

  -- The body is decoded and handed to `store`.
  abbrev pub decoded :
      Format → (Route → Act ProxyState Route) → Result Route → Act Serving (Unit {0})
  decoded f store (ok route) s = outcome (pos 500) f (store route) s
  decoded f store (err e) s = http_error (c.describe e) (pos 400) s
  decoded f store panic s = (panic, s)

  abbrev pub store_body :
      (Route → Act ProxyState Route) → Text → Option Format → Act Serving (Unit {0})
  store_body store body none = http_error (bytes "unsupported content type") (pos 415)
  store_body store body (some f) = decoded f store (c.decode f body)

  abbrev pub name_of : ApiRequest → Text
  name_of r = trim_prefix r.path (bytes "/v1alpha1/routes/")

  -- The handler of /v1alpha1/routes/
  unfoldable pub handle_route : ApiRequest → Act Serving (Unit {0})
  unfolding respond by_accept by_content_type
  handle_route r =
      if r.method == bytes "GET"
      then outcome (pos 404) (by_accept r.accept) (get_route (name_of r))
      else if r.method == bytes "PUT"
      then store_body update_route r.body (by_content_type r.content_type)
      else if r.method == bytes "DELETE"
      then outcome (pos 500) (by_accept r.accept) (delete_route (name_of r))
      else http_error (bytes "method not allowed") (pos 405)

  -- The handler of /v1alpha1/routes
  unfoldable pub handle_routes : ApiRequest → Act Serving (Unit {0})
  unfolding respond by_content_type
  handle_routes r =
      if r.method == bytes "POST"
      then store_body register_route r.body (by_content_type r.content_type)
      else http_error (bytes "method not allowed") (pos 405)

  -- Writing an answer leaves the routes.
  respond-keeps : (f : Format) (route : Route) (s : Serving) → (respond f route s).1.proxy ≡ s.proxy
  unfolding respond
  respond-keeps f route s = ground arith

  post_stores :
      (s : Serving) (r : ApiRequest) (f : Format) (route : Route)
      → r.method ≡ bytes "POST"
      → by_content_type r.content_type ≡ some f
      → c.decode f r.body ≡ ok route
      → lookup route.name (handle_routes r s).1.proxy.routes ≡ some route
  unfolding handle_routes register_route InMem.register_route text_eq bytes
  post_stores s r f route method kind parsed =
      rw (method, kind, parsed, respond-keeps f route)
        (lookup-insert_self route.name route s.proxy.routes)

  put_stores :
      (s : Serving) (r : ApiRequest) (f : Format) (route : Route)
      → r.method ≡ bytes "PUT"
      → by_content_type r.content_type ≡ some f
      → c.decode f r.body ≡ ok route
      → lookup route.name (handle_route r s).1.proxy.routes ≡ some route
  unfolding handle_route update_route InMem.update_route text_eq bytes
  put_stores s r f route method kind parsed =
      rw (method, kind, parsed, respond-keeps f route)
        (lookup-insert_self route.name route s.proxy.routes)

  name_of-append :
      (name : Text) (r : ApiRequest) → r.path ≡ bytes "/v1alpha1/routes/" ++ name → name_of r ≡ name
  unfolding trim_prefix
  name_of-append name r h =
      rw (h, has_prefix-append (bytes "/v1alpha1/routes/") name)
        (text_drop-append (bytes "/v1alpha1/routes/") name)

  -- What a GET of a stored route writes.
  get_stored :
      (s : Serving) (r : ApiRequest) (route : Route) (text : Text)
      → r.method ≡ bytes "GET"
      → r.path ≡ bytes "/v1alpha1/routes/" ++ route.name
      → lookup route.name s.proxy.routes ≡ some route
      → c.encode (by_accept r.accept) route ≡ ok text
      → handle_route r s ≡ reply (pos 200) text s
  unfolding handle_route get_route InMem.get_route text_eq respond bytes
  get_stored s r route text method path stored encoded =
      rw (method, name_of-append route.name r path) (rw (stored, encoded) (ground arith))

  -- A route that is sent in a POST, or in a PUT whatever its path says, is what a later GET of its
  -- name returns, with the status 200 and in the format that the GET accepts, also if the answer
  -- to the first request could not be written. It supposes that the route can be encoded in that
  -- format, and that the writer of the GET is new.
  pub stored_then_got :
      (s : Serving) (post put : ApiRequest) (r : ApiRequest) (f : Format) (route : Route)
      (text : Text) (w : Writer)
      → post.method ≡ bytes "POST"
      → put.method ≡ bytes "PUT"
      → by_content_type post.content_type ≡ some f
      → by_content_type put.content_type ≡ some f
      → c.decode f post.body ≡ ok route
      → c.decode f put.body ≡ ok route
      → r.method ≡ bytes "GET"
      → r.path ≡ bytes "/v1alpha1/routes/" ++ route.name
      → c.encode (by_accept r.accept) route ≡ ok text
      → w.status ≡ none
      → w.body ≡ []
      → let a = (handle_route r (record (handle_routes post s).1 { writer = w })).1.writer in
        let b = (handle_route r (record (handle_route put s).1 { writer = w })).1.writer in
        ((a.status ≡ some (pos 200)) × (a.body ≡ text))
        × ((b.status ≡ some (pos 200)) × (b.body ≡ text))
  stored_then_got s post put r f route text w is_post is_put post_kind put_kind post_body put_body
        is_get path encoded fresh empty =
      let stored = post_stores s post f route is_post post_kind post_body in
      let updated = put_stores s put f route is_put put_kind put_body in
      rw
        (
          get_stored (record (handle_routes post s).1 { writer = w }) r route text is_get path
              stored encoded,
          get_stored (record (handle_route put s).1 { writer = w }) r route text is_get path updated
              encoded,
          fresh,
          empty,
        )
        ((refl, refl), (refl, refl))
