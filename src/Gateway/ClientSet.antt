-- ===== src/Gateway/ClientSet.antt =====
-- gateway/clientset: the client of the API of the gateway, and gateway/api/router.go: what the API
-- answers it. The status of an answer is not looked at.
use beamlit_controller.Base.{
  [], ◌++◌, Text, Text_Eq, bytes, has_prefix, Act, Result, pos, lift, ◌>>=◌, ◌==◌, if◌then◌else◌,
}
use beamlit_controller.Gateway.Types.{Route}
use beamlit_controller.Gateway.Api.{Codec, ApiRequest, Serving, reply, handle_route, handle_routes}

-- A request as it is built, with the headers Accept and Content-Type.
pub record ClientRequest : Type 0 where
  pub method : Text
  pub url : Text
  pub accept : Text
  pub content_type : Text
  pub body : Text

-- net/http: NewRequestWithContext and Do, up to the body of the answer; json.Marshal, and
-- json.Decoder.
pub record HttpClient (W : Type 0) : Type 0 where
  pub exchange : ClientRequest → Act W Text
  pub marshal : Route → Result Text
  pub decode : Text → Result Route

abbrev pub route_path : Text
route_path = bytes "v1alpha1/routes"

-- fmt.Sprintf("http://%s/%s", addr, path)
unfoldable pub url_of : Text → Text → Text
url_of addr path = bytes "http://" ++ addr ++ (bytes "/" ++ path)

module _ {W : Type 0} (c : HttpClient W) (addr : Text) where
  unfoldable pub get_route : Text → Act W Route
  get_route name = do
    text ← c.exchange (record {
      method = bytes "GET";
      url = url_of addr (route_path ++ bytes "/" ++ name);
      accept = bytes "application/json";
      content_type = [];
      body = [];
    })
    lift (c.decode text)

  unfoldable pub register_route : Route → Act W Route
  register_route route = do
    body ← lift (c.marshal route)
    text ← c.exchange (record {
      method = bytes "POST";
      url = url_of addr route_path;
      accept = [];
      content_type = bytes "application/json";
      body = body;
    })
    lift (c.decode text)

  unfoldable pub delete_route : Text → Act W Route
  delete_route name = do
    text ← c.exchange (record {
      method = bytes "DELETE";
      url = url_of addr (route_path ++ bytes "/" ++ name);
      accept = bytes "application/json";
      content_type = [];
      body = [];
    })
    lift (c.decode text)

  unfoldable pub update_route : Route → Act W Route
  update_route route = do
    body ← lift (c.marshal route)
    text ← c.exchange (record {
      method = bytes "PUT";
      url = url_of addr (route_path ++ bytes "/" ++ route.name);
      accept = bytes "application/json";
      content_type = bytes "application/json";
      body = body;
    })
    lift (c.decode text)

-- The handlers that RegisterRoutesV1Alpha1 and Run put under the paths. A path that http.ServeMux
-- would clean first, one with empty or dotted segments, is taken as it is.
module _ (codec : Codec) where
  unfoldable pub serve : ApiRequest → Act Serving (Unit {0})
  serve r =
      if r.path == bytes "/v1alpha1/routes"
      then handle_routes codec r
      else if has_prefix r.path (bytes "/v1alpha1/routes/")
      then handle_route codec r
      else if r.path == bytes "/healthz"
      then reply (pos 200) []
      else reply (pos 404) (bytes "404 page not found\n")
