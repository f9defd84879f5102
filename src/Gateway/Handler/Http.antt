-- ===== src/Gateway/Handler/Http.antt =====
-- What net/http and httputil hand to the handlers of gateway/internal/proxy/handler.go.
use beamlit_controller.Base.{
  ℕ, Bool, Option, none, some, List, Text, Text_Eq, Dict, ℤ, ℤ_Eq, Act, Result, modify,
}
use beamlit_controller.Gateway.Types.{OAuth}
use beamlit_controller.Gateway.Proxy.{ProxyState}

-- http.Response; `body` is what the reader holds, and `closed` says that Close was called on it.
pub record Response : Type 0 where
  pub closed : Bool
  pub status_code : ℤ
  pub status : Text
  pub header : Dict Text (List Text)
  pub body : Text

-- http.Request; `response` is nil but for a redirect of a client.
pub record Request : Type 0 where
  pub method : Text
  pub scheme : Text
  pub url_host : Text
  pub path : Text
  pub host : Text
  pub header : Dict Text (List Text)
  pub body : Text
  pub response : Option Response

-- http.ResponseWriter, as far as it was written
pub record Writer : Type 0 where
  pub header : Dict Text (List Text)
  pub status : Option ℤ
  pub body : Text

pub record Net (W : Type 0) : Type 0 where
  -- the access token that clientcredentials fetches
  pub fetch_token : OAuth → Act W Text
  -- rand.Intn, time.Sleep in milliseconds
  pub intn : ℤ → Act W ℤ
  pub sleep : ℕ → W → W
  -- http.NewRequest with the method, the parsed URL and the body of a request
  pub new_request : Request → Result Request
  -- http.DefaultClient.Do, and the body that io.Copy reads
  pub send : Request → Act W Response
  pub copy_body : Response → Act W Text
  -- http.Header.Set and Add, which put the key into its canonical form
  pub set_header : Text → Text → Dict Text (List Text) → Dict Text (List Text)
  pub add_header : Text → Text → Dict Text (List Text) → Dict Text (List Text)
  -- what SetXForwarded makes of the headers of the outgoing request, from the incoming one
  pub x_forwarded : Request → Dict Text (List Text) → Dict Text (List Text)

-- The proxy, the request that is changed, what is written to the client, and the world.
pub record Exchange (W : Type 0) : Type 0 where
  pub proxy : ProxyState
  pub request : Request
  pub writer : Writer
  pub world : W

module _ {W A : Type 0} where
  abbrev pub outside : Act W A → Act (Exchange W) A
  outside m e = ((m e.world).0, record e { world = (m e.world).1 })

  abbrev pub in_proxy : Act ProxyState A → Act (Exchange W) A
  in_proxy m e = ((m e.proxy).0, record e { proxy = (m e.proxy).1 })

module _ {W : Type 0} where
  abbrev pub change : (Request → Request) → Act (Exchange W) (Unit {0})
  change f = modify (λ e. record e { request = f e.request })

-- Only the first call of WriteHeader counts.
abbrev pub written_status : Option ℤ → ℤ → Option ℤ
written_status none code = some code
written_status (some first) code = some first
