-- ===== src/Beamlit/Login.antt =====
-- BeamlitToken of internal/beamlit/auth_utils.go and NewClient of client.go: the credentials with
-- which the client of Beamlit logs in. The HTTP client of the package clientcredentials stands for
-- the configuration that it is built from.
use beamlit_controller.Base.{Option, none, some, Text, Act, Result, ok, pure, lift, ◌>>=◌, ◌>>◌}
use beamlit_controller.Beamlit.Token.{
  Environment, Credentials, base_url_of, retrieve_info_from_env, token_url,
}

-- clientcredentials.Config; the style of authentication is always the header.
pub record ClientCredentials : Type 0 where
  pub client_id : Text
  pub client_secret : Text
  pub token_url : Text

pub record BeamlitToken : Type 0 where
  pub credentials : Credentials
  pub cfg : Option ClientCredentials

abbrev pub oauth_config : Credentials → ClientCredentials
oauth_config c = record {
  client_id = c.client_id;
  client_secret = c.client_secret;
  token_url = token_url c;
}

-- if b.cfg == nil { b.cfg = … }
abbrev pub or_new : Credentials → Option ClientCredentials → ClientCredentials
or_new c none = oauth_config c
or_new c (some k) = k

unfoldable pub configured : Act BeamlitToken ClientCredentials
configured b = let k = or_new b.credentials b.cfg in (ok k, record b { cfg = some k })

-- The state of the login service and the token.
pub record Session (W : Type 0) : Type 0 where
  pub token : BeamlitToken
  pub world : W

module _ {W : Type 0} where
  abbrev pub on_token : {A : Type 0} → Act BeamlitToken A → Act (Session W) A
  on_token m s = ((m s.token).0, record s { token = (m s.token).1 })

  -- `request` asks the URL of the token for an access token.
  unfoldable pub get_token : (ClientCredentials → Act W Text) → Act (Session W) Text
  unfolding configured
  get_token request = do
    k ← on_token configured
    (λ s. ((request k s.world).0, record s { world = (request k s.world).1 }))

module _ (decode : Text → Result Text) where
  unfoldable pub new_beamlit_token : Environment → Result BeamlitToken
  new_beamlit_token e = elim (retrieve_info_from_env decode e) [
    | ok c ↦ ok (record { credentials = c; cfg = none })
    | Result.err x ↦ Result.err x
    | Result.panic ↦ Result.panic
  ]

  -- The URL under which the client calls Beamlit.
  unfoldable pub new_client :
      {W : Type 0} → (Text → ClientCredentials → Act W (Unit {0})) → Environment → Act W Text
  unfolding configured new_beamlit_token
  new_client new_sdk e = do
    b ← lift (new_beamlit_token e)
    k ← lift (configured b).0
    new_sdk (base_url_of e) k
    pure (base_url_of e)
