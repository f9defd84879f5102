-- ===== src/Beamlit/Tests.antt =====
-- Tests of the credentials, with tokens that are their own decoding.
use beamlit_controller.Base.{[], Text, bytes, text_eq, Result, ok, err, failure, ◌≡◌, ◌↔◌, refl}
use beamlit_controller.Beamlit.Credentials.{IsPair, IsUrl, credentials_read}
use beamlit_controller.Beamlit.Token.{Environment, Credentials, retrieve_info_from_env}

abbrev plain : Text → Result Text
plain t = ok t

abbrev environment : Text → Environment
environment t = record { base_url = []; token = t }

abbrev known : Credentials
known = record {
  client_id = bytes "id";
  client_secret = bytes "s";
  base_url = bytes "https://api.beamlit.com/v0";
}

credentials_read_example :
    (retrieve_info_from_env plain (environment (bytes "id:s")) ≡ ok known)
    ↔ (IsPair known (bytes "id:s") × IsUrl (environment (bytes "id:s")) known.base_url)
unfolding bytes
credentials_read_example =
    credentials_read plain (environment (bytes "id:s")) (bytes "id:s") (λ h. cc) refl known

two_colons :
    retrieve_info_from_env plain (environment (bytes "id:s:x"))
    ≡ err (failure "invalid Beamlit token format")
unfolding retrieve_info_from_env bytes text_eq
two_colons = refl

-- The token of an environment without one is asked for at a relative URL.
no_token :
    (b : Text)
    → retrieve_info_from_env plain (record { base_url = b; token = [] })
      ≡ ok (record { client_id = []; client_secret = []; base_url = [] })
unfolding retrieve_info_from_env text_eq
no_token b = refl
