-- ===== src/Beamlit/Token.antt =====
-- auth_utils.go and client.go of internal/beamlit: what the environment says of the client.
use beamlit_controller.Base.{
  ℕ, List, [], ◌∷◌, ◌++◌, Text, Text_Eq, bytes, Result, ok, err, panic, failure, ◌==◌,
  if◌then◌else◌, nat_eq,
}

-- The variables of the environment; one that is not set reads as empty.
pub record Environment : Type 0 where
  pub base_url : Text
  pub token : Text

pub record Credentials : Type 0 where
  pub client_id : Text
  pub client_secret : Text
  pub base_url : Text

abbrev pub default_base_url : Text
default_base_url = bytes "https://api.beamlit.com/v0"

abbrev pub base_url_of : Environment → Text
base_url_of e = if e.base_url == [] then default_base_url else e.base_url

abbrev pub onto_first : ℕ → List Text → List Text
onto_first b [] = (b ∷ []) ∷ []
onto_first b (part ∷ parts) = (b ∷ part) ∷ parts

-- strings.Split on a separator of one byte
unfoldable pub split : ℕ → Text → List Text
split separator [] = [] ∷ []
split separator (b ∷ bs) =
    let rest = split separator bs in if nat_eq b separator then [] ∷ rest else onto_first b rest

abbrev pub credentials : Text → List Text → Result Credentials
credentials url (i ∷ s ∷ []) = ok (record { client_id = i; client_secret = s; base_url = url })
credentials url _ = err (failure "invalid Beamlit token format")

-- `decode` is base64.StdEncoding.DecodeString.
module _ (decode : Text → Result Text) where
  abbrev pub decoded : Text → Result Text → Result Credentials
  decoded url (ok t) = credentials url (split 58 t)
  decoded url (err e) = err (failure "failed to decode Beamlit token")
  decoded url panic = panic

  unfoldable pub retrieve_info_from_env : Environment → Result Credentials
  unfolding split
  retrieve_info_from_env e =
      if e.token == []
      then ok (record { client_id = []; client_secret = []; base_url = [] })
      else decoded (base_url_of e) (decode e.token)

-- The configuration of the client of the token: fmt.Sprintf("%s/oauth/token", b.baseURL)
unfoldable pub token_url : Credentials → Text
token_url c = c.base_url ++ bytes "/oauth/token"
