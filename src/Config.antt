-- ===== src/Config.antt =====
-- internal/config/config.go: the configuration of the operator, its defaults and its validation.
use beamlit_controller.Base.{
  Bool, true, false, Option, none, some, Text, Dict, bytes, ℤ, Act, failure, raise, pure, ◌||◌,
  ◌==◌, [], ◌∷◌, Text_Eq, if◌then◌else◌,
}
use beamlit_controller.Deployment.{AuthConfig}

pub record ProxyServiceConfig : Type 0 where
  pub namespace : Option Text
  pub name : Option Text
  pub port : Option ℤ
  pub admin_port : Option ℤ

pub data MetricInformerType : Type 0 where
  prometheus kubernetes : MetricInformerType
  other : Text → MetricInformerType

-- The address of the Prometheus server stands for its configuration.
pub record MetricInformersConfig : Type 0 where
  pub type : MetricInformerType
  pub prometheus_address : Option Text

pub record DefaultRemoteBackend : Type 0 where
  pub host : Option Text
  pub auth_config : Option AuthConfig
  pub path_prefix : Option Text
  pub headers_to_add : Dict Text Text
  pub scheme : Option Text

-- Without the part Deployment, which nothing reads.
pub record Config : Type 0 where
  pub metrics_addr : Option Text
  pub enable_leader_election : Option Bool
  pub probe_addr : Option Text
  pub secure_metrics : Option Bool
  pub enable_http2 : Option Bool
  pub namespaces : Option Text
  pub metric_informer_config : Option MetricInformersConfig
  pub proxy_service : ProxyServiceConfig
  pub default_remote_backend : DefaultRemoteBackend

abbrev pub is_nil : {A : Type 0} → Option A → Bool
is_nil none = true
is_nil (some a) = false

unfoldable pub validate : Act Config (Unit {0})
validate c =
    if is_nil c.proxy_service.namespace
      || is_nil c.proxy_service.name
      || is_nil c.proxy_service.port
      || is_nil c.proxy_service.admin_port
    then raise (failure "proxy service is not configured") c
    else pure tt c

unfoldable pub default : Config → Config
default c = record c {
  enable_http2 = some false;
  secure_metrics = some false;
  namespaces = some (bytes "default");
  enable_leader_election = some false;
  metrics_addr = some (bytes ":8080");
  probe_addr = some (bytes ":8081");
  metric_informer_config = some (record { type = kubernetes; prometheus_address = none });
}

-- strings.HasSuffix
unfoldable pub has_suffix : Text → Text → Bool
has_suffix [] s = [] == s
has_suffix (b ∷ bs) s = let rest = has_suffix bs s in (b ∷ bs) == s || rest

-- The decoders of YAML and JSON overwrite what the text gives.
module _ (from_yaml from_json : Text → Act Config (Unit {0})) where
  unfoldable pub from_file : Text → Text → Act Config (Unit {0})
  unfolding has_suffix
  from_file name text =
      if has_suffix name (bytes ".yaml") || has_suffix name (bytes ".yml")
      then from_yaml text
      else from_json text
