-- ===== src/Deployment.antt =====
-- api/v1alpha1/deployment: the ModelDeployment resource. `M` is the type of the metric
-- specifications, which the controller hands on without looking into them.
use beamlit_controller.Base.{Bool, Option, List, Text, Dict, ℤ}

-- corev1.ObjectReference, as far as it is read
pub record ObjectReference : Type 0 where
  pub kind : Text
  pub namespace : Text
  pub name : Text
  pub api_version : Text

pub record ServiceReference : Type 0 where
  pub kind : Text
  pub namespace : Text
  pub name : Text
  pub target_port : ℤ

pub data PolicyRefType : Type 0 where
  remote_policy local_policy : PolicyRefType
  other : Text → PolicyRefType

pub record PolicyRef : Type 0 where
  pub ref_type : PolicyRefType
  pub ref : ObjectReference
  pub name : Text

pub record ServerlessConfig : Type 0 where
  pub min_num_replicas : ℤ
  pub max_num_replicas : ℤ
  pub metric : Option Text
  pub target : Option Text
  pub scale_up_minimum : Option ℤ
  pub scale_down_delay : Option Text
  pub stable_window : Option Text
  pub last_pod_retention_period : Option Text

pub record OAuthConfig : Type 0 where
  pub client_id : Text
  pub client_secret : Text
  pub token_url : Text

pub data AuthType : Type 0 where
  oauth : AuthType
  other : Text → AuthType

pub record AuthConfig : Type 0 where
  pub type : AuthType
  pub oauth_config : Option OAuthConfig

pub record RemoteBackend : Type 0 where
  pub host : Text
  pub auth_config : Option AuthConfig
  pub path_prefix : Text
  pub headers_to_add : Dict Text Text
  pub scheme : Text

pub record OffloadingBehavior : Type 0 where
  pub percentage : ℤ

pub record OffloadingConfig (M : Type 0) : Type 0 where
  pub remote_backend : Option RemoteBackend
  pub metrics : List M
  pub behavior : Option OffloadingBehavior

pub record ModelDeploymentSpec (M : Type 0) : Type 0 where
  pub model : Text
  pub enabled : Bool
  pub model_source_ref : ObjectReference
  pub service_ref : Option ServiceReference
  pub metric_service_ref : Option ServiceReference
  pub environment : Text
  pub policies : List PolicyRef
  pub serverless_config : Option ServerlessConfig
  pub offloading_config : Option (OffloadingConfig M)

-- Times are the seconds that `time.Parse` gives.
pub record ModelDeploymentStatus : Type 0 where
  pub offloading_status : Bool
  pub serving_port : ℤ
  pub metric_port : ℤ
  pub workspace : Text
  pub created_at_on_beamlit : ℤ
  pub updated_at_on_beamlit : ℤ

-- `deleting` says that the deletion timestamp is set.
pub record ModelDeployment (M : Type 0) : Type 0 where
  pub namespace : Text
  pub name : Text
  pub generation : ℤ
  pub deleting : Bool
  pub finalizers : List Text
  pub labels : Dict Text Text
  pub spec : ModelDeploymentSpec M
  pub status : ModelDeploymentStatus
