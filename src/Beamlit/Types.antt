-- ===== src/Beamlit/Types.antt =====
-- The resources of Beamlit, and its interface as far as the client uses it. `W` is the state of
-- Beamlit and of the cluster, `T` the type of the pod templates.
use beamlit_controller.Base.{Bool, Option, List, Text, Dict, ℤ, Act, Result}

pub record ModelMetadata : Type 0 where
  pub name : Option Text
  pub environment : Option Text
  pub labels : Option (Dict Text Text)
  pub workspace : Option Text

pub record Serverless : Type 0 where
  pub min_num_replicas : ℤ
  pub max_num_replicas : ℤ
  pub metric : Option Text
  pub target : Option Text
  pub scale_down_delay : Option Text
  pub scale_up_minimum : Option ℤ
  pub stable_window : Option Text
  pub last_pod_retention_period : Option Text

pub record ModelSpec (T : Type 0) : Type 0 where
  pub enabled : Bool
  pub serving_port : ℤ
  pub metric_port : ℤ
  pub policies : List Text
  pub serverless_config : Option Serverless
  pub pod_template : Option T

pub record Model (T : Type 0) : Type 0 where
  pub metadata : Option ModelMetadata
  pub spec : ModelSpec T

-- A flavor or a location.
pub record Choice : Type 0 where
  pub name : Text
  pub type : Text

pub record RemotePolicy : Type 0 where
  pub name : Option Text
  pub display_name : Option Text
  pub workspace : Option Text
  pub type : Option Text
  pub flavors : Option (List Choice)
  pub locations : Option (List Choice)

pub record Response : Type 0 where
  pub status : ℤ
  pub body : Text

pub record Sdk (W T : Type 0) : Type 0 where
  pub get_model : Text → Option Text → Act W Response
  pub create_model : Model T → Act W Response
  pub update_model : Text → Model T → Act W Response
  pub delete_model : Text → Text → Act W Response
  pub get_policy : Text → Act W Response
  pub create_policy : RemotePolicy → Act W Response
  pub update_policy : Text → RemotePolicy → Act W Response
  pub delete_policy : Text → Act W Response
  -- encoding/json
  pub decode_model : Text → Result (Model T)
  pub decode_policy : Text → Result RemotePolicy
