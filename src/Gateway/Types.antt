-- ===== src/Gateway/Types.antt =====
-- gateway/api/v1alpha1: routes and their backends.
use beamlit_controller.Base.{Option, List, Text, Dict, ℤ}

pub data AuthType : Type 0 where
  oauth : AuthType
  other : Text → AuthType

pub record OAuth : Type 0 where
  pub client_id : Text
  pub client_secret : Text
  pub token_url : Text

pub record Auth : Type 0 where
  pub type : AuthType
  pub oauth : Option OAuth

pub record Backend : Type 0 where
  pub host : Text
  pub weight : ℤ
  pub auth : Option Auth
  pub path_prefix : Text
  pub headers_to_add : Dict Text Text
  pub scheme : Text

pub record Route : Type 0 where
  pub name : Text
  pub hostnames : List Text
  pub backends : List Backend
