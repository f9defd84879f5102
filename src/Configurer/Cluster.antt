-- ===== src/Configurer/Cluster.antt =====
-- The services and endpoint slices of the cluster, as far as the configurer reads and writes them.
-- `W` is the state of the cluster.
use beamlit_controller.Base.{
  ℕ, Bool, true, Option, List, Text, Text_Eq, text_eq_iff, Dict, ℤ, Act, Eq, ◌&&◌, ◌==◌, ◌↔◌, ◌≡◌,
  arith,
}

-- types.NamespacedName
pub record NamespacedName : Type 0 where
  pub namespace : Text
  pub name : Text

abbrev pub same_name : NamespacedName → NamespacedName → Bool
same_name a b = a.namespace == b.namespace && a.name == b.name

pub same_name_iff : (a b : NamespacedName) → (same_name a b ≡ true) ↔ (a ≡ b)
same_name_iff a b = ground (arith, text_eq_iff a.namespace b.namespace, text_eq_iff a.name b.name)

instance abbrev pub NamespacedName_Eq : Eq NamespacedName
NamespacedName_Eq = record { equals = same_name; equals_iff = same_name_iff }

-- corev1.ServicePort; the target port is its IntVal.
pub record ServicePort : Type 0 where
  pub name : Text
  pub port : ℤ
  pub protocol : Text
  pub target_port : ℤ

pub record Service : Type 0 where
  pub namespace : Text
  pub name : Text
  pub ports : List ServicePort
  pub selector : Dict Text Text
  pub cluster_ips : List Text
  pub external_ips : List Text

-- discoveryv1.Endpoint, EndpointPort and EndpointSlice
pub record Endpoint : Type 0 where
  pub addresses : List Text
  pub ready : Option Bool
  pub serving : Option Bool
  pub terminating : Option Bool
  pub hostname : Option Text
  pub node_name : Option Text

pub record SlicePort : Type 0 where
  pub name : Option Text
  pub port : Option ℤ
  pub protocol : Option Text

pub record Slice : Type 0 where
  pub namespace : Text
  pub name : Text
  -- without entries where the map is nil: a slice that is read without labels has no map
  pub labels : Dict Text Text
  pub address_type : Text
  pub endpoints : List Endpoint
  pub ports : List SlicePort

pub record Kube (W : Type 0) : Type 0 where
  -- Services(namespace): Get, Apply, Update and Delete
  pub get_service : Text → Text → Act W Service
  pub apply_service : Service → Act W Service
  pub update_service : Text → Service → Act W (Unit {0})
  pub delete_service : Text → Text → Act W (Unit {0})
  -- EndpointSlices(namespace): List by the label kubernetes.io/service-name, Get, Update, Apply, Delete
  pub list_slices : Text → Text → Act W (List Slice)
  pub get_slice : Text → Text → Act W Slice
  pub update_slice : Text → Slice → Act W (Unit {0})
  pub apply_slice : Slice → Act W (Unit {0})
  pub delete_slice : Text → Text → Act W (Unit {0})
  -- whether the context is done, and time.Sleep in milliseconds
  pub is_done : W → Bool
  pub sleep : ℕ → W → W
