-- ===== src/Configurer/State.antt =====
-- kubernetesConfigurer, Start and GetLocalBeamlitService.
use beamlit_controller.Base.{
  Option, none, some, List, [], ◌∷◌, ◌++◌, Text, Text_Eq, Dict, lookup, insert, Act, failure, pure,
  raise, gets, deref, modify, ◌>>=◌,
}
use beamlit_controller.Deployment.{ServiceReference}
use beamlit_controller.Configurer.Cluster.{NamespacedName, NamespacedName_Eq}

-- A channel without a buffer: nothing is sent on it, a sender waits on it, or it is closed.
pub data Channel : Type 0 where
  idle sending closed : Channel

pub record Configurer (W : Type 0) : Type 0 where
  pub gateway_service_ref : Option ServiceReference
  pub beamlit_services : Dict NamespacedName NamespacedName
  pub initial_endpoints : Dict NamespacedName (List NamespacedName)
  pub stop_chans : Dict NamespacedName (List Channel)
  pub world : W

abbrev pub name_of : ServiceReference → NamespacedName
name_of s = record { namespace = s.namespace; name = s.name }

-- m[k], where a key that is missing reads as an empty value
abbrev pub or_empty : {A : Type 0} → Option (List A) → List A
or_empty none = []
or_empty (some x) = x

unfoldable pub label : Text → Dict Text Text → Text
label k labels = or_empty (lookup k labels)

module _ {W A : Type 0} where
  abbrev pub kube : Act W A → Act (Configurer W) A
  kube m c = ((m c.world).0, record c { world = (m c.world).1 })

-- stopWatchers: what its loop makes of the channels. A channel without a sender ends the loop.
unfoldable pub stop_loop : List Channel → List Channel
stop_loop [] = []
stop_loop (idle ∷ cs) = idle ∷ cs
stop_loop (sending ∷ cs) = closed ∷ stop_loop cs
stop_loop (closed ∷ cs) = closed ∷ stop_loop cs

module _ {W : Type 0} where
  unfoldable pub start : ServiceReference → Act (Configurer W) (Unit {0})
  start gateway = modify (λ c. record c { gateway_service_ref = some gateway })

  -- s.gatewayServiceRef, read through
  abbrev pub gateway_ref : Act (Configurer W) ServiceReference
  gateway_ref = do o ← gets (λ c. c.gateway_service_ref); deref o

  abbrev pub local_service :
      ServiceReference → Option NamespacedName → Act (Configurer W) ServiceReference
  local_service s none = raise (failure "proxy service not found for model service")
  local_service s (some ref) = pure (record {
    kind = [];
    namespace = ref.namespace;
    name = ref.name;
    target_port = s.target_port;
  })

  unfoldable pub get_local_beamlit_service : ServiceReference → Act (Configurer W) ServiceReference
  get_local_beamlit_service s = do
    ref ← gets (λ c. lookup (name_of s) c.beamlit_services)
    local_service s ref

  -- append(s.stopChans[key], make(chan bool))
  abbrev pub add_stop_chan : NamespacedName → Act (Configurer W) (Unit {0})
  add_stop_chan k = modify (λ c. record c {
    stop_chans = insert k (or_empty (lookup k c.stop_chans) ++ idle ∷ []) c.stop_chans;
  })

  abbrev pub stop_all : NamespacedName → Option (List Channel) → Act (Configurer W) (Unit {0})
  stop_all k none = raise (failure "stop channel not found")
  stop_all k (some cs) =
      modify (λ c. record c { stop_chans = insert k (stop_loop cs) c.stop_chans })

  unfoldable pub stop_watchers : ServiceReference → Act (Configurer W) (Unit {0})
  unfolding stop_loop
  stop_watchers s = do
    chans ← gets (λ c. lookup (name_of s) c.stop_chans)
    stop_all (name_of s) chans
