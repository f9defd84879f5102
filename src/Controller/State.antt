-- ===== src/Controller/State.antt =====
-- The reconciler's state, and what it calls: the cluster, Beamlit, and the four components behind
-- the Go interfaces Configurer, Offloader, MetricInformer and HealthInformer. `W` is the state of
-- all of these, and `M` the type of the metric specifications.
use beamlit_controller.Base.{
  ℕ, Bool, Option, List, ◌++◌, Text, bytes, Dict, ℤ, Act, Result, insert, delete, modify, Text_Eq,
}
use beamlit_controller.Deployment.{
  ObjectReference, ServiceReference, RemoteBackend, ModelDeployment,
}

pub record ManagedModel : Type 0 where
  pub namespace : Text
  pub name : Text
  pub healthy : Bool
  pub last_generation : ℤ

pub record Reconciler (W : Type 0) : Type 0 where
  pub ongoing_offloadings : Dict Text ℤ
  pub model_state : Dict Text Bool
  pub managed_models : Dict Text ManagedModel
  pub beamlit_models : Dict Text Text
  pub default_remote_backend : Option RemoteBackend
  pub world : W

-- The metadata of the model that Beamlit returns.
pub record BeamlitMetadata : Type 0 where
  pub workspace : Option Text
  pub created_at : Option Text
  pub updated_at : Option Text

pub record Deps (W M B : Type 0) : Type 0 where
  -- the cluster: Get, Update and Status().Update of a ModelDeployment
  pub get_model : Text → Text → Act W (ModelDeployment M)
  pub update_model : ModelDeployment M → Act W (Unit {0})
  pub update_status : ModelDeployment M → Act W (Unit {0})
  -- controllerutil.ContainsFinalizer, AddFinalizer and RemoveFinalizer for the controller's finalizer
  pub contains_finalizer : ModelDeployment M → Bool
  pub add_finalizer : ModelDeployment M → ModelDeployment M
  pub remove_finalizer : ModelDeployment M → ModelDeployment M
  -- helper.RetrievePodPort and helper.ToBeamlitModelDeployment with CreateOrUpdateModel
  pub retrieve_pod_port : ServiceReference → Act W ℤ
  pub convert : ModelDeployment M → Act W B
  pub create_or_update : B → Act W (Option BeamlitMetadata)
  pub delete_deployment : Text → Text → Act W (Unit {0})
  pub notify_offloading : Text → Text → Bool → Act W (Unit {0})
  -- time.Parse(time.RFC3339, s)
  pub parse_time : Text → Result ℤ
  -- Configurer
  pub configure_service : Option ServiceReference → Act W (Unit {0})
  pub unconfigure_service : Option ServiceReference → Act W (Unit {0})
  pub get_local_service : Option ServiceReference → Act W ServiceReference
  -- Offloader
  pub offload : ModelDeployment M → ServiceReference → Option RemoteBackend → ℤ → Act W (Unit {0})
  pub cleanup : ModelDeployment M → Act W (Unit {0})
  -- MetricInformer and HealthInformer
  pub register_metrics : Text → List M → ObjectReference → ℕ → ℕ → Act W (Unit {0})
  pub unregister_metrics : Text → Act W (Unit {0})
  pub register_health : Text → ObjectReference → Act W (Unit {0})
  pub unregister_health : Text → Act W (Unit {0})

-- fmt.Sprintf("%s/%s", a, b)
unfoldable pub join_key : Text → Text → Text
join_key a b = a ++ bytes "/" ++ b

unfoldable pub key : {M : Type 0} → ModelDeployment M → Text
key m = join_key m.namespace m.name

module _ {W A : Type 0} where
  -- A call of what stands outside the reconciler.
  abbrev pub call : Act W A → Act (Reconciler W) A
  call m r = ((m r.world).0, record r { world = (m r.world).1 })

module _ {W : Type 0} where
  abbrev pub store_ongoing : Text → ℤ → Act (Reconciler W) (Unit {0})
  store_ongoing k p =
      modify (λ r. record r { ongoing_offloadings = insert k p r.ongoing_offloadings })

  abbrev pub delete_ongoing : Text → Act (Reconciler W) (Unit {0})
  delete_ongoing k = modify (λ r. record r { ongoing_offloadings = delete k r.ongoing_offloadings })

  abbrev pub store_state : Text → Bool → Act (Reconciler W) (Unit {0})
  store_state k b = modify (λ r. record r { model_state = insert k b r.model_state })

  abbrev pub delete_state : Text → Act (Reconciler W) (Unit {0})
  delete_state k = modify (λ r. record r { model_state = delete k r.model_state })

  abbrev pub store_managed : Text → ManagedModel → Act (Reconciler W) (Unit {0})
  store_managed k v = modify (λ r. record r { managed_models = insert k v r.managed_models })

  abbrev pub delete_managed : Text → Act (Reconciler W) (Unit {0})
  delete_managed k = modify (λ r. record r { managed_models = delete k r.managed_models })

  abbrev pub store_beamlit : Text → Text → Act (Reconciler W) (Unit {0})
  store_beamlit k v = modify (λ r. record r { beamlit_models = insert k v r.beamlit_models })

  abbrev pub delete_beamlit : Text → Act (Reconciler W) (Unit {0})
  delete_beamlit k = modify (λ r. record r { beamlit_models = delete k r.beamlit_models })
