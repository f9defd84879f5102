-- ===== src/Controller/Reconcile.antt =====
-- Reconcile and what it is made of: createOrUpdate, configureOffloading and finalizeModel.
use beamlit_controller.Base.{
  Bool, true, false, not, ◌||◌, Option, none, some, Text, bytes, ◌++◌, Act, Error, not_found,
  conflict, ℤ, pos, pure, raise, lift, gets, deref, catch, ◌>>=◌, ◌>>◌, ◌==◌, Text_Eq, ℤ_Eq, lookup,
  if◌then◌else◌,
}
use beamlit_controller.Deployment.{ServiceReference, OffloadingConfig, ModelDeployment}
use beamlit_controller.Controller.State.{
  ManagedModel, Reconciler, Deps, join_key, key, call, store_ongoing, delete_ongoing, store_state,
  delete_state, store_managed, delete_managed, store_beamlit, delete_beamlit,
}
use beamlit_controller.Controller.Callbacks.{with_default}

-- ctrl.Result
pub record ReconcileResult : Type 0 where
  pub requeue : Bool

abbrev pub done : ReconcileResult
done = record { requeue = false }

abbrev pub is_not_found : Error → Bool
is_not_found not_found = true
is_not_found _ = false

abbrev pub is_conflict : Error → Bool
is_conflict conflict = true
is_conflict _ = false

-- Another resource of the cluster has the model on Beamlit.
abbrev pub is_taken : Option Text → Text → Bool
is_taken none name = false
is_taken (some value) name = not (value == name)

abbrev pub is_current : Option ManagedModel → ℤ → Bool
is_current none generation = false
is_current (some value) generation = value.last_generation == generation

abbrev pub is_none : {A : Type 0} → Option A → Bool
is_none none = true
is_none (some _) = false

module _ {W M B : Type 0} (d : Deps W M B) where
  unfoldable pub port_of : Option ServiceReference → ℤ → Act (Reconciler W) ℤ
  port_of none port = pure port
  port_of (some ref) port = call (d.retrieve_pod_port ref)

  -- What stands before and what stands after the test of the offloading configuration.
  unfoldable pub tear_down : ModelDeployment M → Act (Reconciler W) (Unit {0})
  tear_down m = do
    call (d.unregister_health (key m))
    call (d.unregister_metrics (key m))
    call (d.unconfigure_service m.spec.service_ref)
    call (d.cleanup m)
    delete_ongoing (key m)
    delete_state (key m)
    delete_managed (key m)

  unfoldable pub set_up : ModelDeployment M → Act (Reconciler W) (ModelDeployment M)
  set_up found = do
    m ← with_default found
    call (d.configure_service m.spec.service_ref)
    store_ongoing (key m) (pos 0)
    store_state (key m) true
    config ← deref m.spec.offloading_config
    call (d.register_metrics (key m) config.metrics m.spec.model_source_ref 5000000000 5000000000)
    call (d.register_health (key m) m.spec.model_source_ref)
    service ← deref m.spec.service_ref
    let backend = record service { name = service.name ++ bytes "-beamlit" }
    call (d.offload m backend config.remote_backend (pos 0))
    pure m

  unfoldable pub configure_offloading : ModelDeployment M → Act (Reconciler W) (ModelDeployment M)
  configure_offloading m = do
    tear_down m
    if not m.spec.enabled || is_none m.spec.offloading_config then pure m else set_up m

  -- createOrUpdate, once the model is known to be this resource's and of a new generation.
  unfoldable pub install : ModelDeployment M → Act (Reconciler W) (Unit {0})
  install m = do
    serving ← port_of m.spec.service_ref m.status.serving_port
    metric ← port_of m.spec.metric_service_ref m.status.metric_port
    let ports = record m.status { serving_port = serving; metric_port = metric }
    beamlit ← call (d.convert (record m { status = ports }))
    store_beamlit (join_key m.spec.environment m.spec.model) m.name
    reply ← call (d.create_or_update beamlit)
    metadata ← deref reply
    workspace ← deref metadata.workspace
    created ← deref metadata.created_at
    created_at ← lift (d.parse_time created)
    updated ← deref metadata.updated_at
    updated_at ← lift (d.parse_time updated)
    let times = record ports {
      workspace = workspace;
      created_at_on_beamlit = created_at;
      updated_at_on_beamlit = updated_at;
    }
    configured ← configure_offloading (record m { status = times })
    call (d.update_status configured)
    store_managed (key m) (record {
      namespace = m.namespace;
      name = m.name;
      healthy = true;
      last_generation = m.generation;
    })

  unfoldable pub create_or_update : ModelDeployment M → Act (Reconciler W) (Unit {0})
  create_or_update m = do
    value ← gets (λ r. lookup (join_key m.spec.environment m.spec.model) r.beamlit_models)
    if is_taken value m.name then pure tt else do
      managed ← gets (λ r. lookup (key m) r.managed_models)
      if is_current managed m.generation then pure tt else install m

  unfoldable pub finalize_offloading :
      Option (OffloadingConfig M) → ModelDeployment M → Act (Reconciler W) (Unit {0})
  finalize_offloading none m = pure tt
  finalize_offloading (some _) m = do
    call (d.unregister_metrics (key m))
    call (d.unregister_health (key m))
    call (d.unconfigure_service m.spec.service_ref)
    call (d.cleanup m)
    call (d.delete_deployment m.spec.model m.spec.environment)

  unfoldable pub finalize_model : ModelDeployment M → Act (Reconciler W) (Unit {0})
  finalize_model m = do
    delete_beamlit (join_key m.spec.environment m.spec.model)
    delete_ongoing (key m)
    delete_state (key m)
    delete_managed (key m)
    finalize_offloading m.spec.offloading_config m

  -- The answer to an error of createOrUpdate.
  unfoldable pub on_create_error : ModelDeployment M → Error → Act (Reconciler W) ReconcileResult
  on_create_error m e =
      if is_conflict e
      then pure (record { requeue = true })
      else do delete_state (key m); delete_ongoing (key m); delete_managed (key m); raise e

  unfoldable pub reconcile_found : Option (ModelDeployment M) → Act (Reconciler W) ReconcileResult
  reconcile_found none = pure done
  reconcile_found (some m) =
      if m.deleting
      then (if d.contains_finalizer m
          then (do finalize_model m; call (d.update_model (d.remove_finalizer m)); pure done)
          else pure done)
      else if d.contains_finalizer m
      then catch (do create_or_update m; pure done) (on_create_error m)
      else do call (d.update_model (d.add_finalizer m)); pure done

  unfoldable pub reconcile : Text → Text → Act (Reconciler W) ReconcileResult
  reconcile namespace name = do
    found ←
        catch (do m ← call (d.get_model namespace name); pure (some m))
          (λ e. if is_not_found e then pure none else raise e)
    reconcile_found found
