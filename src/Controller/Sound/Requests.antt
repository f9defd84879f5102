-- ===== src/Controller/Sound/Requests.antt =====
-- Reconcile keeps the invariant.
use beamlit_controller.Base.{Option, none, some, Text, ℤ, Text_Eq, Error}
use beamlit_controller.Base.Keeps.{Keeps}
use beamlit_controller.Deployment.{ServiceReference, ModelDeployment, OffloadingConfig}
use beamlit_controller.Controller.State.{Deps}
use beamlit_controller.Controller.Sound.{IsSound, with_default-IsSound, sound_rules}
use beamlit_controller.Controller.Reconcile.{
  port_of, tear_down, set_up, configure_offloading, install, create_or_update, finalize_offloading,
  finalize_model, on_create_error, reconcile_found, reconcile,
}

module _ {W M B : Type 0} (d : Deps W M B) where
  port_of-IsSound : (o : Option ServiceReference) (p : ℤ) → Keeps IsSound (port_of d o p)
  unfolding port_of
  port_of-IsSound none p = search sound_rules
  port_of-IsSound (some ref) p = search sound_rules

  tear_down-IsSound : (m : ModelDeployment M) → Keeps IsSound (tear_down d m)
  unfolding tear_down
  tear_down-IsSound m = search sound_rules depth 12

  set_up-IsSound : (m : ModelDeployment M) → Keeps IsSound (set_up d m)
  unfolding set_up
  set_up-IsSound m = search (sound_rules, with_default-IsSound) depth 16

  configure_offloading-IsSound : (m : ModelDeployment M) → Keeps IsSound (configure_offloading d m)
  unfolding configure_offloading
  configure_offloading-IsSound m = search (sound_rules, tear_down-IsSound, set_up-IsSound)

  install-IsSound : (m : ModelDeployment M) → Keeps IsSound (install d m)
  unfolding install
  install-IsSound m = search (sound_rules, port_of-IsSound, configure_offloading-IsSound) depth 40

  create_or_update-IsSound : (m : ModelDeployment M) → Keeps IsSound (create_or_update d m)
  unfolding create_or_update
  create_or_update-IsSound m = search (sound_rules, install-IsSound)

  finalize_offloading-IsSound :
      (o : Option (OffloadingConfig M)) (m : ModelDeployment M)
      → Keeps IsSound (finalize_offloading d o m)
  unfolding finalize_offloading
  finalize_offloading-IsSound none m = search sound_rules
  finalize_offloading-IsSound (some c) m = search sound_rules depth 12

  finalize_model-IsSound : (m : ModelDeployment M) → Keeps IsSound (finalize_model d m)
  unfolding finalize_model
  finalize_model-IsSound m = search (sound_rules, finalize_offloading-IsSound) depth 12

  on_create_error-IsSound :
      (m : ModelDeployment M) (e : Error) → Keeps IsSound (on_create_error d m e)
  unfolding on_create_error
  on_create_error-IsSound m e = search sound_rules depth 12

  reconcile_found-IsSound : (o : Option (ModelDeployment M)) → Keeps IsSound (reconcile_found d o)
  unfolding reconcile_found
  reconcile_found-IsSound none = search sound_rules
  reconcile_found-IsSound (some m) =
      search
        (sound_rules, create_or_update-IsSound, finalize_model-IsSound, on_create_error-IsSound)
        depth 12

  pub reconcile-IsSound : (namespace name : Text) → Keeps IsSound (reconcile d namespace name)
  unfolding reconcile
  reconcile-IsSound namespace name = search (sound_rules, reconcile_found-IsSound) depth 12
