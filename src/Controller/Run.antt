-- ===== src/Controller/Run.antt =====
-- A run of the controller: requests of the manager and reports of the informers, in the order in
-- which they are handled. A request or a report that fails leaves the controller running.
use beamlit_controller.Base.{List, [], ◌∷◌, Text, Act, pure, catch, ◌>>◌}
use beamlit_controller.Controller.State.{Reconciler, Deps}
use beamlit_controller.Controller.Reconcile.{reconcile}
use beamlit_controller.Controller.Watch.{Event, watch_step}

pub data Input : Type 0 where
  request : Text → Text → Input
  report : Event → Input

module _ {W M B : Type 0} (d : Deps W M B) where
  unfoldable pub handle : Input → Act (Reconciler W) (Unit {0})
  handle (request namespace name) = catch (do reconcile d namespace name; pure tt) (λ _. pure tt)
  handle (report e) = watch_step d e

  unfoldable pub run : List Input → Act (Reconciler W) (Unit {0})
  run [] = pure tt
  run (i ∷ is) = do handle i; run is
