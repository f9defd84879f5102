-- ===== src/Controller/Sound/Runs.antt =====
-- The invariant over whole runs.
use beamlit_controller.Base.{List, [], ◌∷◌, Text, ok, ◌≡◌}
use beamlit_controller.Base.Keeps.{Keeps, keeps_rules, Keeps-bind}
use beamlit_controller.Deployment.{ModelDeployment}
use beamlit_controller.Controller.State.{Reconciler, Deps}
use beamlit_controller.Controller.Run.{Input, request, report, handle, run}
use beamlit_controller.Controller.Sound.{IsValid, IsSound}
use beamlit_controller.Controller.Sound.Callbacks.{watch_step-IsSound}
use beamlit_controller.Controller.Sound.Requests.{reconcile-IsSound}

module _ {W M B : Type 0} (d : Deps W M B)
    (served : (namespace name : Text) (w : W) (m : ModelDeployment M)
      → (d.get_model namespace name w).0 ≡ ok m
      → IsValid m) where
  handle-IsSound : (i : Input) → Keeps IsSound (handle d i)
  unfolding handle
  handle-IsSound (request namespace name) = search (keeps_rules, reconcile-IsSound)
  handle-IsSound (report e) = watch_step-IsSound d served e

  run-Keeps : (is : List Input) → Keeps IsSound (run d is)
  unfolding run
  run-Keeps [] = search keeps_rules
  run-Keeps (i ∷ is) = Keeps-bind _ _ (handle-IsSound i) (λ _. run-Keeps is)

  -- Whatever requests and reports the controller handles, in whatever order and with whatever
  -- failures of the components that it calls, its maps stay sound: every ongoing offloading is a
  -- percentage from 0 to 100, and every managed model stands under the key of its namespace and
  -- name and is marked as healthy. It supposes that the cluster returns only resources whose
  -- percentage is in the range that the schema of the resource enforces.
  pub run-IsSound : (is : List Input) (r : Reconciler W) → IsSound r → IsSound (run d is r).1
  run-IsSound is r h = (run-Keeps is).at r h
