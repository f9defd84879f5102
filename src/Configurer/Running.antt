-- ===== src/Configurer/Running.antt =====
-- The stop channels of the watchers: what stopWatchers and Configure do with them.
use beamlit_controller.Base.{
  Bool, true, false, Option, none, some, List, [], ◌∷◌, ◌++◌, Text_Eq, Dict, All, All-concat,
  lookup, insert, lookup-insert, Act, ◌==◌, ◌≡◌, refl, if◌then◌else◌, ℤ, ℤ_Eq,
}
use beamlit_controller.Base.Keeps.{Keeps, keeps_rules}
use beamlit_controller.Deployment.{ServiceReference}
use beamlit_controller.Configurer.Cluster.{NamespacedName, NamespacedName_Eq, Kube}
use beamlit_controller.Configurer.State.{
  Channel, idle, sending, closed, Configurer, name_of, or_empty, kube, stop_loop, add_stop_chan,
  stop_all, stop_watchers,
}
use beamlit_controller.Configurer.Gateway.{create_beamlit_model_service}
use beamlit_controller.Configurer.Steps.{
  Keeps-add_port_to_gateway_service, Keeps-take_over_endpoints_slices,
  Keeps-clean_unused_endpoint_slices,
}
use beamlit_controller.Configurer.Slices.{
  create_mirrored_endpoints_slice, configure_service, configure,
}

abbrev pub IsIdle : Channel → Type 0
IsIdle c = c ≡ idle

-- No watcher has been told to stop: nothing was sent on its channel, which is not closed either.
abbrev pub AllRunning : {W : Type 0} → Configurer W → Type 0
AllRunning c = (n : NamespacedName) → All IsIdle (or_empty (lookup n c.stop_chans))

stop_loop-idle : (cs : List Channel) → All IsIdle cs → stop_loop cs ≡ cs
unfolding stop_loop
stop_loop-idle [] h = refl
stop_loop-idle (idle ∷ cs) h = refl
stop_loop-idle (sending ∷ cs) h = cc
stop_loop-idle (closed ∷ cs) h = cc

All-stop_loop : (cs : List Channel) → All IsIdle cs → All IsIdle (stop_loop cs)
All-stop_loop cs h = rw (stop_loop-idle cs h) h

All-insert :
    (n m : NamespacedName) (cs : List Channel) (d : Dict NamespacedName (List Channel))
    → ((a : NamespacedName) → All IsIdle (or_empty (lookup a d)))
    → All IsIdle cs
    → All IsIdle (or_empty (lookup m (insert n cs d)))
All-insert n m cs d h k = rw (lookup-insert n m cs d) (go (n == m))
  where
    go : (b : Bool) → All IsIdle (or_empty (if b then some cs else lookup m d))
    go true = k
    go false = h m

module _ {W : Type 0} where
  pub running_aside :
      (c : Configurer W) (d : Dict NamespacedName (List NamespacedName)) (w : W)
      → AllRunning c
      → AllRunning (record c { initial_endpoints = d; world = w })
  running_aside c d w h = h

  pub Keeps-kube : {A : Type 0} (m : Act W A) → Keeps AllRunning (kube m)
  Keeps-kube m = record { at = λ c h. h }

  Keeps-add_stop_chan : (n : NamespacedName) → Keeps (AllRunning {W = W}) (add_stop_chan n)
  Keeps-add_stop_chan n = record {
    at = λ c h m.
        All-insert n m (or_empty (lookup n c.stop_chans) ++ idle ∷ []) c.stop_chans h
          (All-concat IsIdle idle (or_empty (lookup n c.stop_chans)) (h n) refl);
  }

  stopped :
      (n : NamespacedName) (o : Option (List Channel)) (c : Configurer W)
      → All IsIdle (or_empty o)
      → AllRunning c
      → AllRunning (stop_all n o c).1
  stopped n none c i h = h
  stopped n (some cs) c i h = λ m. All-insert n m (stop_loop cs) c.stop_chans h (All-stop_loop cs i)

  pub Keeps-stop_watchers :
      (ref : ServiceReference) → Keeps (AllRunning {W = W}) (stop_watchers ref)
  unfolding stop_watchers
  Keeps-stop_watchers ref = record {
    at = λ c h. stopped (name_of ref) (lookup (name_of ref) c.stop_chans) c (h (name_of ref)) h;
  }

module _ {W : Type 0} (k : Kube W) where
  Keeps-create_beamlit_model_service :
      (ref : ServiceReference) → Keeps AllRunning (create_beamlit_model_service k ref)
  unfolding create_beamlit_model_service
  Keeps-create_beamlit_model_service ref = search (keeps_rules, Keeps-kube) depth 40

  Keeps-create_mirrored_endpoints_slice :
      (ref : ServiceReference) (target : ℤ)
      → Keeps AllRunning (create_mirrored_endpoints_slice k ref target)
  unfolding create_mirrored_endpoints_slice
  Keeps-create_mirrored_endpoints_slice ref target =
      search (keeps_rules, Keeps-kube, Keeps-add_stop_chan) depth 40

  Keeps-configure_service : (ref : ServiceReference) → Keeps AllRunning (configure_service k ref)
  unfolding configure_service
  Keeps-configure_service ref =
      search
        (
          keeps_rules,
          Keeps-create_beamlit_model_service,
          Keeps-add_port_to_gateway_service k running_aside,
          Keeps-take_over_endpoints_slices k running_aside,
          Keeps-create_mirrored_endpoints_slice,
          Keeps-clean_unused_endpoint_slices k running_aside,
          Keeps-add_stop_chan,
        )
        depth 40

  pub Keeps-configure : (o : Option ServiceReference) → Keeps AllRunning (configure k o)
  unfolding configure
  Keeps-configure o = search (keeps_rules, Keeps-configure_service) depth 40
