-- ===== src/Configurer/Lifecycle/Outcomes.antt =====
-- What Configure and Unconfigure note of a service when they succeed.
use beamlit_controller.Base.{
  Option, none, some, Dict, gets, modify, List, Text_Eq, Bool, true, false, lookup, insert, delete,
  lookup-insert_self, lookup-delete_self, Act, ok, Error, raise, if◌then◌else◌, ◌≡◌, refl, ℤ, ℤ_Eq,
}
use beamlit_controller.Base.Keeps.{Keeps, Keeps-pure, Ends, Ends-bind, Ends-Keeps, keeps_rules}
use beamlit_controller.Deployment.{ServiceReference}
use beamlit_controller.Configurer.Cluster.{NamespacedName, NamespacedName_Eq, Kube}
use beamlit_controller.Configurer.State.{
  Channel, Configurer, name_of, kube, add_stop_chan, stop_watchers,
}
use beamlit_controller.Configurer.Gateway.{beamlit_service_of, create_beamlit_model_service}
use beamlit_controller.Configurer.Slices.{
  create_mirrored_endpoints_slice, configure_service, configure,
}
use beamlit_controller.Configurer.Steps.{
  Keeps-add_port_to_gateway_service, Keeps-take_over_endpoints_slices,
  Keeps-clean_unused_endpoint_slices, Keeps-delete_external_ips_from_gateway_service,
  Keeps-wait_for,
}
use beamlit_controller.Configurer.Release.{
  add_kubernetes_managed_endpoints_slice, delete_beamlit_endpoints_slice, delete_service_of,
  delete_beamlit_service, unconfigure_known, watch_endpoints_slice_to_be_updated, unconfigure,
}
use beamlit_controller.Configurer.Apart.{Notes}

-- The service has a local service and stop channels.
pub record IsTaken {W : Type 0} (n : NamespacedName) (c : Configurer W) : Type 0 where
  pub local : NamespacedName
  pub chans : List Channel
  pub notes : Notes n (some local) (some chans) c

record HasLocal {W : Type 0} (n : NamespacedName) (c : Configurer W) : Type 0 where
  local : NamespacedName
  noted : lookup n c.beamlit_services ≡ some local

record HasStops {W : Type 0} (n : NamespacedName) (c : Configurer W) : Type 0 where
  chans : List Channel
  made : lookup n c.stop_chans ≡ some chans

pub record HasNone {W : Type 0} (n : NamespacedName) (c : Configurer W) : Type 0 where
  pub gone : lookup n c.beamlit_services ≡ none

module _ {W : Type 0} (k : Kube W) (ref : ServiceReference) where
  local_aside :
      (c : Configurer W) (d : Dict NamespacedName (List NamespacedName)) (w : W)
      → HasLocal (name_of ref) c
      → HasLocal (name_of ref) (record c { initial_endpoints = d; world = w })
  local_aside c d w h = record { local = h.local; noted = h.noted }

  none_aside :
      (c : Configurer W) (d : Dict NamespacedName (List NamespacedName)) (w : W)
      → HasNone (name_of ref) c
      → HasNone (name_of ref) (record c { initial_endpoints = d; world = w })
  none_aside c d w h = record { gone = h.gone }

  kube-HasLocal : {A : Type 0} (m : Act W A) → Keeps (HasLocal (name_of ref)) (kube m)
  kube-HasLocal m = record { at = λ c h. local_aside c c.initial_endpoints (m c.world).1 h }

  kube-HasNone : {A : Type 0} (m : Act W A) → Keeps (HasNone (name_of ref)) (kube m)
  kube-HasNone m = record { at = λ c h. none_aside c c.initial_endpoints (m c.world).1 h }

  add_stop_chan-HasLocal : Keeps (HasLocal {W = W} (name_of ref)) (add_stop_chan (name_of ref))
  add_stop_chan-HasLocal = record { at = λ c h. record { local = h.local; noted = h.noted } }

  add_stop_chan-HasStops : Ends (HasStops {W = W} (name_of ref)) (add_stop_chan (name_of ref))
  add_stop_chan-HasStops = record {
    at = λ c a h. record { chans = _; made = lookup-insert_self (name_of ref) _ c.stop_chans };
  }

  note-HasLocal :
      (v : NamespacedName)
      → Ends
          (HasLocal {W = W} (name_of ref))
          (modify (λ c. record c { beamlit_services = insert (name_of ref) v c.beamlit_services }))
  note-HasLocal v = record {
    at = λ c u h. record {
      local = v;
      noted = lookup-insert_self (name_of ref) v c.beamlit_services;
    };
  }

  create-HasLocal : Ends (HasLocal (name_of ref)) (create_beamlit_model_service k ref)
  unfolding create_beamlit_model_service
  create-HasLocal = Ends-bind (kube (k.get_service ref.namespace ref.name)) _ (λ m.
      Ends-bind (kube (k.apply_service (beamlit_service_of ref m))) _
        (λ a. Ends-Keeps _ _ (note-HasLocal _) (λ _. Keeps-pure a)))

  mirrored-HasLocal :
      (target : ℤ) → Keeps (HasLocal (name_of ref)) (create_mirrored_endpoints_slice k ref target)
  unfolding create_mirrored_endpoints_slice
  mirrored-HasLocal target = search (keeps_rules, kube-HasLocal, add_stop_chan-HasLocal) depth 40

  configure-HasLocal : Ends (HasLocal (name_of ref)) (configure_service k ref)
  unfolding configure_service
  configure-HasLocal = Ends-Keeps (create_beamlit_model_service k ref) _ create-HasLocal (λ a.
      search
        (
          keeps_rules,
          mirrored-HasLocal,
          add_stop_chan-HasLocal,
          Keeps-add_port_to_gateway_service k {P = HasLocal (name_of ref)} local_aside,
          Keeps-take_over_endpoints_slices k {P = HasLocal (name_of ref)} local_aside,
          Keeps-clean_unused_endpoint_slices k {P = HasLocal (name_of ref)} local_aside,
        )
        depth 40)

  Ends-if :
      (b : Bool) (e : Error) (m : Act (Configurer W) (Unit {0}))
      → Ends (HasStops (name_of ref)) m
      → Ends (HasStops (name_of ref)) (if b then raise e else m)
  Ends-if true e m h = record { at = λ c a q. cc }
  Ends-if false e m h = h

  configure-HasStops : Ends (HasStops (name_of ref)) (configure_service k ref)
  unfolding configure_service
  configure-HasStops = search (Ends-bind, Ends-if, add_stop_chan-HasStops) depth 20

  pub configure-IsTaken : Ends (IsTaken (name_of ref)) (configure k (some ref))
  unfolding configure
  configure-IsTaken = record {
    at = λ c a h.
        let known = configure-HasLocal.at c a h in
        let stops = configure-HasStops.at c a h in
        record {
          local = known.local;
          chans = stops.chans;
          notes = record { service = known.noted; stops = stops.made };
        };
  }

  delete_service_of-HasNone :
      (v : Option NamespacedName) → Ends (HasNone (name_of ref)) (delete_service_of k ref v)
  delete_service_of-HasNone none = record { at = λ c a h. cc }
  delete_service_of-HasNone (some v) =
      Ends-Keeps
        (modify (λ c. record c { beamlit_services = delete (name_of ref) c.beamlit_services })) _
        (record {
          at = λ c a h. record { gone = lookup-delete_self (name_of ref) c.beamlit_services };
        })
        (λ _. kube-HasNone (k.delete_service v.namespace v.name))

  delete-HasNone : Ends (HasNone (name_of ref)) (delete_beamlit_service k ref)
  unfolding delete_beamlit_service
  delete-HasNone =
      Ends-bind (gets (λ c. lookup (name_of ref) c.beamlit_services)) _ delete_service_of-HasNone

  known-HasNone :
      (v : NamespacedName) → Ends (HasNone (name_of ref)) (unconfigure_known k ref (some v))
  unfolding watch_endpoints_slice_to_be_updated
  known-HasNone v = Ends-bind (stop_watchers ref) _ (λ _.
      Ends-bind (add_kubernetes_managed_endpoints_slice k ref) _ (λ _.
        Ends-bind (delete_beamlit_endpoints_slice k ref) _ (λ _.
          Ends-Keeps (delete_beamlit_service k ref) _ delete-HasNone (λ _.
            search
              (
                keeps_rules,
                Keeps-delete_external_ips_from_gateway_service k {P = HasNone (name_of ref)}
                    none_aside,
                Keeps-wait_for k {P = HasNone (name_of ref)} none_aside,
              )
              depth 20))))

  pub unconfigure-HasNone : Ends (HasNone (name_of ref)) (unconfigure k (some ref))
  unfolding unconfigure
  unconfigure-HasNone = record {
    at = λ c a h. by_note (lookup (name_of ref) c.beamlit_services) c a refl h;
  }
    where
      by_note :
          (o : Option NamespacedName) (c : Configurer W) (a : Unit {0})
          → lookup (name_of ref) c.beamlit_services ≡ o
          → (unconfigure_known k ref o c).0 ≡ ok a
          → HasNone (name_of ref) (unconfigure_known k ref o c).1
      by_note none c a e h = record { gone = e }
      by_note (some v) c a e h = (known-HasNone v).at c a h
