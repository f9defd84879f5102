-- ===== src/Configurer/Apart.antt =====
-- Calls of the configurer for other services leave what is noted of a service.
use beamlit_controller.Base.{
  Option, none, some, Dict, All, gets, modify, List, [], ◌∷◌, Text_Eq, false, ◌==◌, lookup, insert,
  delete, lookup-insert, lookup-delete, Act, ◌≡◌, ℤ, ℤ_Eq,
}
use beamlit_controller.Base.Keeps.{Keeps, Keeps-bind, Keeps-gets, keeps_rules}
use beamlit_controller.Deployment.{ServiceReference}
use beamlit_controller.Configurer.Cluster.{NamespacedName, NamespacedName_Eq, Kube}
use beamlit_controller.Configurer.State.{
  Channel, stop_loop, Configurer, name_of, kube, stop_all, stop_watchers,
}
use beamlit_controller.Configurer.Gateway.{create_beamlit_model_service}
use beamlit_controller.Configurer.Slices.{
  create_mirrored_endpoints_slice, configure_service, configure,
}
use beamlit_controller.Configurer.Watchers.{Call, configured, unconfigured, calls}
use beamlit_controller.Configurer.Steps.{
  Keeps-add_port_to_gateway_service, Keeps-take_over_endpoints_slices,
  Keeps-clean_unused_endpoint_slices, Keeps-add_kubernetes_managed_endpoints_slice,
  Keeps-delete_beamlit_endpoints_slice, Keeps-delete_external_ips_from_gateway_service,
  Keeps-wait_for,
}
use beamlit_controller.Configurer.Release.{
  delete_service_of, delete_beamlit_service, unconfigure_known, watch_endpoints_slice_to_be_updated,
  unconfigure,
}

-- The local service and the stop channels of a service, as they are noted.
pub record Notes {W : Type 0} (n : NamespacedName) (o : Option NamespacedName)
    (s : Option (List Channel)) (c : Configurer W) : Type 0 where
  pub service : lookup n c.beamlit_services ≡ o
  pub stops : lookup n c.stop_chans ≡ s

module _ {W : Type 0} (n : NamespacedName) (o : Option NamespacedName)
    (s : Option (List Channel)) where
  Notes-aside :
      (c : Configurer W) (d : Dict NamespacedName (List NamespacedName)) (w : W)
      → Notes n o s c
      → Notes n o s (record c { initial_endpoints = d; world = w })
  Notes-aside c d w h = record { service = h.service; stops = h.stops }

  Keeps-kube : {A : Type 0} (m : Act W A) → Keeps (Notes n o s) (kube m)
  Keeps-kube m = record { at = λ c h. Notes-aside c c.initial_endpoints (m c.world).1 h }

-- Calls for another service leave what is noted.
module _ {W : Type 0} (k : Kube W) (n : NamespacedName) (o : Option NamespacedName)
    (s : Option (List Channel)) (ref : ServiceReference) (other : (name_of ref == n) ≡ false) where
  Keeps-noted :
      (v : NamespacedName)
      → Keeps
          (Notes {W = W} n o s)
          (modify (λ c. record c { beamlit_services = insert (name_of ref) v c.beamlit_services }))
  Keeps-noted v = record {
    at = λ c h. record {
      service = rw (lookup-insert (name_of ref) n v c.beamlit_services, other) (h.service);
      stops = h.stops;
    };
  }

  Keeps-stops :
      (f : Configurer W → List Channel)
      → Keeps
          (Notes n o s)
          (modify (λ c. record c { stop_chans = insert (name_of ref) (f c) c.stop_chans }))
  Keeps-stops f = record {
    at = λ c h. record {
      service = h.service;
      stops = rw (lookup-insert (name_of ref) n (f c) c.stop_chans, other) (h.stops);
    };
  }

  Keeps-unnoted :
      Keeps
        (Notes {W = W} n o s)
        (modify (λ c. record c { beamlit_services = delete (name_of ref) c.beamlit_services }))
  Keeps-unnoted = record {
    at = λ c h. record {
      service = rw (lookup-delete (name_of ref) n c.beamlit_services, other) (h.service);
      stops = h.stops;
    };
  }

  Keeps-create : Keeps (Notes n o s) (create_beamlit_model_service k ref)
  unfolding create_beamlit_model_service
  Keeps-create = search (keeps_rules, Keeps-kube, Keeps-noted) depth 20

  Keeps-create_mirrored :
      (target : ℤ) → Keeps (Notes n o s) (create_mirrored_endpoints_slice k ref target)
  unfolding create_mirrored_endpoints_slice
  Keeps-create_mirrored target = search (keeps_rules, Keeps-kube, Keeps-stops) depth 40

  Keeps-configure_service : Keeps (Notes n o s) (configure_service k ref)
  unfolding configure_service
  Keeps-configure_service =
      search
        (
          keeps_rules,
          Keeps-create,
          Keeps-create_mirrored,
          Keeps-stops,
          Keeps-add_port_to_gateway_service k {P = Notes n o s} (Notes-aside n o s),
          Keeps-take_over_endpoints_slices k {P = Notes n o s} (Notes-aside n o s),
          Keeps-clean_unused_endpoint_slices k {P = Notes n o s} (Notes-aside n o s),
        )
        depth 40

  Keeps-stop_all :
      (chans : Option (List Channel)) → Keeps (Notes {W = W} n o s) (stop_all (name_of ref) chans)
  Keeps-stop_all none = search keeps_rules
  Keeps-stop_all (some cs) = Keeps-stops (λ c. stop_loop cs)

  Keeps-delete_service_of :
      (v : Option NamespacedName) → Keeps (Notes n o s) (delete_service_of k ref v)
  Keeps-delete_service_of none = search keeps_rules
  Keeps-delete_service_of (some v) = search (keeps_rules, Keeps-kube, Keeps-unnoted) depth 20

  Keeps-unconfigure_known :
      (v : Option NamespacedName) → Keeps (Notes n o s) (unconfigure_known k ref v)
  unfolding stop_watchers delete_beamlit_service watch_endpoints_slice_to_be_updated
  Keeps-unconfigure_known none = search keeps_rules
  Keeps-unconfigure_known (some v) =
      search
        (
          keeps_rules,
          Keeps-stop_all,
          Keeps-delete_service_of,
          Keeps-add_kubernetes_managed_endpoints_slice k {P = Notes n o s} (Notes-aside n o s),
          Keeps-delete_beamlit_endpoints_slice k {P = Notes n o s} (Notes-aside n o s),
          Keeps-delete_external_ips_from_gateway_service k {P = Notes n o s} (Notes-aside n o s),
          Keeps-wait_for k {P = Notes n o s} (Notes-aside n o s),
        )
        depth 40

-- The call is not for the service `n`.
abbrev pub IsApart : NamespacedName → Call → Type 0
IsApart n (configured none) = Unit
IsApart n (configured (some ref)) = (name_of ref == n) ≡ false
IsApart n (unconfigured none) = Unit
IsApart n (unconfigured (some ref)) = (name_of ref == n) ≡ false

module _ {W : Type 0} (k : Kube W) (n : NamespacedName) (o : Option NamespacedName)
    (s : Option (List Channel)) where
  Keeps-configure :
      (r : Option ServiceReference) → IsApart n (configured r) → Keeps (Notes n o s) (configure k r)
  unfolding configure
  Keeps-configure none a = search keeps_rules
  Keeps-configure (some ref) a = Keeps-configure_service k n o s ref a

  Keeps-unconfigure :
      (r : Option ServiceReference)
      → IsApart n (unconfigured r)
      → Keeps (Notes n o s) (unconfigure k r)
  unfolding unconfigure
  Keeps-unconfigure none a = search keeps_rules
  Keeps-unconfigure (some ref) a =
      Keeps-bind (gets (λ c. lookup (name_of ref) c.beamlit_services)) _ (Keeps-gets _)
        (Keeps-unconfigure_known k n o s ref a)

  pub calls-Notes :
      (cs : List Call) (c : Configurer W)
      → All (IsApart n) cs
      → Notes n o s c
      → Notes n o s (calls k cs c)
  unfolding calls
  calls-Notes [] c a h = h
  calls-Notes (configured r ∷ cs) c a h =
      calls-Notes cs (configure k r c).1 a.1 ((Keeps-configure r a.0).at c h)
  calls-Notes (unconfigured r ∷ cs) c a h =
      calls-Notes cs (unconfigure k r c).1 a.1 ((Keeps-unconfigure r a.0).at c h)
