-- ===== src/Configurer/Steps.antt =====
-- The parts of Configure and Unconfigure that only call the cluster and note the initial slices keep
-- whatever does not depend on these.
use beamlit_controller.Base.{
  ℕ, zero, suc, ◌-◌, ◌*◌, true, List, [], ◌∷◌, Text_Eq, Dict, Act, pure, gets, modify, ℤ_Eq,
}
use beamlit_controller.Base.Keeps.{Keeps, Keeps-pure, Keeps-bind, Keeps-if, Keeps-gets, keeps_rules}
use beamlit_controller.Deployment.{ServiceReference}
use beamlit_controller.Configurer.Cluster.{NamespacedName, NamespacedName_Eq, Slice, Kube}
use beamlit_controller.Configurer.State.{Configurer, kube}
use beamlit_controller.Configurer.Gateway.{
  add_port_to_gateway_service, delete_external_ips_from_gateway_service,
}
use beamlit_controller.Configurer.Slices.{
  take_over, take_over_endpoints_slices, clean_unused, clean_unused_endpoint_slices,
}
use beamlit_controller.Configurer.Release.{
  is_restored, is_empty, slices_of, finished, any_restored, forget, pause, wait_round, wait_for,
  give_back, add_kubernetes_managed_endpoints_slice, delete_managed_slice,
  delete_beamlit_endpoints_slice,
}

module _ {W : Type 0} (k : Kube W) {P : Configurer W → Type 0}
    (aside : (c : Configurer W) (d : Dict NamespacedName (List NamespacedName)) (w : W)
      → P c
      → P (record c { initial_endpoints = d; world = w })) where
  kubes : {A : Type 0} (m : Act W A) → Keeps P (kube m)
  kubes m = record { at = λ c h. aside c c.initial_endpoints (m c.world).1 h }

  endpoints :
      (f : Configurer W → Dict NamespacedName (List NamespacedName))
      → Keeps P (modify (λ c. record c { initial_endpoints = f c }))
  endpoints f = record { at = λ c h. aside c (f c) c.world h }

  worlds : (f : W → W) → Keeps P (modify (λ c. record c { world = f c.world }))
  worlds f = record { at = λ c h. aside c c.initial_endpoints (f c.world) h }

  pub Keeps-add_port_to_gateway_service :
      (ref : ServiceReference) → Keeps P (add_port_to_gateway_service k ref)
  unfolding add_port_to_gateway_service
  Keeps-add_port_to_gateway_service ref = search (keeps_rules, kubes) depth 40

  Keeps-take_over : (ref : ServiceReference) (s : Slice) → Keeps P (take_over k ref s)
  unfolding take_over
  Keeps-take_over ref s = search (keeps_rules, kubes, endpoints) depth 40

  pub Keeps-take_over_endpoints_slices :
      (ref : ServiceReference) → Keeps P (take_over_endpoints_slices k ref)
  unfolding take_over_endpoints_slices
  Keeps-take_over_endpoints_slices ref = search (keeps_rules, kubes, Keeps-take_over) depth 40

  Keeps-clean_unused : (ref : ServiceReference) (s : Slice) → Keeps P (clean_unused k ref s)
  unfolding clean_unused
  Keeps-clean_unused ref s = search (keeps_rules, kubes) depth 40

  pub Keeps-clean_unused_endpoint_slices :
      (ref : ServiceReference) → Keeps P (clean_unused_endpoint_slices k ref)
  unfolding clean_unused_endpoint_slices
  Keeps-clean_unused_endpoint_slices ref = search (keeps_rules, kubes, Keeps-clean_unused) depth 40

  Keeps-give_back : (e : NamespacedName) → Keeps P (give_back k e)
  unfolding give_back
  Keeps-give_back e = search (keeps_rules, kubes) depth 40

  pub Keeps-add_kubernetes_managed_endpoints_slice :
      (ref : ServiceReference) → Keeps P (add_kubernetes_managed_endpoints_slice k ref)
  unfolding add_kubernetes_managed_endpoints_slice
  Keeps-add_kubernetes_managed_endpoints_slice ref = search (keeps_rules, Keeps-give_back) depth 40

  Keeps-delete_managed_slice :
      (ref : ServiceReference) (s : Slice) → Keeps P (delete_managed_slice k ref s)
  unfolding delete_managed_slice
  Keeps-delete_managed_slice ref s = search (keeps_rules, kubes) depth 40

  pub Keeps-delete_beamlit_endpoints_slice :
      (ref : ServiceReference) → Keeps P (delete_beamlit_endpoints_slice k ref)
  unfolding delete_beamlit_endpoints_slice
  Keeps-delete_beamlit_endpoints_slice ref =
      search (keeps_rules, kubes, Keeps-delete_managed_slice) depth 40

  pub Keeps-delete_external_ips_from_gateway_service :
      (ref : ServiceReference) → Keeps P (delete_external_ips_from_gateway_service k ref)
  unfolding delete_external_ips_from_gateway_service
  Keeps-delete_external_ips_from_gateway_service ref = search (keeps_rules, kubes) depth 40

  Keeps-any_restored : (es : List NamespacedName) → Keeps P (any_restored k es)
  unfolding any_restored
  Keeps-any_restored [] = search keeps_rules
  Keeps-any_restored (e ∷ es) =
      Keeps-bind (kube (k.get_slice e.namespace e.name)) _ (kubes (k.get_slice e.namespace e.name))
        (λ s.
          Keeps-if (is_restored s) (pure true) (any_restored k es) (Keeps-pure true)
            (Keeps-any_restored es))

  Keeps-wait_round :
      (ref : ServiceReference) (again : Act (Configurer W) (Unit {0}))
      → Keeps P again
      → Keeps P (wait_round k ref again)
  unfolding wait_round
  Keeps-wait_round ref again h = Keeps-bind (gets (finished k)) _ (Keeps-gets (finished k)) (λ done.
      Keeps-bind (gets (slices_of k ref)) _ (Keeps-gets (slices_of k ref)) (λ initial.
        Keeps-if done _ _ (Keeps-pure tt) (
          Keeps-if (is_empty initial) _ _ (Keeps-pure tt) (
            Keeps-bind (any_restored k initial) _ (Keeps-any_restored initial)
              (λ restored. Keeps-if restored (forget k ref) again (endpoints (λ c. _)) h)))))

  pub Keeps-wait_for : (n : ℕ) (ref : ServiceReference) → Keeps P (wait_for k n ref)
  unfolding wait_for
  Keeps-wait_for zero ref = Keeps-wait_round ref _ (endpoints (λ c. _))
  Keeps-wait_for (suc n) ref =
      let rest = Keeps-wait_for n ref in
      Keeps-wait_round ref _ (Keeps-bind (pause k ((4 - n) * 100)) _ (worlds (λ w. _)) (λ _. rest))
