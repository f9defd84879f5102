-- ===== src/Configurer/Release.antt =====
-- Unconfigure: the service is given back to the cluster.
use beamlit_controller.Base.{
  ℕ, zero, suc, ◌-◌, ◌*◌, Bool, true, false, not, Option, none, some, List, [], ◌∷◌, Text, Text_Eq,
  bytes, lookup, insert, delete, Act, failure, pure, raise, gets, deref, modify, for_each, crash,
  ◌>>=◌, ◌>>◌, ◌==◌, ◌&&◌, if◌then◌else◌,
}
use beamlit_controller.Deployment.{ServiceReference}
use beamlit_controller.Configurer.Cluster.{NamespacedName, NamespacedName_Eq, Slice, Kube}
use beamlit_controller.Configurer.State.{Configurer, name_of, or_empty, label, kube, stop_watchers}
use beamlit_controller.Configurer.Gateway.{delete_external_ips_from_gateway_service}
use beamlit_controller.Configurer.Slices.{managed_by, operator}

abbrev pub kubernetes : Text
kubernetes = bytes "endpointslice-controller.k8s.io"

abbrev pub is_empty : {A : Type 0} → List A → Bool
is_empty [] = true
is_empty (x ∷ xs) = false

-- The controller of the cluster has filled the slice again.
unfoldable pub is_restored : Slice → Bool
is_restored s = label managed_by s.labels == kubernetes && not (is_empty s.endpoints)

module _ {W : Type 0} (k : Kube W) where
  -- A slice without labels is read with a nil map, which cannot be written.
  unfoldable pub give_back : NamespacedName → Act (Configurer W) (Unit {0})
  give_back e = do
    s ← kube (k.get_slice e.namespace e.name)
    if is_empty s.labels
        then crash
        else kube (
            k.update_slice e.namespace
              (record s { labels = insert managed_by kubernetes s.labels }))

  unfoldable pub add_kubernetes_managed_endpoints_slice :
      ServiceReference → Act (Configurer W) (Unit {0})
  unfolding give_back
  add_kubernetes_managed_endpoints_slice ref = do
    initial ← gets (λ c. or_empty (lookup (name_of ref) c.initial_endpoints))
    for_each give_back initial

  unfoldable pub delete_managed_slice : ServiceReference → Slice → Act (Configurer W) (Unit {0})
  delete_managed_slice ref s =
      if label managed_by s.labels == operator
      then kube (k.delete_slice ref.namespace s.name)
      else pure tt

  unfoldable pub delete_beamlit_endpoints_slice : ServiceReference → Act (Configurer W) (Unit {0})
  unfolding delete_managed_slice
  delete_beamlit_endpoints_slice ref = do
    items ← kube (k.list_slices ref.namespace ref.name)
    for_each (delete_managed_slice ref) items

  abbrev pub delete_service_of :
      ServiceReference → Option NamespacedName → Act (Configurer W) (Unit {0})
  delete_service_of ref none = raise (failure "beamlit service not found for model service")
  delete_service_of ref (some s) = do
    modify (λ c. record c { beamlit_services = delete (name_of ref) c.beamlit_services })
    kube (k.delete_service s.namespace s.name)

  unfoldable pub delete_beamlit_service : ServiceReference → Act (Configurer W) (Unit {0})
  delete_beamlit_service ref = do
    s ← gets (λ c. lookup (name_of ref) c.beamlit_services)
    delete_service_of ref s

  abbrev pub forget : ServiceReference → Act (Configurer W) (Unit {0})
  forget ref =
      modify (λ c. record c { initial_endpoints = delete (name_of ref) c.initial_endpoints })

  abbrev pub slices_of : ServiceReference → Configurer W → List NamespacedName
  slices_of ref c = or_empty (lookup (name_of ref) c.initial_endpoints)

  abbrev pub finished : Configurer W → Bool
  finished c = k.is_done c.world

  abbrev pub pause : ℕ → Act (Configurer W) (Unit {0})
  pause n = modify (λ c. record c { world = k.sleep n c.world })

  -- Whether one of the slices is restored; the first one that is ends the search.
  unfoldable pub any_restored : List NamespacedName → Act (Configurer W) Bool
  unfolding is_restored
  any_restored [] = pure false
  any_restored (e ∷ es) =
      let rest = any_restored es in
      do s ← kube (k.get_slice e.namespace e.name); if is_restored s then pure true else rest

  -- One turn of the loop; `again` is what follows where no slice is restored.
  unfoldable pub wait_round :
      ServiceReference → Act (Configurer W) (Unit {0}) → Act (Configurer W) (Unit {0})
  unfolding any_restored
  wait_round ref again = do
    done ← gets finished
    initial ← gets (slices_of ref)
    if done
        then pure tt
        else if is_empty initial
        then pure tt
        else do restored ← any_restored initial; if restored then forget ref else again

  -- The loop, with `n` turns to follow the next one: `retry` is then 5 less those turns.
  unfoldable pub wait_for : ℕ → ServiceReference → Act (Configurer W) (Unit {0})
  unfolding wait_round
  wait_for zero ref = wait_round ref (forget ref)
  wait_for (suc n) ref =
      let rest = wait_for n ref in wait_round ref (do pause ((4 - n) * 100); rest)

  unfoldable pub watch_endpoints_slice_to_be_updated :
      ServiceReference → Act (Configurer W) (Unit {0})
  unfolding wait_for
  watch_endpoints_slice_to_be_updated ref = wait_for 4 ref

  abbrev pub unconfigure_known :
      ServiceReference → Option NamespacedName → Act (Configurer W) (Unit {0})
  unconfigure_known ref none = pure tt
  unconfigure_known ref (some _) = do
    stop_watchers ref
    add_kubernetes_managed_endpoints_slice ref
    delete_beamlit_endpoints_slice ref
    delete_beamlit_service ref
    delete_external_ips_from_gateway_service k ref
    watch_endpoints_slice_to_be_updated ref

  unfoldable pub unconfigure : Option ServiceReference → Act (Configurer W) (Unit {0})
  unfolding delete_beamlit_service delete_beamlit_endpoints_slice
      add_kubernetes_managed_endpoints_slice watch_endpoints_slice_to_be_updated
  unconfigure o = do
    ref ← deref o
    known ← gets (λ c. lookup (name_of ref) c.beamlit_services)
    unconfigure_known ref known
