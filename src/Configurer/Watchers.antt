-- ===== src/Configurer/Watchers.antt =====
-- The stop channels of the watchers: what Unconfigure does with them, over any sequence of calls.
use beamlit_controller.Base.{Option, none, some, List, [], ◌∷◌, Text_Eq, ℤ_Eq}
use beamlit_controller.Base.Keeps.{Keeps, keeps_rules}
use beamlit_controller.Deployment.{ServiceReference}
use beamlit_controller.Configurer.Cluster.{NamespacedName, NamespacedName_Eq, Kube}
use beamlit_controller.Configurer.State.{Configurer}
use beamlit_controller.Configurer.Slices.{configure}
use beamlit_controller.Configurer.Release.{
  watch_endpoints_slice_to_be_updated, delete_service_of, delete_beamlit_service, unconfigure_known,
  unconfigure,
}
use beamlit_controller.Configurer.Steps.{
  Keeps-add_kubernetes_managed_endpoints_slice, Keeps-delete_beamlit_endpoints_slice,
  Keeps-delete_external_ips_from_gateway_service, Keeps-wait_for,
}
use beamlit_controller.Configurer.Running.{
  AllRunning, running_aside, Keeps-stop_watchers, Keeps-configure,
}

module _ {W : Type 0} (k : Kube W) where
  Keeps-delete_service_of :
      (ref : ServiceReference) (o : Option NamespacedName)
      → Keeps AllRunning (delete_service_of k ref o)
  Keeps-delete_service_of ref none = search keeps_rules
  Keeps-delete_service_of ref (some s) = search (keeps_rules) depth 20

  Keeps-delete_beamlit_service :
      (ref : ServiceReference) → Keeps AllRunning (delete_beamlit_service k ref)
  unfolding delete_beamlit_service
  Keeps-delete_beamlit_service ref = search (keeps_rules, Keeps-delete_service_of) depth 40

  Keeps-unconfigure_known :
      (ref : ServiceReference) (o : Option NamespacedName)
      → Keeps AllRunning (unconfigure_known k ref o)
  unfolding watch_endpoints_slice_to_be_updated
  Keeps-unconfigure_known ref none = search keeps_rules
  Keeps-unconfigure_known ref (some n) =
      search
        (
          keeps_rules,
          Keeps-stop_watchers,
          Keeps-add_kubernetes_managed_endpoints_slice k running_aside,
          Keeps-delete_beamlit_endpoints_slice k running_aside,
          Keeps-delete_beamlit_service,
          Keeps-delete_external_ips_from_gateway_service k running_aside,
          Keeps-wait_for k running_aside,
        )
        depth 40

  Keeps-unconfigure : (o : Option ServiceReference) → Keeps AllRunning (unconfigure k o)
  unfolding unconfigure
  Keeps-unconfigure o = search (keeps_rules, Keeps-unconfigure_known) depth 20

-- A call of the configurer.
pub data Call : Type 0 where
  configured unconfigured : Option ServiceReference → Call

module _ {W : Type 0} (k : Kube W) where
  unfoldable pub calls : List Call → Configurer W → Configurer W
  calls [] c = c
  calls (configured o ∷ cs) c = calls cs (configure k o c).1
  calls (unconfigured o ∷ cs) c = calls cs (unconfigure k o c).1

  -- Over any calls of Configure and Unconfigure, whatever the cluster answers and however each of
  -- them ends: if no watcher was told to stop before, none is told to afterwards, not even those
  -- that Unconfigure is to stop. Their channels are neither sent to nor closed.
  pub calls-AllRunning :
      (cs : List Call) (c : Configurer W) → AllRunning c → AllRunning (calls cs c)
  unfolding calls
  calls-AllRunning [] c h = h
  calls-AllRunning (configured o ∷ cs) c h =
      calls-AllRunning cs (configure k o c).1 ((Keeps-configure k o).at c h)
  calls-AllRunning (unconfigured o ∷ cs) c h =
      calls-AllRunning cs (unconfigure k o c).1 ((Keeps-unconfigure k o).at c h)
