-- ===== src/Configurer/Lifecycle/Tests.antt =====
-- A service of a model that is taken over and released, between calls for another service.
use beamlit_controller.Base.{
  some, none, List, [], ◌∷◌, Text_Eq, bytes, text_eq, lookup, insert, delete, ℤ_Eq, pos, ok, err,
  failure, for_each, ◌≡◌, ◌≢◌, refl,
}
use beamlit_controller.Deployment.{ServiceReference}
use beamlit_controller.Configurer.Cluster.{NamespacedName, NamespacedName_Eq}
use beamlit_controller.Configurer.Samples.{ref, cluster, initial}
use beamlit_controller.Configurer.State.{
  label, name_of, stop_loop, stop_watchers, get_local_beamlit_service,
}
use beamlit_controller.Configurer.Slices.{
  mirrored_ports, mirrored_endpoints, mirrored_slice, target_port_of, take_over, taken, emptied,
  take_over_endpoints_slices, create_mirrored_endpoints_slice, clean_unused,
  clean_unused_endpoint_slices, configure_service, configure,
}
use beamlit_controller.Configurer.Gateway.{
  find_port, has_port, fronted, with_port, without, beamlit_service_of,
  create_beamlit_model_service, add_port_to_gateway_service,
  delete_external_ips_from_gateway_service,
}
use beamlit_controller.Configurer.Release.{
  is_restored, give_back, add_kubernetes_managed_endpoints_slice, delete_managed_slice,
  delete_beamlit_endpoints_slice, delete_beamlit_service, any_restored, wait_round, wait_for,
  watch_endpoints_slice_to_be_updated, unconfigure,
}
use beamlit_controller.Configurer.Watchers.{Call, configured, unconfigured, calls}
use beamlit_controller.Configurer.Lifecycle.{kept, freed, service_lifecycle}

abbrev another : ServiceReference
another = record ref { name = bytes "t" }

abbrev others : List Call
others = configured (some another) ∷ unconfigured (some another) ∷ []

taken_over : (configure cluster (some ref) initial).0 ≡ ok tt
unfolding configure configure_service create_beamlit_model_service add_port_to_gateway_service
    take_over_endpoints_slices take_over beamlit_service_of fronted lookup insert text_eq bytes
    label target_port_of find_port has_port with_port without taken for_each
    create_mirrored_endpoints_slice mirrored_endpoints mirrored_ports mirrored_slice
    clean_unused_endpoint_slices clean_unused emptied
taken_over = refl

released : (unconfigure cluster (some ref) (kept cluster ref others initial)).0 ≡ ok tt
unfolding configure configure_service create_beamlit_model_service add_port_to_gateway_service
    take_over_endpoints_slices take_over beamlit_service_of fronted lookup insert text_eq bytes
    label target_port_of find_port has_port with_port without taken for_each
    create_mirrored_endpoints_slice mirrored_endpoints mirrored_ports mirrored_slice
    clean_unused_endpoint_slices clean_unused emptied calls unconfigure stop_watchers stop_loop
    add_kubernetes_managed_endpoints_slice give_back delete_beamlit_endpoints_slice
    delete_managed_slice delete_beamlit_service delete_external_ips_from_gateway_service
    watch_endpoints_slice_to_be_updated wait_for wait_round any_restored is_restored delete
released = refl

service_lifecycle_example :
    let taken_state = kept cluster ref others initial in
    let freed_state = freed cluster ref others taken_state in
    ((n : NamespacedName) × ((get_local_beamlit_service ref taken_state).0
        ≡ ok (record { kind = []; namespace = n.namespace; name = n.name; target_port = pos 80 })))
    × (lookup (name_of ref) taken_state.stop_chans ≢ none)
    × ((get_local_beamlit_service ref freed_state).0
        ≡ err (failure "proxy service not found for model service"))
    × (unconfigure cluster (some ref) freed_state ≡ (ok tt, freed_state))
unfolding text_eq bytes
service_lifecycle_example =
    service_lifecycle cluster ref others others initial (refl, (refl, tt)) (refl, (refl, tt))
      taken_over released
