-- ===== src/Configurer/Slices.antt =====
-- takeOverEndpointsSlices, createMirroredEndpointsSlice, cleanUnusedEndpointSlices and Configure.
use beamlit_controller.Base.{
  Bool, false, Option, none, some, List, [], ◌∷◌, ◌++◌, Text, Text_Eq, bytes, lookup, insert, ℤ,
  ℤ_Eq, pos, Act, Result, ok, err, panic, failure, pure, raise, lift, deref, modify, for_each,
  ◌>>=◌, ◌>>◌, ◌==◌, if◌then◌else◌,
}
use beamlit_controller.Deployment.{ServiceReference}
use beamlit_controller.Configurer.Cluster.{
  NamespacedName_Eq, ServicePort, Endpoint, SlicePort, Slice, Kube,
}
use beamlit_controller.Configurer.State.{Configurer, name_of, or_empty, label, kube, add_stop_chan}
use beamlit_controller.Configurer.Gateway.{
  create_beamlit_model_service, add_port_to_gateway_service,
}

abbrev pub managed_by : Text
managed_by = bytes "endpointslice.kubernetes.io/managed-by"

abbrev pub service_name : Text
service_name = bytes "kubernetes.io/service-name"

-- OperatorLabel
abbrev pub operator : Text
operator = bytes "beamlit-operator"

-- The slice as it is taken over.
unfoldable pub taken : ServiceReference → Slice → Slice
taken ref s = record s {
  labels = insert service_name ref.name (insert managed_by operator s.labels);
}

-- The slice without endpoints and ports.
unfoldable pub emptied : Slice → Slice
emptied s = record s { labels = insert managed_by operator s.labels; endpoints = []; ports = [] }

-- Conditions that are not given are read through.
unfoldable pub mirrored_endpoint : Endpoint → Result Endpoint
mirrored_endpoint e = check e.ready e.serving e.terminating
  where
    check : Option Bool → Option Bool → Option Bool → Result Endpoint
    check (some r) (some s) (some t) = ok e
    check _ _ _ = panic

abbrev pub add_endpoint : Result Endpoint → Result (List Endpoint) → Result (List Endpoint)
add_endpoint (ok e) (ok es) = ok (e ∷ es)
add_endpoint (ok e) (err c) = err c
add_endpoint (ok e) panic = panic
add_endpoint (err c) rest = err c
add_endpoint panic rest = panic

unfoldable pub mirrored_endpoints : List Endpoint → Result (List Endpoint)
unfolding mirrored_endpoint
mirrored_endpoints [] = ok []
mirrored_endpoints (e ∷ es) = add_endpoint (mirrored_endpoint e) (mirrored_endpoints es)

-- port.Port != nil && *port.Port == targetPort
abbrev pub is_target : ℤ → Option ℤ → Bool
is_target target none = false
is_target target (some n) = n == target

unfoldable pub mirrored_ports : ℤ → List SlicePort → List SlicePort
mirrored_ports target [] = []
mirrored_ports target (p ∷ ps) =
    let rest = mirrored_ports target ps in if is_target target p.port then rest else p ∷ rest

unfoldable pub mirrored_slice : ServiceReference → Slice → List Endpoint → List SlicePort → Slice
mirrored_slice ref s endpoints ports = record {
  namespace = ref.namespace;
  name = ref.name ++ bytes "-beamlit-mirrored";
  labels =
      (bytes "beamlit.com/to-update", bytes "true")
      ∷ (service_name, ref.name)
      ∷ (managed_by, operator)
      ∷ [];
  address_type = s.address_type;
  endpoints = endpoints;
  ports = ports;
}

-- The one slice of the service.
abbrev pub only_slice : List Slice → Result Slice
only_slice [] = err (failure "no mirrored endpoints slice found for service")
only_slice (s ∷ []) = ok s
only_slice (s ∷ t ∷ ss) = err (failure "multiple mirrored endpoints slices found for service")

-- The loop of Configure: the first port with the number, or zero.
unfoldable pub target_port_of : ℤ → List ServicePort → ℤ
target_port_of n [] = pos 0
target_port_of n (p ∷ ps) =
    let rest = target_port_of n ps in if p.port == n then p.target_port else rest

module _ {W : Type 0} (k : Kube W) where
  unfoldable pub take_over : ServiceReference → Slice → Act (Configurer W) (Unit {0})
  unfolding taken
  take_over ref s = if label managed_by s.labels == operator then pure tt else do
    modify (λ c. record c {
      initial_endpoints =
          insert (name_of ref)
            (or_empty (lookup (name_of ref) c.initial_endpoints)
              ++ record { namespace = s.namespace; name = s.name } ∷ [])
            c.initial_endpoints;
    })
    kube (k.update_slice ref.namespace (taken ref s))

  unfoldable pub take_over_endpoints_slices : ServiceReference → Act (Configurer W) (Unit {0})
  unfolding take_over
  take_over_endpoints_slices ref = do
    items ← kube (k.list_slices ref.namespace ref.name)
    modify (λ c. record c {
      initial_endpoints =
          insert (name_of ref) (or_empty (lookup (name_of ref) c.initial_endpoints))
            c.initial_endpoints;
    })
    for_each (take_over ref) items

  unfoldable pub create_mirrored_endpoints_slice :
      ServiceReference → ℤ → Act (Configurer W) (Unit {0})
  unfolding mirrored_endpoints mirrored_ports mirrored_slice
  create_mirrored_endpoints_slice ref target = do
    items ← kube (k.list_slices ref.namespace (ref.name ++ bytes "-beamlit"))
    s ← lift (only_slice items)
    endpoints ← lift (mirrored_endpoints s.endpoints)
    kube (k.apply_slice (mirrored_slice ref s endpoints (mirrored_ports target s.ports)))
    add_stop_chan (name_of ref)

  unfoldable pub clean_unused : ServiceReference → Slice → Act (Configurer W) (Unit {0})
  unfolding emptied
  clean_unused ref s =
      if s.name == ref.name ++ bytes "-beamlit-mirrored"
      then pure tt
      else kube (k.update_slice ref.namespace (emptied s))

  unfoldable pub clean_unused_endpoint_slices : ServiceReference → Act (Configurer W) (Unit {0})
  unfolding clean_unused
  clean_unused_endpoint_slices ref = do
    items ← kube (k.list_slices ref.namespace ref.name)
    for_each (clean_unused ref) items

  -- Configure, for a service that is given.
  unfoldable pub configure_service : ServiceReference → Act (Configurer W) (Unit {0})
  unfolding target_port_of create_mirrored_endpoints_slice take_over_endpoints_slices
      clean_unused_endpoint_slices
  configure_service ref = do
    service ← create_beamlit_model_service k ref
    add_port_to_gateway_service k ref
    take_over_endpoints_slices ref
    let target = target_port_of ref.target_port service.ports
    if target == pos 0 then raise (failure "target port not found in beamlit service") else do
      create_mirrored_endpoints_slice ref target
      clean_unused_endpoint_slices ref
      add_stop_chan (name_of ref)

  -- Configure: a nil reference is read through.
  unfoldable pub configure : Option ServiceReference → Act (Configurer W) (Unit {0})
  unfolding configure_service
  configure o = do ref ← deref o; configure_service ref
