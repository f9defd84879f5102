-- ===== src/Configurer/Gateway.antt =====
-- createBeamlitModelService, addPortToGatewayService and deleteExternalIPsFromGatewayService.
use beamlit_controller.Base.{
  Bool, false, not, List, [], ◌∷◌, ◌++◌, Text, Text_Eq, bytes, insert, ℤ, ℤ_Eq, pos, Act, pure,
  modify, ◌>>=◌, ◌>>◌, ◌==◌, ◌&&◌, ◌||◌, if◌then◌else◌,
}
use beamlit_controller.Deployment.{ServiceReference}
use beamlit_controller.Offloader.Replace.{print_int}
use beamlit_controller.Configurer.Cluster.{NamespacedName_Eq, ServicePort, Service, Kube}
use beamlit_controller.Configurer.State.{Configurer, name_of, kube, gateway_ref}

-- slices.Contains
abbrev pub contains_text : List Text → Text → Bool
contains_text [] x = false
contains_text (y ∷ ys) x = y == x || contains_text ys x

-- The elements of `xs` that are not in `seen`.
unfoldable pub without : List Text → List Text → List Text
without seen [] = []
without seen (x ∷ xs) =
    let rest = without seen xs in if not (contains_text seen x) then x ∷ rest else rest

-- The service that stands for the model's own pods, with the ports and the selector of the model's.
unfoldable pub beamlit_service_of : ServiceReference → Service → Service
beamlit_service_of ref s = record {
  namespace = ref.namespace;
  name = ref.name ++ bytes "-beamlit";
  ports = s.ports;
  selector = s.selector;
  cluster_ips = [];
  external_ips = [];
}

-- The port of the service that has the number, or the zero value.
unfoldable pub find_port : ℤ → List ServicePort → ServicePort
find_port n [] = record { name = []; port = pos 0; protocol = []; target_port = pos 0 }
find_port n (p ∷ ps) = let rest = find_port n ps in if p.port == n then p else rest

unfoldable pub has_port : ℤ → Text → List ServicePort → Bool
has_port n protocol [] = false
has_port n protocol (p ∷ ps) = p.port == n && p.protocol == protocol || has_port n protocol ps

abbrev pub port_to_add : ServiceReference → ServiceReference → Text → ServicePort
port_to_add gateway ref protocol = record {
  name = print_int ref.target_port ++ bytes "-beamlit";
  port = ref.target_port;
  protocol = protocol;
  target_port = gateway.target_port;
}

-- The ports of the gateway service, with the port of the model.
unfoldable pub with_port :
    ServiceReference → ServiceReference → Text → List ServicePort → List ServicePort
unfolding has_port
with_port gateway ref protocol ports =
    if has_port ref.target_port protocol ports
    then ports
    else ports ++ port_to_add gateway ref protocol ∷ []

-- The gateway service as it is updated for the service `s`.
unfoldable pub fronted : ServiceReference → ServiceReference → Service → Service → Service
unfolding with_port find_port without
fronted gateway ref g s = record g {
  ports = with_port gateway ref (find_port ref.target_port s.ports).protocol g.ports;
  external_ips = without g.external_ips s.cluster_ips;
}

module _ {W : Type 0} (k : Kube W) where
  unfoldable pub create_beamlit_model_service : ServiceReference → Act (Configurer W) Service
  unfolding beamlit_service_of
  create_beamlit_model_service ref = do
    s ← kube (k.get_service ref.namespace ref.name)
    applied ← kube (k.apply_service (beamlit_service_of ref s))
    modify (λ c. record c {
      beamlit_services =
          insert (name_of ref) (record { namespace = applied.namespace; name = applied.name })
            c.beamlit_services;
    })
    pure applied

  unfoldable pub add_port_to_gateway_service : ServiceReference → Act (Configurer W) (Unit {0})
  unfolding fronted
  add_port_to_gateway_service ref = do
    gateway ← gateway_ref
    g ← kube (k.get_service gateway.namespace gateway.name)
    s ← kube (k.get_service ref.namespace ref.name)
    kube (k.update_service gateway.namespace (fronted gateway ref g s))

  unfoldable pub delete_external_ips_from_gateway_service :
      ServiceReference → Act (Configurer W) (Unit {0})
  unfolding without
  delete_external_ips_from_gateway_service ref = do
    gateway ← gateway_ref
    g ← kube (k.get_service gateway.namespace gateway.name)
    s ← kube (k.get_service ref.namespace ref.name)
    kube (
        k.update_service gateway.namespace
          (record g { external_ips = without s.cluster_ips g.external_ips }))
