-- ===== src/Configurer/Samples.antt =====
-- A service of a model in a small cluster, whose state is the time, for the tests.
use beamlit_controller.Base.{ℕ, ◌+◌, false, none, some, [], ◌∷◌, bytes, pos, pure}
use beamlit_controller.Deployment.{ServiceReference}
use beamlit_controller.Configurer.Cluster.{Service, SlicePort, Slice, Kube}
use beamlit_controller.Configurer.State.{Configurer}

abbrev pub ref : ServiceReference
ref = record {
  kind = bytes "Service";
  namespace = bytes "n";
  name = bytes "s";
  target_port = pos 80;
}

abbrev pub gateway : ServiceReference
gateway = record {
  kind = bytes "Service";
  namespace = bytes "b";
  name = bytes "g";
  target_port = pos 8080;
}

abbrev pub http : SlicePort
http = record { name = some (bytes "http"); port = some (pos 80); protocol = none }

abbrev pub metrics : SlicePort
metrics = record { name = some (bytes "metrics"); port = some (pos 9090); protocol = none }

abbrev pub slice : Slice
slice = record {
  namespace = bytes "n";
  name = bytes "s-1";
  labels = (bytes "kubernetes.io/service-name", bytes "s") ∷ [];
  address_type = bytes "IPv4";
  endpoints = [];
  ports = http ∷ metrics ∷ [];
}

abbrev pub service : Service
service = record {
  namespace = bytes "n";
  name = bytes "s";
  ports = record { name = []; port = pos 80; protocol = bytes "TCP"; target_port = pos 80 } ∷ [];
  selector = [];
  cluster_ips = bytes "10.0.0.1" ∷ [];
  external_ips = [];
}

abbrev pub gateway_service : Service
gateway_service = record service { ports = []; external_ips = bytes "10.0.0.2" ∷ [] }

abbrev pub cluster : Kube ℕ
cluster = record {
  get_service = λ n s. pure service;
  apply_service = λ s. pure s;
  update_service = λ n s. pure tt;
  delete_service = λ n s. pure tt;
  list_slices = λ n s. pure (slice ∷ []);
  get_slice = λ n s. pure slice;
  update_slice = λ n s. pure tt;
  apply_slice = λ s. pure tt;
  delete_slice = λ n s. pure tt;
  is_done = λ w. false;
  sleep = λ n w. w + n;
}

abbrev pub initial : Configurer ℕ
initial = record {
  gateway_service_ref = some gateway;
  beamlit_services = [];
  initial_endpoints =
      (
        record { namespace = bytes "n"; name = bytes "s" },
        record { namespace = bytes "n"; name = bytes "s-1" } ∷ [],
      )
      ∷ [];
  stop_chans = [];
  world = 0;
}
