-- ===== src/Start/Options.antt =====
-- cmd/main.go: reading the configuration, and the options of the manager that it leads to.
use beamlit_controller.Base.{
  Bool, true, false, Option, none, some, List, [], ◌∷◌, Text, Text_Eq, bytes, Dict, insert, Act,
  pure, gets, deref, modify, ◌>>=◌, ◌>>◌, ◌==◌, if◌then◌else◌,
}
use beamlit_controller.Config.{Config, default, validate, from_file}
use beamlit_controller.Beamlit.Token.{split}
use beamlit_controller.Start.Platform.{
  Platform, Protocols, ManagerOptions, Boot, answer, outside, configuring,
}

-- c.NextProtos = []string{"http/1.1"}
unfoldable pub disable_http2 : Protocols → Protocols
disable_http2 offered = bytes "http/1.1" ∷ []

abbrev pub tls_opts : Bool → List (Protocols → Protocols)
tls_opts true = []
tls_opts false = disable_http2 ∷ []

-- for _, ns := range names { namespacesList[ns] = cache.Config{} }
unfoldable pub add_namespaces : Dict Text (Unit {0}) → List Text → Dict Text (Unit {0})
add_namespaces d [] = d
add_namespaces d (n ∷ names) = add_namespaces (insert n tt d) names

unfoldable pub namespaces_list : Text → Dict Text (Unit {0})
unfolding add_namespaces split
namespaces_list names = if names == [] then [] else add_namespaces [] (split 44 names)

-- if len(namespacesList) > 0
abbrev pub cache_limit : Dict Text (Unit {0}) → Option (Dict Text (Unit {0}))
cache_limit [] = none
cache_limit (e ∷ d) = some (e ∷ d)

unfoldable pub options : Bool → Text → Bool → Text → Bool → Text → ManagerOptions
unfolding namespaces_list
options http2 metrics secure probe elect names = record {
  metrics_address = metrics;
  secure_serving = secure;
  metrics_tls = tls_opts http2;
  webhook_tls = tls_opts http2;
  probe_address = probe;
  leader_election = elect;
  namespaces = cache_limit (namespaces_list names);
}

module _ {W R Q : Type 0} (p : Platform W R) where
  -- The file stays open until main returns.
  unfoldable pub load : Text → Act (Boot W Q) (Unit {0})
  load path = do
    modify (λ b. record b { config = default b.config })
    text ← outside (answer (p.open_file path))
    configuring (from_file (λ t. answer (p.from_yaml t)) (λ t. answer (p.from_json t)) path text)
    configuring validate

module _ {W Q : Type 0} where
  -- *cfg.f
  abbrev pub read : {A : Type 0} → (Config → Option A) → Act (Boot W Q) A
  read f = do o ← gets (λ b. f b.config); deref o

  unfoldable pub manager_options : Act (Boot W Q) ManagerOptions
  manager_options = do
    http2 ← read (λ c. c.enable_http2)
    metrics ← read (λ c. c.metrics_addr)
    secure ← read (λ c. c.secure_metrics)
    probe ← read (λ c. c.probe_addr)
    elect ← read (λ c. c.enable_leader_election)
    names ← read (λ c. c.namespaces)
    pure (options http2 metrics secure probe elect names)
