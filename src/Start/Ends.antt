-- ===== src/Start/Ends.antt =====
-- How main ends.
use beamlit_controller.Base.{
  ℕ, text_eq, none, [], Text, bytes, Text_Eq, ℤ_Eq, take, lookup, Act, panic, false, pure, ◌⊎◌, inl,
  inr, ◌≡◌, ◌≢◌, refl, arith,
}
use beamlit_controller.Base.Triples.{
  Post, Ensures-relaxed, Gives, Gives-Ensures, Gives-pure, Gives-bind, Gives-then, Gives-bind_any,
  Ensures-bind,
}
use beamlit_controller.Beamlit.Login.{new_client, new_beamlit_token, configured}
use beamlit_controller.Beamlit.Token.{Environment, retrieve_info_from_env}
use beamlit_controller.Config.{Config}
use beamlit_controller.Start.Factories.{
  kubernetes_configurer_type, beamlit_gateway_offloader_type, new_configurer,
  new_kubernetes_configurer, new_offloader, new_beamlit_gateway_offloader,
}
use beamlit_controller.Start.Loaded.{Fills, Idle, Untouched, Said, load_lem}
use beamlit_controller.Start.Main.{dataplane, new_reconciler, components, run_all, main}
use beamlit_controller.Start.Options.{load}
use beamlit_controller.Start.Pieces.{
  health_made, options_read, all_registered, informer_chosen, service_read, address_read,
}
use beamlit_controller.Start.Plan.{Settings, Says, plan, informer_of, fresh_parts}
use beamlit_controller.Start.Platform.{
  Platform, RestConfig, Boot, answer, result_of, kube_clientset,
}
use beamlit_controller.Start.Steps.{
  At, Stopped, Answers, Returns, answered, given_outside, answered_outside, any_outside,
  given_config, spawned,
}

configurer_made :
    {W : Type 0}
    → Returns {W = W} (new_configurer kubernetes_configurer_type) (record {
      gateway_service_ref = none;
      beamlit_services = [];
      initial_endpoints = [];
      stop_chans = [];
      world = tt;
    })
unfolding new_configurer new_kubernetes_configurer lookup text_eq bytes
configurer_made = Gives-pure _

offloader_made :
    {W : Type 0}
    → Returns {W = W}
        (new_offloader beamlit_gateway_offloader_type)
        (record { managed_routes = []; workspace = []; world = tt })
unfolding new_offloader new_beamlit_gateway_offloader lookup text_eq bytes
offloader_made = Gives-pure _

module _ {W R : Type 0} (p : Platform W R) where
  abbrev logged_in : Act W Text
  logged_in = new_client (λ t. result_of (p.decode t)) (λ u k. answer (p.new_sdk u k)) p.environment

  credentials_read :
      (e : Environment) → retrieve_info_from_env (λ t. result_of (p.decode t)) e ≢ panic
  unfolding retrieve_info_from_env
  credentials_read e h = ground arith

  logged_in-Answers : Answers logged_in
  unfolding new_client new_beamlit_token configured
  logged_in-Answers = record { at = λ w h. ground (arith, credentials_read p.environment) }

  module _ {Q : Type 0} (c : Config) (v : Settings) (says : Says c v) where
    dataplane_made :
        Gives
          (At {W = W} {Q = Q} c v 2)
          (dataplane
            (informer_of c.metric_informer_config)
            (record { watchers = []; is_closed = false }))
          (new_reconciler c.default_remote_backend (fresh_parts c v))
          (At c v 3)
          (Stopped c v)
    unfolding dataplane
    dataplane_made = Gives-bind _ _ (given_outside c v 2 configurer_made) (
        Gives-bind _ _ (service_read p c v says) (
          Gives-then _ _ (spawned c v 2 _ refl) (
            Gives-bind _ _ (address_read p c v says) (
              Gives-bind _ _ (given_outside c v 3 offloader_made) (
                Gives-bind _ (λ d. pure (new_reconciler d (fresh_parts c v)))
                  (given_config c v 3 (λ k. k.default_remote_backend)) (Gives-pure _))))))

    components_made :
        (i : RestConfig R)
        → Gives
            (At {W = W} {Q = Q} c v 0)
            (components p i)
            (new_reconciler c.default_remote_backend (fresh_parts c v))
            (At c v 3)
            (Stopped c v)
    unfolding components
    components_made i = Gives-bind _ _ (informer_chosen p c v says i) (
        Gives-then _ _ (spawned c v 0 _ refl) (
          Gives-bind _ _ (given_outside c v 1 (health_made p i)) (
            Gives-then _ _ (spawned c v 1 _ refl) (
              Gives-then _ _ (answered_outside c v 2 (p.new_client kube_clientset i))
                (Gives-bind_any _ _ (any_outside c v 2 logged_in-Answers) (λ _. dataplane_made))))))

    main_rest : Gives (At {W = W} {Q = Q} c v 0) (run_all p) tt (At c v 6) (Stopped c v)
    unfolding run_all
    main_rest = Gives-bind _ _ (options_read p c v says) (
        Gives-bind_any _ _ (any_outside c v 0 (answered p.get_config)) (λ i.
          Gives-then _ _ (answered_outside c v 0 (p.new_manager i _)) (
            Gives-bind _ _ (components_made i) (
              Gives-then _ _ (all_registered p c v says) (
                Gives-then _ _ (spawned c v 3 _ refl) (
                  Gives-then _ _ (spawned c v 4 _ refl) (
                    Gives-then _ _ (spawned c v 5 _ refl) (
                      Gives-then _ _ (answered_outside c v 6 p.start_manager)
                        (answered_outside c v 6 p.close_file)))))))))

module _ {W Q : Type 0} where
  -- The first `n` tasks of the plan run, for what the loaded configuration says.
  abbrev pub Running : ℕ → Boot W Q → Type 0
  Running n b = (v : Settings) × Says b.config v × (b.tasks ≡ take n (plan b.config v))

  abbrev pub Failed : Boot W Q → Type 0
  Failed b = Idle b ⊎ ((n : ℕ) × Running n b)

module _ {W R Q : Type 0} (p : Platform W R) where
  rest_ends :
      (b : Boot W Q)
      → Untouched Said b
      → Post (λ _. Running 6) Failed (run_all p b).0 (run_all p b).1
  rest_ends b (idle, (v, says)) =
      (Gives-Ensures (λ _. Running 6) (run_all p) (λ t h. (v, rw (h.0) says, rw (h.0) (h.1)))
          (λ t h. inr (h.1.0, (v, rw (h.0) says, rw (h.0) (h.1.1))))
          (main_rest p b.config v says)).at
        b (refl, idle)

  pub main_ends :
      (path : Text) (b : Boot W Q)
      → Fills p.from_yaml
      → Fills p.from_json
      → b.tasks ≡ []
      → Post (λ _. Running 6) Failed (main p path b).0 (main p path b).1
  unfolding main
  main_ends path b yaml json idle =
      (Ensures-bind (load p path) (λ _. run_all p)
          (Ensures-relaxed (λ _. Untouched Said) (λ t h. inl h) (load_lem p yaml json path))
          (λ _. record { at = rest_ends })).at
        b idle
