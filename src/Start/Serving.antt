-- ===== src/Start/Serving.antt =====
-- What the processes that main starts are like.
use beamlit_controller.Base.{
  ℕ, zero, suc, false, some, List, [], ◌∷◌, Text, bytes, Text_Eq, take, All, sym, ◌∙◌, lookup,
  Result, ok, err, panic, inl, inr, ◌≡◌, refl,
}
use beamlit_controller.Base.Triples.{Post}
use beamlit_controller.Deployment.{ModelDeployment}
use beamlit_controller.Controller.Run.{Input, run}
use beamlit_controller.Controller.Sound.{IsValid, IsSound}
use beamlit_controller.Controller.Sound.Runs.{run-IsSound}
use beamlit_controller.Controller.State.{Deps}
use beamlit_controller.Start.Ends.{Running, Failed, main_ends}
use beamlit_controller.Start.Loaded.{Fills}
use beamlit_controller.Start.Main.{main, new_reconciler}
use beamlit_controller.Start.Options.{disable_http2, options}
use beamlit_controller.Start.Plan.{Settings, Says, plan, fresh_parts}
use beamlit_controller.Start.Platform.{
  Platform, Protocols, Parts, Task, Boot, watch_for_informer_updates, run_manager,
}
use beamlit_controller.Config.{DefaultRemoteBackend}

-- What a server offers after the functions of its options.
abbrev pub offered : List (Protocols → Protocols) → Protocols → Protocols
offered [] c = c
offered (f ∷ fs) c = offered fs (f c)

All-take : {A : Type 0} (P : A → Type 0) (n : ℕ) (xs : List A) → All P xs → All P (take n xs)
All-take P zero xs h = tt
All-take P (suc n) [] h = tt
All-take P (suc n) (x ∷ xs) h = (h.0, All-take P n xs h.1)

module _ {W Q : Type 0} where
  ended : (r : Result (Unit {0})) (b : Boot W Q) → Post (λ _. Running 6) Failed r b → Failed b
  ended (ok a) b h = inr (6, h)
  ended (err e) b h = h
  ended panic b h = elim h [ ]

  -- What holds of every task of the plan holds of those that are started.
  All-started :
      (P : Task Q → Type 0) (b : Boot W Q)
      → ((v : Settings) → Says b.config v → All P (plan b.config v))
      → Failed b
      → All P b.tasks
  All-started P b all (inl e) = rw e tt
  All-started P b all (inr (n, (v, says, e))) = rw e (All-take P n (plan b.config v) (all v says))

module _ {M B Q : Type 0} (d : Deps (Parts Q) M B) (is : List Input) where
  -- The maps of a reconciler that is watched are sound, whatever it has handled.
  abbrev pub StaysSound : Task Q → Type 0
  StaysSound (watch_for_informer_updates r) = IsSound (run d is r).1
  StaysSound _ = Unit

module _ {Q : Type 0} (protocols : Protocols) where
  -- The servers of the manager offer nothing but HTTP/1.1.
  abbrev pub RefusesHttp2 : Task Q → Type 0
  RefusesHttp2 (run_manager o) =
      (offered o.metrics_tls protocols ≡ bytes "http/1.1" ∷ [])
      × (offered o.webhook_tls protocols ≡ bytes "http/1.1" ∷ [])
  RefusesHttp2 _ = Unit

fresh-IsSound :
    {Q : Type 0} (d : DefaultRemoteBackend) (parts : Parts Q) → IsSound (new_reconciler d parts)
unfolding new_reconciler lookup
fresh-IsSound d parts = record { at_key = λ k p e. cc; at_model = λ k v e. cc }

module _ {W R Q : Type 0} (p : Platform W R) (path : Text) (b : Boot W Q) (yaml : Fills p.from_yaml)
    (json : Fills p.from_json) (idle : b.tasks ≡ []) where
  main-Failed : Failed (main p path b).1
  main-Failed = ended (main p path b).0 (main p path b).1 (main_ends p path b yaml json idle)

  -- Every reconciler that main starts to watch keeps sound maps, whatever requests and reports it
  -- handles and whatever the components do that it calls. It supposes what `main_ends` supposes of
  -- the decoders, and that the cluster returns only resources whose percentage is in the range
  -- that the schema of the resource enforces.
  pub started-StaysSound :
      {M B : Type 0} (d : Deps (Parts Q) M B) (is : List Input)
      → ((namespace name : Text) (w : Parts Q) (m : ModelDeployment M)
          → (d.get_model namespace name w).0 ≡ ok m
          → IsValid m)
      → All (StaysSound d is) (main p path b).1.tasks
  started-StaysSound d is served =
      All-started (StaysSound d is) (main p path b).1
        (λ v says. (
          tt,
          (
            tt,
            (
              tt,
              (
                run-IsSound d served is _
                    (fresh-IsSound _ (fresh_parts (main p path b).1.config v)),
                (tt, (tt, tt)),
              ),
            ),
          ),
        ))
        main-Failed

  -- If the loaded configuration does not enable HTTP/2, the servers for metrics and webhooks of a
  -- manager that main runs offer HTTP/1.1 only, whatever they would have offered. It supposes what
  -- `main_ends` supposes of the decoders.
  pub started-RefusesHttp2 :
      (protocols : Protocols)
      → (main p path b).1.config.enable_http2 ≡ some false
      → All (RefusesHttp2 protocols) (main p path b).1.tasks
  unfolding options disable_http2
  started-RefusesHttp2 protocols off =
      All-started (RefusesHttp2 protocols) (main p path b).1
        (λ v says. (tt, (tt, (tt, (tt, (tt, (refused v (sym says.filled.http2 ∙ off), tt)))))))
        main-Failed
    where
      refused :
          (v : Settings)
          → some v.http2 ≡ some false
          → RefusesHttp2 {Q = Q} protocols (
              run_manager (
                options v.http2 v.metrics_address v.secure_metrics v.probe_address v.leader_election
                  v.namespaces))
      refused v e = let off : v.http2 ≡ false = cc in simp off (refl, refl)
