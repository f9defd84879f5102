-- ===== src/Start/Loaded.antt =====
-- What the loading of the configuration leaves.
use beamlit_controller.Base.{
  Bool, true, false, bytes, ◌||◌, if◌then◌else◌, Option, none, some, [], Text, Text_Eq, Act, Result,
  ok, err, panic, ◌⊎◌, inl, inr, ◌≡◌, refl,
}
use beamlit_controller.Base.Triples.{Post, Ensures, Ensures-bind}
use beamlit_controller.Config.{Config, default, validate, from_file, has_suffix}
use beamlit_controller.Start.Options.{load}
use beamlit_controller.Start.Plan.{Settings, Says, IsFilled}
use beamlit_controller.Start.Platform.{
  Platform, Boot, Call, Reply, got, refused, answer, result_of, outside, configuring,
}
use beamlit_controller.Start.Steps.{Anything}

-- A text that the decoder accepts sets no default to null, and gives an address to the informer of
-- Prometheus if it asks for that.
abbrev pub Fills : (Text → Call Config (Unit {0})) → Type 0
Fills decode =
    (t : Text) (c : Config)
    → (decode t (default c)).0 ≡ got tt
    → (v : Settings) × IsFilled (decode t (default c)).1 v

Option-cases : {A : Type 0} (o : Option A) → (o ≡ none) ⊎ ((a : A) × (o ≡ some a))
Option-cases none = inl refl
Option-cases (some a) = inr (a, refl)

abbrev pub Filled : Config → Type 0
Filled c = (v : Settings) × IsFilled c v

abbrev pub Said : Config → Type 0
Said c = (v : Settings) × Says c v

validated : (c : Config) → Filled c → Post (λ _. Said) Anything (validate c).0 (validate c).1
unfolding validate
validated c (v, f) = elim (Option-cases c.proxy_service.namespace) [
  | inl e ↦ simp e tt
  | inr (namespace, e) ↦ elim (Option-cases c.proxy_service.name) [
    | inl e' ↦ simp (e, e') tt
    | inr (name, e') ↦ elim (Option-cases c.proxy_service.port) [
      | inl e3 ↦ simp (e, e', e3) tt
      | inr (port, e3) ↦ elim (Option-cases c.proxy_service.admin_port) [
        | inl e4 ↦ simp (e, e', e3, e4) tt
        | inr (admin, e4) ↦
            simp (e, e', e3, e4)
              (
                record v {
                  proxy_namespace = namespace;
                  proxy_name = name;
                  port = port;
                  admin_port = admin;
                },
                record {
                  filled = record {
                    http2 = f.http2;
                    metrics = f.metrics;
                    secure = f.secure;
                    probe = f.probe;
                    elect = f.elect;
                    names = f.names;
                    address = f.address;
                  };
                  namespace = e;
                  name = e';
                  port = e3;
                  admin_port = e4;
                },
              )
      ]
    ]
  ]
]

-- It is the default configuration, as far as it goes.
abbrev IsDefault : Config → Type 0
IsDefault c = (k : Config) × (c ≡ default k)

decoded_config :
    (decode : Text → Call Config (Unit {0})) (c : Config) (t : Text)
    → Fills decode
    → (r : Reply (Unit {0})) → (decode t (default c)).0 ≡ r
    → Post {A = Unit {0}} (λ _. Filled) Anything (result_of r) (decode t (default c)).1
decoded_config decode c t fills (got a) e = fills t c e
decoded_config decode c t fills (refused x) e = tt

module _ {W R : Type 0} (p : Platform W R) (yaml : Fills p.from_yaml)
    (json : Fills p.from_json) where
  abbrev chosen : Bool → Text → Act Config (Unit {0})
  chosen b t = if b then answer (p.from_yaml t) else answer (p.from_json t)

  chosen_lem : (b : Bool) (t : Text) → Ensures IsDefault (chosen b t) (λ _. Filled) Anything
  chosen_lem true t = record {
    at = λ c h.
        rw (h.1) (decoded_config p.from_yaml h.0 t yaml (p.from_yaml t (default h.0)).0 refl);
  }
  chosen_lem false t = record {
    at = λ c h.
        rw (h.1) (decoded_config p.from_json h.0 t json (p.from_json t (default h.0)).0 refl);
  }

  file_read :
      (path t : Text)
      → Ensures IsDefault
          (from_file (λ t. answer (p.from_yaml t)) (λ t. answer (p.from_json t)) path t)
          (λ _. Filled)
          Anything
  unfolding from_file
  file_read path t =
      chosen_lem (has_suffix path (bytes ".yaml") || has_suffix path (bytes ".yml")) t

module _ {W Q : Type 0} where
  -- No task is started.
  abbrev pub Idle : Boot W Q → Type 0
  Idle b = b.tasks ≡ []

  abbrev pub Untouched : (Config → Type 0) → Boot W Q → Type 0
  Untouched P b = (b.tasks ≡ []) × P b.config

  kept :
      {A : Type 0} (P : Config → Type 0) (b : Boot W Q) (r : Result A) (c : Config)
      → Idle b
      → Post (λ _. P) Anything r c
      → Post (λ _. Untouched P) Idle r (record b { config = c })
  kept P b (ok a) c h q = (h, q)
  kept P b (err e) c h q = h
  kept P b panic c h q = q

  configuring_lem :
      {A : Type 0} (P R : Config → Type 0) (m : Act Config A)
      → Ensures P m (λ _. R) Anything
      → Ensures (Untouched P) (configuring m) (λ _. Untouched R) Idle
  configuring_lem P R m e = record {
    at = λ b h. kept R b (m b.config).0 (m b.config).1 h.0 (e.at b.config h.1);
  }

  opened :
      {A : Type 0} (P : Config → Type 0) (b : Boot W Q) (r : Reply A) (w : W)
      → Untouched P b
      → Post (λ _. Untouched P) Idle (result_of r) (record b { world = w })
  opened P b (got a) w h = h
  opened P b (refused e) w h = h.0

module _ {W R Q : Type 0} (p : Platform W R) (yaml : Fills p.from_yaml)
    (json : Fills p.from_json) where
  pub load_lem :
      (path : Text) → Ensures (Idle {W = W} {Q = Q}) (load p path) (λ _. Untouched Said) Idle
  unfolding load
  load_lem path = record {
    at = λ b h.
        (Ensures-bind (outside (answer (p.open_file path))) _ file_opened (λ t.
            Ensures-bind _ _ (configuring_lem IsDefault Filled _ (file_read p yaml json path t))
              (λ _. configuring_lem Filled Said validate (record { at = validated })))).at
          (record b { config = default b.config }) (h, (b.config, refl));
  }
    where
      file_opened :
          Ensures
            (Untouched {W = W} {Q = Q} IsDefault)
            (outside (answer (p.open_file path)))
            (λ _. Untouched IsDefault)
            Idle
      file_opened = record {
        at = λ b h. opened IsDefault b (p.open_file path b.world).0 (p.open_file path b.world).1 h;
      }
