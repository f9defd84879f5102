-- ===== src/Start/Steps.antt =====
-- The steps of main, for a configuration that says what main reads.
use beamlit_controller.Base.{
  ℕ, suc, Option, some, [], ◌∷◌, ◌++◌, Text_Eq, take, Act, Result, ok, err, gets, ◌≡◌, refl, ap,
  sym, ◌∙◌,
}
use beamlit_controller.Base.Triples.{Post, Ensures, Gives}
use beamlit_controller.Config.{Config}
use beamlit_controller.Start.Options.{read}
use beamlit_controller.Start.Plan.{Settings, plan}
use beamlit_controller.Start.Platform.{
  Call, Reply, got, refused, Task, Boot, answer, result_of, outside, spawn,
}

abbrev pub Anything : {W : Type 0} → W → Type 0
Anything w = Unit

replied :
    {W A : Type 0} (r : Reply A) (w : W) → Post {A = A} (λ _. Anything) Anything (result_of r) w
replied (got a) w = tt
replied (refused e) w = tt

-- What stands outside may do anything but panic.
abbrev pub Answers : {W A : Type 0} → Act W A → Type 0
Answers m = Ensures Anything m (λ _. Anything) Anything

abbrev pub Returns : {W A : Type 0} → Act W A → A → Type 0
Returns m x = Gives Anything m x Anything Anything

pub answered : {W A : Type 0} (q : Call W A) → Answers (answer q)
answered q = record { at = λ w h. replied (q w).0 (q w).1 }

done :
    {W : Type 0} (r : Reply (Unit {0})) (w : W)
    → Post (λ a t. (a ≡ tt) × Anything t) Anything (result_of r) w
done (got a) w = (refl, tt)
done (refused e) w = tt

pub returned : {W : Type 0} (q : Call W (Unit {0})) → Returns (answer q) tt
returned q = record { at = λ w h. done (q w).0 (q w).1 }

module _ {W Q : Type 0} (c : Config) (v : Settings) where
  -- The first `n` tasks are started.
  abbrev pub At : ℕ → Boot W Q → Type 0
  At n b = (b.config ≡ c) × (b.tasks ≡ take n (plan c v))

  abbrev pub Stopped : Boot W Q → Type 0
  Stopped b = (b.config ≡ c) × ((n : ℕ) × (b.tasks ≡ take n (plan c v)))

  module _ (n : ℕ) where
    left :
        {A : Type 0} (x : A) (b : Boot W Q) (r : Result A) (w : W)
        → At n b
        → Post (λ a t. (a ≡ x) × Anything t) Anything r w
        → Post (λ a t. (a ≡ x) × At n t) Stopped r (record b { world = w })
    left x b (ok a) w h p = (p.0, h)
    left x b (err e) w h p = (h.0, (n, h.1))
    left x b Result.panic w h p = p

    pub given_outside :
        {A : Type 0} {x : A} {m : Act W A} → Returns m x → Gives (At n) (outside m) x (At n) Stopped
    given_outside {x} {m} e = record {
      at = λ b h. left x b (m b.world).0 (m b.world).1 h (e.at b.world tt);
    }

    pub answered_outside :
        (q : Call W (Unit {0})) → Gives (At n) (outside (answer q)) tt (At n) Stopped
    answered_outside q = given_outside (returned q)

    any_left :
        {A : Type 0} (b : Boot W Q) (r : Result A) (w : W)
        → At n b
        → Post (λ _. Anything) Anything r w
        → Post (λ _. At n) Stopped r (record b { world = w })
    any_left b (ok a) w h p = h
    any_left b (err e) w h p = (h.0, (n, h.1))
    any_left b Result.panic w h p = p

    pub any_outside :
        {A : Type 0} {m : Act W A} → Answers m → Ensures (At n) (outside m) (λ _. At n) Stopped
    any_outside {m} e = record {
      at = λ b h. any_left b (m b.world).0 (m b.world).1 h (e.at b.world tt);
    }

    pub given_read :
        {A : Type 0} (f : Config → Option A) (x : A)
        → f c ≡ some x
        → Gives (At n) (read f) x (At n) Stopped
    given_read f x e = record { at = λ b h. rw (ap f h.0 ∙ e) (refl, h) }

    pub given_config :
        {A : Type 0} (f : Config → A) → Gives (At n) (gets (λ b. f b.config)) (f c) (At n) Stopped
    given_config f = record { at = λ b h. (ap f h.0, h) }

    pub spawned :
        (t : Task Q)
        → take (suc n) (plan c v) ≡ take n (plan c v) ++ t ∷ []
        → Gives (At n) (spawn t) tt (At (suc n)) Stopped
    unfolding spawn
    spawned t e = record { at = λ b h. (refl, (h.0, ap (λ ts. ts ++ t ∷ []) h.1 ∙ sym e)) }
