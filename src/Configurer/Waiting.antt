-- ===== src/Configurer/Waiting.antt =====
-- watchEndpointsSliceToBeUpdated: how long it holds up Unconfigure.
use beamlit_controller.Base.{
  ℕ, zero, suc, ◌+◌, ◌-◌, ◌*◌, ◌≤◌, Bool, true, false, List, [], ◌∷◌, Text, Act, Result, ok, err,
  panic, pure, gets, continue, ◌>>=◌, ◌≡◌, arith, if◌then◌else◌,
}
use beamlit_controller.Deployment.{ServiceReference}
use beamlit_controller.Configurer.Cluster.{NamespacedName, NamespacedName_Eq, Kube}
use beamlit_controller.Configurer.State.{Configurer, kube}
use beamlit_controller.Configurer.Release.{
  is_restored, is_empty, slices_of, finished, any_restored, forget, pause, wait_round, wait_for,
  watch_endpoints_slice_to_be_updated,
}

module _ {W : Type 0} (clock : W → ℕ) where
  -- `m` takes `n` milliseconds at most, however it ends.
  record Takes {A : Type 0} (n : ℕ) (m : Act (Configurer W) A) : Type 0 where
    at : (c : Configurer W) → clock (m c).1.world ≤ clock c.world + n

  module _ {A : Type 0} where
    Takes-pure : (n : ℕ) (a : A) → Takes n (pure a)
    Takes-pure n a = record { at = λ c. omega arith }

    Takes-gets : (n : ℕ) (f : Configurer W → A) → Takes n (gets f)
    Takes-gets n f = record { at = λ c. omega arith }

    Takes-if :
        (n : ℕ) (b : Bool) (l r : Act (Configurer W) A)
        → Takes n l
        → Takes n r
        → Takes n (if b then l else r)
    Takes-if n true l r hl hr = hl
    Takes-if n false l r hl hr = hr

  module _ {A B : Type 0} where
    continues :
        (n t : ℕ) (r : Result A) (f : A → Act (Configurer W) B) (c : Configurer W)
        → ((a : A) → Takes n (f a))
        → clock c.world ≤ t
        → clock (continue r f c).1.world ≤ t + n
    continues n t (ok a) f c hf h = omega (arith, (hf a).at c, h)
    continues n t (err e) f c hf h = omega (arith, h)
    continues n t panic f c hf h = omega (arith, h)

    Takes-bind :
        (i n : ℕ) (m : Act (Configurer W) A) (f : A → Act (Configurer W) B)
        → Takes i m
        → ((a : A) → Takes n (f a))
        → Takes (i + n) (m >>= f)
    Takes-bind i n m f hm hf = record {
      at = λ c. omega (arith, continues n (clock c.world + i) (m c).0 f (m c).1 hf (hm.at c));
    }

    Takes-after :
        (n : ℕ) (m : Act (Configurer W) A) (f : A → Act (Configurer W) B)
        → Takes 0 m
        → ((a : A) → Takes n (f a))
        → Takes n (m >>= f)
    Takes-after n m f hm hf = record { at = λ c. omega (arith, (Takes-bind 0 n m f hm hf).at c) }

module _ {W : Type 0} (k : Kube W) (clock : W → ℕ)
    (reads : (n e : Text) (w : W) → clock (k.get_slice n e w).1 ≡ clock w)
    (sleeps : (n : ℕ) (w : W) → clock (k.sleep n w) ≡ clock w + n) where
  Takes-get_slice : (i : ℕ) (n e : Text) → Takes clock i (kube (k.get_slice n e))
  Takes-get_slice i n e = record { at = λ c. omega (arith, reads n e c.world) }

  Takes-forget : (i : ℕ) (ref : ServiceReference) → Takes clock i (forget k ref)
  Takes-forget i ref = record { at = λ c. omega arith }

  Takes-pause : (n : ℕ) → Takes clock n (pause k n)
  Takes-pause n = record { at = λ c. omega (arith, sleeps n c.world) }

  Takes-any_restored : (i : ℕ) (es : List NamespacedName) → Takes clock i (any_restored k es)
  unfolding any_restored
  Takes-any_restored i [] = Takes-pure clock i false
  Takes-any_restored i (e ∷ es) =
      Takes-after clock i (kube (k.get_slice e.namespace e.name)) _
        (Takes-get_slice 0 e.namespace e.name)
        (λ s.
          Takes-if clock i (is_restored s) (pure true) (any_restored k es) (Takes-pure clock i true)
            (Takes-any_restored i es))

  Takes-wait_round :
      (i : ℕ) (ref : ServiceReference) (again : Act (Configurer W) (Unit {0}))
      → Takes clock i again
      → Takes clock i (wait_round k ref again)
  unfolding wait_round
  Takes-wait_round i ref again h =
      Takes-after clock i (gets (finished k)) _ (Takes-gets clock 0 (finished k)) (λ finished.
        Takes-after clock i (gets (slices_of k ref)) _ (Takes-gets clock 0 (slices_of k ref))
          (λ initial. Takes-if clock i finished _ _ (Takes-pure clock i tt) (
            Takes-if clock i (is_empty initial) _ _ (Takes-pure clock i tt) (
              Takes-after clock i (any_restored k initial) _ (Takes-any_restored 0 initial)
                (λ restored. Takes-if clock i restored _ _ (Takes-forget i ref) h)))))

  -- 100 milliseconds for each turn that is behind, summed up over the turns to follow.
  abbrev waits : ℕ → ℕ
  waits zero = 0
  waits (suc n) = (4 - n) * 100 + waits n

  Takes-wait_for : (n : ℕ) (ref : ServiceReference) → Takes clock (waits n) (wait_for k n ref)
  unfolding wait_for
  Takes-wait_for zero ref = Takes-wait_round 0 ref _ (Takes-forget 0 ref)
  Takes-wait_for (suc n) ref = Takes-wait_round (waits (suc n)) ref _ (
      Takes-bind clock ((4 - n) * 100) (waits n) _ _ (Takes-pause ((4 - n) * 100))
        (λ _. Takes-wait_for n ref))

  -- However the cluster answers, waiting for the slices to be filled again takes a second at most.
  -- `clock` counts the milliseconds: reading a slice takes none, sleeping `n` takes `n`.
  pub watch_endpoints_slice_to_be_updated-takes :
      (ref : ServiceReference) (c : Configurer W)
      → clock (watch_endpoints_slice_to_be_updated k ref c).1.world ≤ clock c.world + 1000
  unfolding watch_endpoints_slice_to_be_updated
  watch_endpoints_slice_to_be_updated-takes ref c = (Takes-wait_for 4 ref).at c
