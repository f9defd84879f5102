-- ===== src/Base/Keeps.antt =====
-- What an action leaves true, one rule for each way to build an action.
use mathlib.Core.Path.{◌≡◌, refl}
use mathlib.Core.List.{List, [], ◌∷◌}
use mathlib.Core.Bool.{Bool, true, false}
use mathlib.Core.Option.{Option, none, some}
use beamlit_controller.Base.Tests.{if◌then◌else◌}
use beamlit_controller.Base.Actions.{
  Error, Result, ok, err, panic, Act, pure, raise, lift, gets, deref, handle_error, catch, continue,
  for_each, ◌>>=◌,
}

-- `m` keeps `P`, whether it returns, fails or panics.
pub record Keeps {S A : Type 0} (P : S → Type 0) (m : Act S A) : Type 0 where
  pub at : (s : S) → P s → P (m s).1

module _ {S A : Type 0} {P : S → Type 0} where
  pub Keeps-pure : (a : A) → Keeps P (pure a)
  Keeps-pure a = record { at = λ s h. h }

  pub Keeps-raise : (e : Error) → Keeps P (raise {A = A} e)
  Keeps-raise e = record { at = λ s h. h }

  pub Keeps-lift : (r : Result A) → Keeps P (lift r)
  Keeps-lift r = record { at = λ s h. h }

  pub Keeps-gets : (f : S → A) → Keeps P (gets f)
  Keeps-gets f = record { at = λ s h. h }

  pub Keeps-deref : (o : Option A) → Keeps P (deref o)
  Keeps-deref none = record { at = λ s h. h }
  Keeps-deref (some a) = record { at = λ s h. h }

  pub Keeps-if : (b : Bool) (m n : Act S A) → Keeps P m → Keeps P n → Keeps P (if b then m else n)
  Keeps-if true m n km kn = km
  Keeps-if false m n km kn = kn

  handled :
      (r : Result A) (h : Error → Act S A) (s : S)
      → ((e : Error) → Keeps P (h e))
      → P s
      → P (handle_error r h s).1
  handled (ok a) h s kh p = p
  handled (err e) h s kh p = (kh e).at s p
  handled panic h s kh p = p

  pub Keeps-catch :
      (m : Act S A) (h : Error → Act S A)
      → Keeps P m
      → ((e : Error) → Keeps P (h e))
      → Keeps P (catch m h)
  Keeps-catch m h km kh = record { at = λ s p. handled (m s).0 h (m s).1 kh (km.at s p) }

module _ {S A B : Type 0} {P : S → Type 0} where
  continued :
      (r : Result A) (f : A → Act S B) (s : S)
      → ((a : A) → Keeps P (f a))
      → P s
      → P (continue r f s).1
  continued (ok a) f s kf p = (kf a).at s p
  continued (err e) f s kf p = p
  continued panic f s kf p = p

  pub Keeps-bind :
      (m : Act S A) (f : A → Act S B) → Keeps P m → ((a : A) → Keeps P (f a)) → Keeps P (m >>= f)
  Keeps-bind m f km kf = record { at = λ s p. continued (m s).0 f (m s).1 kf (km.at s p) }

module _ {S A B : Type 0} {P : S → Type 0} where
  continued_ok :
      (r : Result A) (f : A → Act S B) (s : S)
      → ((a : A) → r ≡ ok a → Keeps P (f a))
      → P s
      → P (continue r f s).1
  continued_ok (ok a) f s kf p = (kf a refl).at s p
  continued_ok (err e) f s kf p = p
  continued_ok panic f s kf p = p

  -- The rest may use that its argument was returned.
  pub Keeps-bind_ok :
      (m : Act S A) (f : A → Act S B)
      → Keeps P m
      → ((s : S) (a : A) → (m s).0 ≡ ok a → Keeps P (f a))
      → Keeps P (m >>= f)
  Keeps-bind_ok m f km kf = record { at = λ s p. continued_ok (m s).0 f (m s).1 (kf s) (km.at s p) }

pub Keeps-for_each :
    {S A : Type 0} {P : S → Type 0} (body : A → Act S (Unit {0})) (xs : List A)
    → ((x : A) → Keeps P (body x))
    → Keeps P (for_each body xs)
unfolding for_each
Keeps-for_each body [] k = Keeps-pure tt
Keeps-for_each body (x ∷ xs) k = Keeps-bind (body x) _ (k x) (λ _. Keeps-for_each body xs k)

-- If `m` returns, `Q` holds after it.
pub record Ends {S A : Type 0} (Q : S → Type 0) (m : Act S A) : Type 0 where
  pub at : (s : S) (a : A) → (m s).0 ≡ ok a → Q (m s).1

module _ {S A B : Type 0} {Q : S → Type 0} where
  ended :
      (r : Result A) (f : A → Act S B) (s : S) (b : B)
      → ((a : A) → Ends Q (f a))
      → (continue r f s).0 ≡ ok b
      → Q (continue r f s).1
  ended (ok a) f s b ef h = (ef a).at s b h
  ended (err e) f s b ef h = cc
  ended panic f s b ef h = cc

  pub Ends-bind : (m : Act S A) (f : A → Act S B) → ((a : A) → Ends Q (f a)) → Ends Q (m >>= f)
  Ends-bind m f ef = record { at = λ s b h. ended (m s).0 f (m s).1 b ef h }

  ended_ok :
      (r : Result A) (f : A → Act S B) (s : S) (b : B)
      → ((a : A) → r ≡ ok a → Ends Q (f a))
      → (continue r f s).0 ≡ ok b
      → Q (continue r f s).1
  ended_ok (ok a) f s b ef h = (ef a refl).at s b h
  ended_ok (err e) f s b ef h = cc
  ended_ok panic f s b ef h = cc

  -- The rest may use that its argument was returned.
  pub Ends-bind_ok :
      (m : Act S A) (f : A → Act S B)
      → ((s : S) (a : A) → (m s).0 ≡ ok a → Ends Q (f a))
      → Ends Q (m >>= f)
  Ends-bind_ok m f ef = record { at = λ s b h. ended_ok (m s).0 f (m s).1 b (ef s) h }

  kept :
      (r : Result A) (f : A → Act S B) (s : S) (b : B)
      → ((a : A) → r ≡ ok a → Q s)
      → ((a : A) → Keeps Q (f a))
      → (continue r f s).0 ≡ ok b
      → Q (continue r f s).1
  kept (ok a) f s b q kf h = (kf a).at s (q a refl)
  kept (err e) f s b q kf h = cc
  kept panic f s b q kf h = cc

  -- The rest keeps what the first part has made true.
  pub Ends-Keeps :
      (m : Act S A) (f : A → Act S B) → Ends Q m → ((a : A) → Keeps Q (f a)) → Ends Q (m >>= f)
  Ends-Keeps m f em kf = record { at = λ s b h. kept (m s).0 f (m s).1 b (em.at s) kf h }

pub ruleset keeps_rules = (
  Keeps-pure, Keeps-raise, Keeps-lift, Keeps-gets, Keeps-deref, Keeps-if, Keeps-catch, Keeps-bind,
  Keeps-for_each,
)
