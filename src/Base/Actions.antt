-- ===== src/Base/Actions.antt =====
-- Code that changes a state and may fail: `err` is a returned error, `panic` a Go panic. What was
-- written before either stays written.
use Prim.Native.String.{String}
use mathlib.Core.Option.{Option, none, some}
use mathlib.Core.List.{List, [], ◌∷◌}

-- An error, up to what the code asks of it: `errors.IsNotFound` and `errors.IsConflict` of the
-- Kubernetes API, and for the rest its text without the values that are put into it.
pub data Error : Type 0 where
  not_found conflict : Error
  failure : String → Error

pub data Result {ℓ} (A : Type ℓ) : Type ℓ where
  ok : A → Result A
  err : Error → Result A
  panic : Result A

abbrev pub Act {ℓ} : Type ℓ → Type ℓ → Type ℓ
Act S A = S → Result A × S

module _ {ℓ} {S A : Type ℓ} where
  abbrev pub pure : A → Act S A
  pure a s = (ok a, s)

  abbrev pub raise : Error → Act S A
  raise e s = (err e, s)

  abbrev pub crash : Act S A
  crash s = (panic, s)

  abbrev pub lift : Result A → Act S A
  lift r s = (r, s)

  abbrev pub gets : (S → A) → Act S A
  gets f s = (ok (f s), s)

  -- A pointer that is read through.
  abbrev pub deref : Option A → Act S A
  deref none s = (panic, s)
  deref (some a) s = (ok a, s)

  abbrev pub handle_error : Result A → (Error → Act S A) → Act S A
  handle_error (ok a) h s = (ok a, s)
  handle_error (err e) h s = h e s
  handle_error panic h s = (panic, s)

  -- `if err := m; err != nil { h }`
  abbrev pub catch : Act S A → (Error → Act S A) → Act S A
  catch m h s = handle_error (m s).0 h (m s).1

abbrev pub modify : {S : Type 0} → (S → S) → Act S (Unit {0})
modify f s = (ok tt, f s)

module _ {ℓ} {S A B : Type ℓ} where
  abbrev pub continue : Result A → (A → Act S B) → Act S B
  continue (ok a) f s = f a s
  continue (err e) f s = (err e, s)
  continue panic f s = (panic, s)

infixl 5 ◌>>=◌ ◌>>◌
abbrev pub ◌>>=◌ {ℓ} : {S A B : Type ℓ} → Act S A → (A → Act S B) → Act S B
◌>>=◌ m f s = continue (m s).0 f (m s).1

abbrev pub ◌>>◌ {ℓ} : {S A B : Type ℓ} → Act S A → Act S B → Act S B
m >> n = m >>= λ _. n

-- for _, x := range xs { body }
unfoldable pub for_each : {S A : Type 0} → (A → Act S (Unit {0})) → List A → Act S (Unit {0})
for_each body [] = pure tt
for_each body (x ∷ xs) = let rest = for_each body xs in body x >> rest
