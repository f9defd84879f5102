-- ===== src/Base/Triples.antt =====
-- What an action ends with: that it does not panic is part of each statement.
use mathlib.Core.Path.{◌≡◌, refl, sym, subst}
use beamlit_controller.Base.Actions.{Result, ok, err, panic, Act, pure, continue, ◌>>=◌, ◌>>◌}

abbrev pub Post : {S A : Type 0} → (A → S → Type 0) → (S → Type 0) → Result A → S → Type 0
Post Q E (ok a) s = Q a s
Post Q E (err e) s = E s
Post Q E panic s = ⊥

-- From a state with `P`, the action `m` returns and `Q` holds, or fails and `E` holds.
pub record Ensures {S A : Type 0} (P : S → Type 0) (m : Act S A) (Q : A → S → Type 0)
    (E : S → Type 0) : Type 0 where
  pub at : (s : S) → P s → Post Q E (m s).0 (m s).1

-- It returns `x` and `Q` holds, or fails and `E` holds.
pub record Gives {S A : Type 0} (P : S → Type 0) (m : Act S A) (x : A) (Q E : S → Type 0)
    : Type 0 where
  pub at : (s : S) → P s → Post (λ a t. (a ≡ x) × Q t) E (m s).0 (m s).1

module _ {S A B : Type 0} {E : S → Type 0} {Q : A → S → Type 0} {R : B → S → Type 0} where
  ensured :
      (r : Result A) (f : A → Act S B) (s : S)
      → ((a : A) → Ensures (Q a) (f a) R E)
      → Post Q E r s
      → Post R E (continue r f s).0 (continue r f s).1
  ensured (ok a) f s ef h = (ef a).at s h
  ensured (err e) f s ef h = h
  ensured panic f s ef h = h

  pub Ensures-bind :
      {P : S → Type 0} (m : Act S A) (f : A → Act S B)
      → Ensures P m Q E
      → ((a : A) → Ensures (Q a) (f a) R E)
      → Ensures P (m >>= f) R E
  Ensures-bind m f em ef = record { at = λ s p. ensured (m s).0 f (m s).1 ef (em.at s p) }

module _ {S A : Type 0} {E F : S → Type 0} (Q : A → S → Type 0) where
  relaxed : (r : Result A) (s : S) → ((t : S) → E t → F t) → Post Q E r s → Post Q F r s
  relaxed (ok a) s e h = h
  relaxed (err x) s e h = e s h
  relaxed panic s e h = h

  pub Ensures-relaxed :
      {P : S → Type 0} {m : Act S A} → ((t : S) → E t → F t) → Ensures P m Q E → Ensures P m Q F
  Ensures-relaxed {m} e g = record { at = λ s p. relaxed (m s).0 (m s).1 e (g.at s p) }

module _ {S A : Type 0} {Q E F : S → Type 0} (R : A → S → Type 0) where
  weakened :
      {x : A} (r : Result A) (s : S)
      → ((t : S) → Q t → R x t)
      → ((t : S) → E t → F t)
      → Post (λ a t. (a ≡ x) × Q t) E r s
      → Post R F r s
  weakened (ok a) s q e h = subst (λ b. R b s) (sym h.0) (q s h.1)
  weakened (err x) s q e h = e s h
  weakened panic s q e h = h

  pub Gives-Ensures :
      {P : S → Type 0} {x : A} (m : Act S A)
      → ((t : S) → Q t → R x t)
      → ((t : S) → E t → F t)
      → Gives P m x Q E
      → Ensures P m R F
  Gives-Ensures m q e g = record { at = λ s p. weakened (m s).0 (m s).1 q e (g.at s p) }

module _ {S A : Type 0} {P E : S → Type 0} where
  pub Gives-pure : (x : A) → Gives P (pure x) x P E
  Gives-pure x = record { at = λ s h. (refl, h) }

module _ {S A B : Type 0} {Q R E : S → Type 0} where
  passed_on :
      {y : B} (r : Result A) (x : A) (f : A → Act S B) (s : S)
      → Gives Q (f x) y R E
      → Post (λ a t. (a ≡ x) × Q t) E r s
      → Post (λ b t. (b ≡ y) × R t) E (continue r f s).0 (continue r f s).1
  passed_on (ok a) x f s gf h = rw (h.0) (gf.at s h.1)
  passed_on (err e) x f s gf h = h
  passed_on panic x f s gf h = h

  of_any :
      {y : B} (r : Result A) (f : A → Act S B) (s : S)
      → ((a : A) → Gives Q (f a) y R E)
      → Post (λ _. Q) E r s
      → Post (λ b t. (b ≡ y) × R t) E (continue r f s).0 (continue r f s).1
  of_any (ok a) f s gf h = (gf a).at s h
  of_any (err e) f s gf h = h
  of_any panic f s gf h = h

module _ {S A B : Type 0} {P Q R E : S → Type 0} where
  pub Gives-bind :
      {x : A} {y : B} (m : Act S A) (f : A → Act S B)
      → Gives P m x Q E
      → Gives Q (f x) y R E
      → Gives P (m >>= f) y R E
  Gives-bind {x} m f gm gf = record { at = λ s p. passed_on (m s).0 x f (m s).1 gf (gm.at s p) }

  -- A value that nothing is said of.
  pub Gives-bind_any :
      {y : B} (m : Act S A) (f : A → Act S B)
      → Ensures P m (λ _. Q) E
      → ((a : A) → Gives Q (f a) y R E)
      → Gives P (m >>= f) y R E
  Gives-bind_any m f em gf = record { at = λ s p. of_any (m s).0 f (m s).1 gf (em.at s p) }

module _ {S B : Type 0} {P Q R E : S → Type 0} where
  pub Gives-then :
      {x : Unit {0}} {y : B} (m : Act S (Unit {0})) (n : Act S B)
      → Gives P m x Q E
      → Gives Q n y R E
      → Gives P (m >> n) y R E
  Gives-then m n gm gn = Gives-bind m (λ _. n) gm gn

pub ruleset gives_rules = (Gives-pure, Gives-then, Gives-bind)
