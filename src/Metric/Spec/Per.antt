-- ===== src/Metric/Spec/Per.antt =====
-- Tests that are symmetric and transitive, and how they are put together.
use beamlit_controller.Base.{
  Bool, true, false, Option, none, some, ◌==◌, ◌&&◌, not, refl, sym, ◌∙◌, if◌then◌else◌, ◌≡◌, arith,
  Text_Eq, ℤ_Eq, Eq, eq_sym, eq_trans,
}
use beamlit_controller.Metric.Spec.{MetricTargetType_Eq, MetricSourceType_Eq, both, sources}
use beamlit_controller.Metric.Condition.Latest.{is_true}

-- A test that is symmetric and transitive.
pub record IsPer {A : Type 0} (f : A → A → Bool) : Type 0 where
  pub symmetric : (a b : A) → f a b ≡ f b a
  pub transitive : (a b c : A) → f a b ≡ true → f b c ≡ true → f a c ≡ true

pub eq-IsPer : {A : Type 0} ⦃e : Eq A⦄ → IsPer (λ (a b : A). a == b)
eq-IsPer = record { symmetric = eq_sym; transitive = eq_trans }

module _ {A : Type 0} where
  pub both-sym : (f : A → A → Bool) → IsPer f → (a b : Option A) → both f a b ≡ both f b a
  both-sym f h none none = refl
  both-sym f h none (some b) = refl
  both-sym f h (some a) none = refl
  both-sym f h (some a) (some b) = h.symmetric a b

  pub both_trans :
      (f : A → A → Bool)
      → IsPer f
      → (a b c : Option A) → both f a b ≡ true
      → both f b c ≡ true
      → both f a c ≡ true
  both_trans f h (some a) (some b) (some c) p q = h.transitive a b c p q
  both_trans f h none b c p q = cc
  both_trans f h (some a) none c p q = cc
  both_trans f h (some a) (some b) none p q = cc

  pub both-IsPer : (f : A → A → Bool) → IsPer f → IsPer (both f)
  both-IsPer f h = record { symmetric = both-sym f h; transitive = both_trans f h }

  pub and-IsPer : (f g : A → A → Bool) → IsPer f → IsPer g → IsPer (λ a b. f a b && g a b)
  and-IsPer f g h k = record {
    symmetric = λ a b. rw (h.symmetric a b, k.symmetric a b);
    transitive = λ a b c p q. ground (arith, h.transitive a b c, k.transitive a b c);
  }

  pub on-IsPer :
      {B : Type 0} (g : B → A) (f : A → A → Bool) → IsPer f → IsPer (λ a b. f (g a) (g b))
  on-IsPer g f h = record {
    symmetric = λ a b. h.symmetric (g a) (g b);
    transitive = λ a b c. h.transitive (g a) (g b) (g c);
  }

  -- A comparison by pointers succeeds exactly where both are given and the test passes.
  pub is_true-sources : (f : A → A → Bool) (a b : Option A) → is_true (sources f a b) ≡ both f a b
  is_true-sources f none b = refl
  is_true-sources f (some a) none = refl
  is_true-sources f (some a) (some b) = refl

  pub sources-IsPer : (f : A → A → Bool) → IsPer f → IsPer (λ a b. is_true (sources f a b))
  sources-IsPer f h = record {
    symmetric = λ a b. rw (is_true-sources f a b, is_true-sources f b a) (both-sym f h a b);
    transitive = λ a b c p q.
        rw (is_true-sources f a c) (
          both_trans f h a b c (sym (is_true-sources f a b) ∙ p) (sym (is_true-sources f b c) ∙ q));
  }

  -- A test that first compares two types and then goes by the type.
  pub by_type-IsPer :
      {T : Type 0} ⦃e : Eq T⦄ (g : A → T) (f : T → A → A → Bool)
      → ((t : T) → IsPer (f t))
      → IsPer (λ a b. if not (g a == g b) then false else f (g a) a b)
  by_type-IsPer ⦃e⦄ g f h = record {
    symmetric = λ a b.
        ground (arith, e.equals_iff (g a) (g b), e.equals_iff (g b) (g a), (h (g a)).symmetric a b);
    transitive = λ a b c p q. ground (
      arith,
      e.equals_iff (g a) (g b),
      e.equals_iff (g b) (g c),
      e.equals_iff (g a) (g c),
      (h (g a)).transitive a b c,
    );
  }
