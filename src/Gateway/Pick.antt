-- ===== src/Gateway/Pick.antt =====
-- weightedRandomBackend of gateway/internal/proxy/utils.go.
use beamlit_controller.Base.{
  ℕ, ◌+◌, ◌≤◌, ◌<◌, ◌^◌, Option, none, some, List, [], ◌∷◌, ◌++◌, All, ℤ, pos, pos_part, ltb_ℤ,
  add64, add64-pos, Act, Result, ok, panic, lift, ◌>>=◌, ◌≡◌, arith, if◌then◌else◌,
}
use beamlit_controller.Gateway.Types.{Backend}

pub record WeightedBackend : Type 0 where
  pub backend : Backend
  pub weight : ℤ

-- The loop: `last` is the sum of the weights so far.
unfoldable pub pick : ℤ → ℤ → List WeightedBackend → Option Backend
pick index last [] = none
pick index last (b ∷ bs) =
    let next = add64 last b.weight in
    let rest = pick index next bs in if ltb_ℤ index next then some b.backend else rest

-- backends[len(backends)-1].backend
unfoldable pub last_backend : List WeightedBackend → Result Backend
last_backend [] = panic
last_backend (b ∷ []) = ok b.backend
last_backend (b ∷ c ∷ bs) = last_backend (c ∷ bs)

abbrev pub or_last : List WeightedBackend → Option Backend → Result Backend
or_last bs none = last_backend bs
or_last bs (some b) = ok b

-- `intn` is rand.Intn.
unfoldable pub weighted_random_backend :
    {W : Type 0} → (ℤ → Act W ℤ) → List WeightedBackend → ℤ → Act W Backend
weighted_random_backend intn bs total = do
  index ← intn total
  lift (or_last bs (pick index (pos 0) bs))

-- A weight that is not negative.
abbrev pub IsCounted : WeightedBackend → Type 0
IsCounted b = b.weight ≡ pos (pos_part b.weight)

abbrev pub weights : List WeightedBackend → ℕ
weights [] = 0
weights (b ∷ bs) = pos_part b.weight + weights bs

pub pick-from :
    (xs ys : List WeightedBackend) (b : WeightedBackend) (a r : ℕ)
    → All IsCounted xs
    → IsCounted b
    → a + weights xs + pos_part b.weight < 2 ^ 63
    → a + weights xs ≤ r
    → r < a + weights xs + pos_part b.weight
    → pick (pos r) (pos a) (xs ++ b ∷ ys) ≡ some b.backend
unfolding pick
pick-from [] ys b a r counted c small low high =
    rw (c, add64-pos a (pos_part b.weight) (omega arith)) (ground arith)
pick-from (x ∷ xs) ys b a r counted c small low high =
    rw (counted.0, add64-pos a (pos_part x.weight) (omega arith))
      (ground (
        arith,
        pick-from xs ys b (a + pos_part x.weight) r counted.1 c (omega arith) (omega arith)
            (omega arith),
      ))

-- A backend is picked by the draws that lie between the sum of the weights before it and that sum
-- with its own weight: as many draws as its weight says. It supposes weights that are not
-- negative, and whose sum is below 2 ^ 63.
pub picked_by_weight :
    {W : Type 0} (intn : ℤ → Act W ℤ) (w v : W) (xs ys : List WeightedBackend) (b : WeightedBackend)
    (r : ℕ) (total : ℤ)
    → intn total w ≡ (ok (pos r), v)
    → All IsCounted xs
    → IsCounted b
    → weights xs + pos_part b.weight < 2 ^ 63
    → weights xs ≤ r
    → r < weights xs + pos_part b.weight
    → weighted_random_backend intn (xs ++ b ∷ ys) total w ≡ (ok b.backend, v)
unfolding weighted_random_backend
picked_by_weight intn w v xs ys b r total drawn counted c small low high =
    rw (drawn, pick-from xs ys b 0 r counted c (omega arith) (omega arith) (omega arith))
