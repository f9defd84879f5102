-- ===== src/Metric/Condition/Settled.antt =====
-- One update: the condition stays consistent, and says of the metric what was observed.
use beamlit_controller.Base.{
  Bool, true, false, not, Option, none, some, List, [], ◌∷◌, ◌++◌, ℤ, Result, ok, err, panic, ◌≡◌,
  ◌||◌, refl, arith, ap, ◌∙◌, Bool-cases, inl, inr, if◌then◌else◌,
}
use beamlit_controller.Metric.Condition.{Condition, is_empty, scan, reset, settle, settled, update}
use beamlit_controller.Metric.Condition.Latest.{
  same, contains, IsDistinct, contains-same, scan-true, scan-none, scan-false,
  scan-false-IsDistinct,
}

module _ {M : Type 0} (equal : M → M → Result Bool) where
  pub record IsConsistent (c : Condition M) : Type 0 where
    pub distinct : IsDistinct equal c.current
    pub nonempty : c.reached ≡ not (is_empty c.current)

  contains-concat :
      (n m : M) (xs : List M)
      → contains equal n (xs ++ m ∷ []) ≡ (contains equal n xs || same equal m n)
  contains-concat n m [] = ground arith
  contains-concat n m (x ∷ xs) = ground (arith, contains-concat n m xs)

  is_empty-concat : (m : M) (xs : List M) → is_empty (xs ++ m ∷ []) ≡ false
  is_empty-concat m [] = refl
  is_empty-concat m (x ∷ xs) = refl

  module _ (symmetric : (a b : M) → same equal a b ≡ same equal b a)
      (transitive : (a b c : M)
        → same equal a b ≡ true
        → same equal b c ≡ true
        → same equal a c ≡ true) where
    IsDistinct-concat :
        (m : M) (xs : List M)
        → IsDistinct equal xs
        → contains equal m xs ≡ false
        → IsDistinct equal (xs ++ m ∷ [])
    IsDistinct-concat m [] d h = (refl, tt)
    IsDistinct-concat m (x ∷ xs) d h = (
      ground (arith, d.0, contains-concat x m xs, symmetric x m),
      IsDistinct-concat m xs d.1 (ground arith),
    )

    -- One update, by the outcome of the loop.
    settle_lem :
        (c : Condition M) (m : M) (b : Bool) (t : ℤ) (o : Option (List M))
        → IsConsistent c
        → scan equal m b c.current ≡ ok o
        → (n : M)
        → contains equal n (settle equal m b t c o).current
          ≡ (if same equal m n then b else contains equal n c.current)
    unfolding settle reset
    settle_lem c m true t none h e n = ground (
      arith,
      scan-none equal m true c.current e,
      contains-concat n m c.current,
      contains-same equal symmetric transitive m n c.current,
    )
    settle_lem c m false t none h e n = ground (
      arith,
      scan-none equal m false c.current e,
      contains-same equal symmetric transitive m n c.current,
    )
    settle_lem c m true t (some l) h e n = ground (
      arith,
      scan-true equal m c.current e,
      contains-same equal symmetric transitive m n c.current,
    )
    settle_lem c m false t (some l) h e n =
        ground (arith, scan-false equal symmetric transitive m c.current h.distinct e n)

    -- The loop finds nothing in an empty list.
    found_nonempty :
        (m : M) (b : Bool) (xs l : List M) → scan equal m b xs ≡ ok (some l) → is_empty xs ≡ false
    unfolding scan
    found_nonempty m b [] l e = ground arith
    found_nonempty m b (x ∷ xs) l e = refl

    reset-IsConsistent :
        (c : Condition M)
        → IsDistinct equal c.current
        → c.reached ≡ true
        → IsConsistent (reset equal c)
    unfolding reset
    reset-IsConsistent c d r = elim (Bool-cases (is_empty c.current)) [
      | inl p ↦ rw p (record { distinct = d; nonempty = rw p })
      | inr p ↦ rw p (record { distinct = d; nonempty = rw (p, r) })
    ]

    reset-keeps : (c : Condition M) → IsConsistent c → IsConsistent (reset equal c)
    unfolding reset
    reset-keeps c h = elim (Bool-cases (is_empty c.current)) [
      | inl p ↦ rw p (record { distinct = h.distinct; nonempty = rw p })
      | inr p ↦ rw p h
    ]

    settle-IsConsistent :
        (c : Condition M) (m : M) (b : Bool) (t : ℤ) (o : Option (List M))
        → IsConsistent c
        → scan equal m b c.current ≡ ok o
        → IsConsistent (settle equal m b t c o)
    unfolding settle
    settle-IsConsistent c m true t none h e = elim (Bool-cases c.reached) [
      | inl p ↦ rw p (
          reset-IsConsistent (record c { current = c.current ++ m ∷ []; reached = true })
            (IsDistinct-concat m c.current h.distinct (scan-none equal m true c.current e)) refl)
      | inr p ↦ rw p (
          reset-IsConsistent
            (record c { current = c.current ++ m ∷ []; reached = true; since_time = t })
            (IsDistinct-concat m c.current h.distinct (scan-none equal m true c.current e)) refl)
    ]
    settle-IsConsistent c m false t none h e = reset-keeps c h
    settle-IsConsistent c m true t (some l) h e =
        reset-IsConsistent (record c { current = l })
          (rw (scan-true equal m c.current e).0 h.distinct)
          (h.nonempty ∙ ap not (found_nonempty m true c.current l e))
    settle-IsConsistent c m false t (some l) h e =
        reset-IsConsistent (record c { current = l })
          (scan-false-IsDistinct equal symmetric transitive m c.current h.distinct e)
          (h.nonempty ∙ ap not (found_nonempty m false c.current l e))

    -- What a successful update does, in all: it keeps the condition consistent, and it sets what
    -- the observed metric says and leaves the others.
    pub update_lem :
        (c d : Condition M) (m : M) (b : Bool) (t : ℤ)
        → IsConsistent c
        → update equal c m b t ≡ ok d
        → IsConsistent d
          × ((n : M)
              → contains equal n d.current
                ≡ (if same equal m n then b else contains equal n c.current))
    unfolding update
    update_lem c d m b t h e = by_scan (scan equal m b c.current) refl e
      where
        by_scan :
            (x : Result (Option (List M)))
            → scan equal m b c.current ≡ x
            → settled equal m b t c x ≡ ok d
            → IsConsistent d
              × ((n : M)
                  → contains equal n d.current
                    ≡ (if same equal m n then b else contains equal n c.current))
        by_scan (ok o) p q =
            let r : settle equal m b t c o ≡ d = cc q in
            rw (← r) (settle-IsConsistent c m b t o h p, settle_lem c m b t o h p)
        by_scan (err x) p q = cc
        by_scan panic p q = cc
