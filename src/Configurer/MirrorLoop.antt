-- ===== src/Configurer/MirrorLoop.antt =====
-- The loop of mirrorEndpointSlices, which takes ports out of the slice that it ranges over.
use mathlib.Core.List.{append-nil}
use beamlit_controller.Base.{
  ℕ, suc, ◌+◌, ◌-◌, ◌≤◌, true, false, List, [], ◌∷◌, ◌++◌, All, All-drop, All-append, length, take,
  drop, drop-append, get-append, length-append, take-length, take-here, take_at, drop-next,
  length-last, append_assoc, Text_Eq, ℤ, ok, ap, sym, ◌∙◌, ◌≡◌, refl, arith, Bool-cases, inl, inr,
}
use beamlit_controller.Configurer.Cluster.{SlicePort}
use beamlit_controller.Configurer.Slices.{is_target, mirrored_ports}
use beamlit_controller.Configurer.Mirror.{close_up, remove_target}

module _ (target : ℤ) where
  abbrev IsOther : SlicePort → Type 0
  IsOther p = is_target target p.port ≡ false

  -- At most one port has the number.
  abbrev IsOnce : List SlicePort → Type 0
  IsOnce [] = Unit
  IsOnce (p ∷ ps) = (is_target target p.port ≡ true → All IsOther ps) × IsOnce ps

  turn-other :
      (todo n : ℕ) (xs ys : List SlicePort) (y : SlicePort)
      → IsOther y
      → remove_target target (suc todo) (length xs) n (xs ++ y ∷ ys)
        ≡ remove_target target todo (suc (length xs)) n (xs ++ y ∷ ys)
  unfolding remove_target
  turn-other todo n xs ys y h = ground (arith, get-append xs (y ∷ ys), h)

  turn-target :
      (todo n : ℕ) (xs ys : List SlicePort) (y : SlicePort)
      → is_target target y.port ≡ true
      → suc (length xs) ≤ n
      → remove_target target (suc todo) (length xs) n (xs ++ y ∷ ys)
        ≡ remove_target target todo
            (suc (length xs))
            (n - 1)
            (close_up (length xs) n (xs ++ y ∷ ys))
  unfolding remove_target
  turn-target todo n xs ys y h small = ground (arith, get-append xs (y ∷ ys), h)

  append-one : (xs ys : List SlicePort) (y : SlicePort) → (xs ++ y ∷ []) ++ ys ≡ xs ++ y ∷ ys
  append-one xs ys y = append_assoc xs (y ∷ []) ys

  length-one : (xs : List SlicePort) (y : SlicePort) → length (xs ++ y ∷ []) ≡ suc (length xs)
  length-one xs y = omega (arith, length-append xs (y ∷ []))

  -- The loop passes over what is not the target.
  remove_target-others :
      (xs ys : List SlicePort) (n : ℕ)
      → All IsOther ys
      → remove_target target (length ys) (length xs) n (xs ++ ys) ≡ ok (take n (xs ++ ys))
  unfolding remove_target
  remove_target-others xs [] n h = refl
  remove_target-others xs (y ∷ ys) n h =
      turn-other (length ys) n xs ys y h.0
      ∙ simp (append-one xs ys y, length-one xs y) at (remove_target-others (xs ++ y ∷ []) ys n h.1)

  -- What is closed up over the target, when the ports fill the array.
  close_up-last :
      (xs ys : List SlicePort) (y : SlicePort)
      → close_up (length xs) (length xs + suc (length ys)) (xs ++ y ∷ ys)
        ≡ xs ++ (ys ++ drop (length ys) (y ∷ ys))
  unfolding close_up
  close_up-last xs ys y =
      ap (λ a. a ++ between ++ drop end cells) (take-here xs (y ∷ ys))
      ∙ ap (λ a. xs ++ a ++ drop end cells)
          (ap (λ a. take a (drop (suc (length xs)) cells)) (omega arith)
            ∙ ap (take (length ys)) (drop-next xs ys y)
            ∙ take-length ys)
      ∙ ap (λ a. xs ++ ys ++ drop a cells) (omega arith)
      ∙ ap (λ a. xs ++ ys ++ a) (drop-append xs (y ∷ ys) (length ys))
      ∙ append_assoc xs ys (drop (length ys) (y ∷ ys))
    where
      cells : List SlicePort
      cells = xs ++ y ∷ ys

      end : ℕ
      end = length xs + suc (length ys) - 1

      between : List SlicePort
      between = take (length xs + suc (length ys) - suc (length xs)) (drop (suc (length xs)) cells)

  length-rest :
      (ys : List SlicePort) (z : SlicePort)
      → length (ys ++ drop (length ys) (z ∷ ys)) ≡ suc (length ys)
  length-rest ys z = omega (arith, length-append ys (drop (length ys) (z ∷ ys)), length-last ys z)

  -- Behind the target there are as many turns as elements left of it, and none is the target.
  after_target :
      (xs ys : List SlicePort) (y : SlicePort)
      → All IsOther ys
      → remove_target target
          (length ys)
          (suc (length xs))
          (length xs + length ys)
          (xs ++ (ys ++ drop (length ys) (y ∷ ys)))
        ≡ ok (xs ++ ys)
  unfolding remove_target
  after_target xs [] y h =
      ap ok (take_at (length xs + 0) xs (y ∷ []) (omega arith) ∙ sym (append-nil xs))
  after_target xs (z ∷ ys) y h =
      ap
        (λ t.
          remove_target target t (suc (length xs)) (length xs + suc (length ys)) (xs ++ z ∷ rest))
        (sym (length-rest ys z))
      ∙ simp (append-one xs rest z, length-one xs z) at
          (remove_target-others (xs ++ z ∷ []) rest (length xs + suc (length ys))
            (All-append IsOther ys last h.1 (All-drop IsOther (length ys) (z ∷ ys) h)))
      ∙ ap ok (
          ap (take (length xs + suc (length ys))) (sym (append_assoc xs (z ∷ ys) last))
          ∙ take_at (length xs + suc (length ys)) (xs ++ z ∷ ys) last
              (sym (length-append xs (z ∷ ys))))
    where
      last : List SlicePort
      last = drop (length ys) (z ∷ ys)

      rest : List SlicePort
      rest = ys ++ last

  mirrored_ports-others : (ys : List SlicePort) → All IsOther ys → mirrored_ports target ys ≡ ys
  unfolding mirrored_ports
  mirrored_ports-others [] h = refl
  mirrored_ports-others (y ∷ ys) h = ground (arith, h.0, mirrored_ports-others ys h.1)

  mirrored_ports-target :
      (y : SlicePort) (ys : List SlicePort)
      → is_target target y.port ≡ true
      → mirrored_ports target (y ∷ ys) ≡ mirrored_ports target ys
  unfolding mirrored_ports
  mirrored_ports-target y ys h = ground (arith, h)

  mirrored_ports-other :
      (y : SlicePort) (ys : List SlicePort)
      → IsOther y
      → mirrored_ports target (y ∷ ys) ≡ y ∷ mirrored_ports target ys
  unfolding mirrored_ports
  mirrored_ports-other y ys h = ground (arith, h)

  remove_target_from :
      (xs ys : List SlicePort)
      → IsOnce ys
      → remove_target target (length ys) (length xs) (length xs + length ys) (xs ++ ys)
        ≡ ok (xs ++ mirrored_ports target ys)
  unfolding mirrored_ports remove_target
  remove_target_from xs [] h =
      ap ok (take_at (length xs + 0) xs [] (omega arith) ∙ sym (append-nil xs))
  remove_target_from xs (y ∷ ys) h = elim (Bool-cases (is_target target y.port)) [
    | inl t ↦
        turn-target (length ys) (length xs + suc (length ys)) xs ys y t (omega arith)
        ∙ ap (remove_target target (length ys) (suc (length xs)) (length xs + suc (length ys) - 1))
            (close_up-last xs ys y)
        ∙ ap
            (λ n.
              remove_target target (length ys) (suc (length xs)) n
                (xs ++ (ys ++ drop (length ys) (y ∷ ys))))
            (omega arith)
        ∙ after_target xs ys y (h.0 t)
        ∙ ap (λ a. ok (xs ++ a))
            (sym (mirrored_ports-others ys (h.0 t)) ∙ sym (mirrored_ports-target y ys t))
    | inr f ↦
        turn-other (length ys) (length xs + suc (length ys)) xs ys y f
        ∙ ap (λ n. remove_target target (length ys) (suc (length xs)) n (xs ++ y ∷ ys))
            (omega arith)
        ∙ simp (append-one xs ys y, length-one xs y) at (remove_target_from (xs ++ y ∷ []) ys h.1)
        ∙ ap ok (append-one xs (mirrored_ports target ys) y)
        ∙ ap (λ a. ok (xs ++ a)) (sym (mirrored_ports-other y ys f))
  ]

  -- An event of the watch of a slice in which at most one port has the number that is redirected
  -- makes of the ports what the first mirror makes of them: the loop that takes the port out of
  -- the slice it ranges over does not panic, and leaves every other port, in the same order.
  pub remove_target-mirrors :
      (ports : List SlicePort)
      → IsOnce ports
      → remove_target target (length ports) 0 (length ports) ports
        ≡ ok (mirrored_ports target ports)
  remove_target-mirrors ports h =
      ap (λ n. remove_target target (length ports) 0 n ports) (omega arith)
      ∙ remove_target_from [] ports h
