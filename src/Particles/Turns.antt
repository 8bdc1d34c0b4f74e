-- ===== src/Particles/Turns.antt =====
-- Single turns of the loop, where the elements stand.
use mathlib.Core.List.{Perm, append_assoc, perm_append_comm}
use flowscape.Base.{
  ℕ, zero, suc, ◌+◌, ◌-◌, ◌≤◌, Bool, true, false, ◌≡◌, refl, ◌∙◌, sym, ap, subst, List, [], ◌∷◌,
  ◌++◌, some, arith, length, length-append, length-set, get_or, set, take, eqb, ltb, Bool-cases,
  ◌⊎◌, inl, inr,
}
use flowscape.Particles.Sweep.{Swarm, kill, turn, turns, survivors}

module _ {A : Type 0} where
  get_or-append : (xs ys : List A) (y d : A) → get_or (xs ++ (y ∷ ys)) (length xs) d ≡ y
  get_or-append [] ys y d = refl
  get_or-append (x ∷ xs) ys y d = get_or-append xs ys y d

  set-append : (xs ys : List A) (y z : A) → set (xs ++ (y ∷ ys)) (length xs) z ≡ xs ++ (z ∷ ys)
  set-append [] ys y z = refl
  set-append (x ∷ xs) ys y z = ap (◌∷◌ x) (set-append xs ys y z)

  -- A list is empty or has a last element.
  pub snoc_cases : (xs : List A) → (xs ≡ []) ⊎ ((ys : List A) × (z : A) × (xs ≡ ys ++ (z ∷ [])))
  snoc_cases [] = inl refl
  snoc_cases (x ∷ xs) = elim (snoc_cases xs) [
    | inl e ↦ inr ([], x, ap (◌∷◌ x) e)
    | inr (ys, z, e) ↦ inr (x ∷ ys, z, ap (◌∷◌ x) e)
  ]

  pub take-append : (xs ys : List A) → take (length xs) (xs ++ ys) ≡ xs
  take-append [] ys = refl
  take-append (x ∷ xs) ys = ap (◌∷◌ x) (take-append xs ys)

  pub length-take : (n : ℕ) (xs : List A) → length (take n xs) ≤ n
  length-take zero xs = omega arith
  length-take (suc n) [] = omega arith
  length-take (suc n) (x ∷ xs) = omega (arith, length-take n xs)

  pub split_at :
      (n : ℕ) (xs : List A)
      → n ≤ length xs
      → (ys : List A) × (xs ≡ take n xs ++ ys) × (length (take n xs) ≡ n)
  split_at zero xs h = (xs, refl, refl)
  split_at (suc n) [] h = absurd (omega arith)
  split_at (suc n) (x ∷ xs) h =
      let (ys, e, l) = split_at n xs (omega arith) in (ys, ap (◌∷◌ x) e, ap suc l)

module _ {A : Type 0} (blank : A) (step : A → Bool × A) where
  pub survivors-append :
      (xs ys : List A)
      → survivors blank step (xs ++ ys) ≡ survivors blank step xs ++ survivors blank step ys
  unfolding survivors
  survivors-append [] ys = refl
  survivors-append (x ∷ xs) ys = elim (Bool-cases (step x).0) [
    | inl q ↦ rw q (survivors-append xs ys)
    | inr q ↦ rw q (ap (◌∷◌ (step x).1) (survivors-append xs ys))
  ]

  pub length-survivors : (xs : List A) → length (survivors blank step xs) ≤ length xs
  unfolding survivors
  length-survivors [] = omega arith
  length-survivors (x ∷ xs) = elim (Bool-cases (step x).0) [
    | inl q ↦ rw q (omega (arith, length-survivors xs))
    | inr q ↦ rw q (omega (arith, length-survivors xs))
  ]

  -- A loop that has come to the end stops.
  pub turns-end :
      (fuel i : ℕ) (p : Swarm A) → ltb i p.alive ≡ false → turns blank step fuel i p ≡ some p
  unfolding turns
  turns-end zero i p h = rw h refl
  turns-end (suc fuel) i p h = rw h refl

  pub turns-next :
      (fuel i : ℕ) (p : Swarm A)
      → ltb i p.alive ≡ true
      → turns blank step (suc fuel) i p
        ≡ turns blank step fuel (turn blank step i p).0 (turn blank step i p).1
  unfolding turns
  turns-next fuel i p h = rw h refl

  module _ (done dead : List A) (s : A) (p : Swarm A) where
    module _ (rest : List A) (cells : p.cells ≡ done ++ (s ∷ (rest ++ dead))) where
      abbrev pub written : Swarm A
      written = record p { cells = set p.cells (length done) (step s).1 }

      pub written-cells : written.cells ≡ done ++ ((step s).1 ∷ (rest ++ dead))
      written-cells =
          ap (λ c. set c (length done) (step s).1) cells
          ∙ set-append done (rest ++ dead) s (step s).1

      read : get_or p.cells (length done) blank ≡ s
      read =
          ap (λ c. get_or c (length done) blank) cells ∙ get_or-append done (rest ++ dead) s blank

      pub turn_stays :
          (step s).0 ≡ false → turn blank step (length done) p ≡ (suc (length done), written)
      unfolding turn
      turn_stays q = rw (read, q) refl

      pub turn_goes :
          (step s).0 ≡ true
          → turn blank step (length done) p ≡ (length done, kill blank written (length done))
      unfolding turn
      turn_goes q = rw (read, q) refl

    -- The last one goes.
    pub kill_last :
        (w : Swarm A)
        → w.alive ≡ length done + 1
        → kill blank w (length done) ≡ record w { alive = length done }
    unfolding kill
    kill_last w alive = let k : w.alive - 1 ≡ length done = omega arith in rw k (ground arith)

    -- Another one goes: the last takes its place.
    pub kill_inner :
        (ys : List A) (z : A) (w : Swarm A)
        → w.cells ≡ done ++ (s ∷ ((ys ++ (z ∷ [])) ++ dead))
        → w.alive ≡ length done + suc (length (ys ++ (z ∷ [])))
        → ((kill blank w (length done)).cells ≡ done ++ ((z ∷ ys) ++ (z ∷ dead)))
          × ((kill blank w (length done)).alive ≡ length done + length (z ∷ ys))
    unfolding kill
    kill_inner ys z w cells alive =
        let last : w.alive - 1 ≡ length (done ++ (s ∷ ys)) =
          omega (arith, length-append ys (z ∷ []), length-append done (s ∷ ys)) in
        let whole : w.cells ≡ done ++ (s ∷ (ys ++ (z ∷ dead))) =
          cells ∙ ap (λ c. done ++ (s ∷ c)) (append_assoc ys (z ∷ []) dead) in
        let read : get_or w.cells (length (done ++ (s ∷ ys))) blank ≡ z =
          ap (λ c. get_or c (length (done ++ (s ∷ ys))) blank)
            (whole ∙ sym (append_assoc done (s ∷ ys) (z ∷ dead)))
          ∙ get_or-append (done ++ (s ∷ ys)) dead z blank in
        let inside : eqb (length done) (length (done ++ (s ∷ ys))) ≡ false =
          ground (arith, length-append done (s ∷ ys)) in
        let filled =
          ap (λ c. set c (length done) z) whole ∙ set-append done (ys ++ (z ∷ dead)) s z in
        rw (last, inside, read) (filled, omega (arith, length-append done (s ∷ ys)))

  pub length-kill : (w : Swarm A) (i : ℕ) → length (kill blank w i).cells ≡ length w.cells
  unfolding kill
  length-kill w i = elim (Bool-cases (eqb i (w.alive - 1))) [
    | inl q ↦ rw q refl
    | inr q ↦ rw q (length-set w.cells i _)
  ]

  -- The survivors do not depend on where an element stands.
  pub survivors-last :
      (ys : List A) (z : A)
      → Perm (survivors blank step (z ∷ ys)) (survivors blank step (ys ++ (z ∷ [])))
  survivors-last ys z =
      subst (λ xs. Perm xs (survivors blank step (ys ++ (z ∷ []))))
        (sym (survivors-append (z ∷ []) ys))
        (subst (Perm (survivors blank step (z ∷ []) ++ survivors blank step ys))
          (sym (survivors-append ys (z ∷ [])))
          (perm_append_comm (survivors blank step (z ∷ [])) (survivors blank step ys)))

  pub length-survivors_last :
      (ys : List A) (z : A)
      → length (survivors blank step (z ∷ ys)) ≡ length (survivors blank step (ys ++ (z ∷ [])))
  length-survivors_last ys z = omega (
    arith,
    ap length (survivors-append (z ∷ []) ys),
    ap length (survivors-append ys (z ∷ [])),
    length-append (survivors blank step (z ∷ [])) (survivors blank step ys),
    length-append (survivors blank step ys) (survivors blank step (z ∷ [])),
  )
