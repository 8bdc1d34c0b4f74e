-- ===== src/Particles/Sweeping.antt =====
-- The loop ends, and treats each element once.
use mathlib.Core.List.{Perm, append-nil, append_assoc}
use mathlib.Core.List.Perm
use flowscape.Base.{
  ℕ, zero, suc, ◌+◌, ◌≤◌, Bool, true, false, ◌≡◌, refl, ◌∙◌, sym, ap, ap₂, subst, List, [], ◌∷◌,
  ◌++◌, some, arith, length, length-append, length-set, take, ltb, Bool-cases, inl, inr,
}
use flowscape.Particles.Sweep.{Swarm, kill, turn, turns, sweep, survivors, live}
use flowscape.Particles.Turns.{
  split_at, take-append, written, written-cells, turns-end, turns-next, turn_stays, turn_goes,
  kill_last, kill_inner, length-kill, survivors-last, length-survivors_last, snoc_cases,
}

-- A swarm whose living elements are, in some order, the ones of a list.
pub record IsLive {A : Type 0} (p : Swarm A) (xs : List A) (size : ℕ) : Type 0 where
  pub living : List A
  pub dead : List A
  pub cells : p.cells ≡ living ++ dead
  pub alive : p.alive ≡ length living
  pub same : Perm living xs
  pub count : length living ≡ length xs
  pub whole : length p.cells ≡ size

module _ {A : Type 0} (blank : A) (step : A → Bool × A) where
  module _ (size : ℕ) where
    -- What the loop makes of a swarm: it ends, with these alive.
    abbrev Ends : ℕ → ℕ → Swarm A → List A → Type 0
    Ends fuel i p xs = (p' : Swarm A) × (turns blank step fuel i p ≡ some p') × IsLive p' xs size

    -- After the living ones that are done there is nothing left to do.
    Ends-nothing :
        (fuel : ℕ) (done dead : List A) (p : Swarm A)
        → p.cells ≡ done ++ dead
        → p.alive ≡ length done
        → length p.cells ≡ size
        → Ends fuel (length done) p (done ++ [])
    Ends-nothing fuel done dead p cells alive whole = (
      p,
      turns-end blank step fuel (length done) p (ground arith),
      record {
        living = done;
        dead = dead;
        cells = cells;
        alive = alive;
        same = subst (Perm done) (sym (append-nil done)) Perm.rfl;
        count = ap length (sym (append-nil done));
        whole = whole;
      },
    )

    Ends-turn :
        (fuel i j : ℕ) (p q : Swarm A) (xs : List A)
        → ltb i p.alive ≡ true
        → turn blank step i p ≡ (j, q)
        → Ends fuel j q xs
        → Ends (suc fuel) i p xs
    Ends-turn fuel i j p q xs inside next (p', ends, found) = (
      p',
      turns-next blank step fuel i p inside ∙ ap (λ n. turns blank step fuel n.0 n.1) next ∙ ends,
      found,
    )

    Ends-order :
        (fuel i : ℕ) (p : Swarm A) (xs ys : List A)
        → Perm xs ys
        → length xs ≡ length ys
        → Ends fuel i p xs
        → Ends fuel i p ys
    Ends-order fuel i p xs ys order count (p', ends, found) = (
      p',
      ends,
      record {
        living = found.living;
        dead = found.dead;
        cells = found.cells;
        alive = found.alive;
        same = Perm.trans found.same order;
        count = found.count ∙ count;
        whole = found.whole;
      },
    )

    -- The claim for loops of so many turns.
    abbrev Sweeps : ℕ → Type 0
    Sweeps fuel =
        (done todo dead : List A) (p : Swarm A)
        → p.cells ≡ done ++ (todo ++ dead)
        → p.alive ≡ length done + length todo
        → length p.cells ≡ size
        → length todo ≤ fuel
        → Ends fuel (length done) p (done ++ survivors blank step todo)

    module _ (fuel : ℕ) (done dead : List A) (s : A) (p : Swarm A) (rest : List A)
        (cells : p.cells ≡ done ++ (s ∷ (rest ++ dead))) (whole : length p.cells ≡ size)
        (inside : ltb (length done) p.alive ≡ true) where
      abbrev w : Swarm A
      w = written blank step done dead s p rest cells

      w-whole : length w.cells ≡ size
      w-whole = length-set p.cells (length done) (step s).1 ∙ whole

      stays :
          Sweeps fuel
          → p.alive ≡ length done + suc (length rest)
          → length rest ≤ fuel
          → (step s).0 ≡ false
          → Ends (suc fuel) (length done) p (done ++ ((step s).1 ∷ survivors blank step rest))
      stays again alive enough q =
          let count : length (done ++ ((step s).1 ∷ [])) ≡ suc (length done) =
            omega (arith, length-append done ((step s).1 ∷ [])) in
          let k =
            again (done ++ ((step s).1 ∷ [])) rest dead w
              (written-cells blank step done dead s p rest cells
                ∙ sym (append_assoc done ((step s).1 ∷ []) (rest ++ dead)))
              (omega (arith, count)) w-whole enough in
          Ends-turn fuel (length done) (suc (length done)) p w
            (done ++ ((step s).1 ∷ survivors blank step rest)) inside
            (turn_stays blank step done dead s p rest cells q)
            (subst (Ends fuel (suc (length done)) w)
              (append_assoc done ((step s).1 ∷ []) (survivors blank step rest))
              (subst (λ i. Ends fuel i w (done ++ ((step s).1 ∷ []) ++ survivors blank step rest))
                count k))

      goes :
          (xs : List A)
          → (step s).0 ≡ true
          → Ends fuel (length done) (kill blank w (length done)) xs
          → Ends (suc fuel) (length done) p xs
      goes xs q ends =
          Ends-turn fuel (length done) (length done) p (kill blank w (length done)) xs inside
            (turn_goes blank step done dead s p rest cells q) ends

      goes_last :
          p.alive ≡ length done + 1
          → rest ≡ []
          → Ends fuel (length done) (kill blank w (length done)) (done ++ [])
      goes_last alive e =
          let k = kill_last blank step done dead s p w alive in
          Ends-nothing fuel done ((step s).1 ∷ dead) (kill blank w (length done))
            (ap (λ x. x.cells) k
              ∙ written-cells blank step done dead s p rest cells
              ∙ ap (λ xs. done ++ ((step s).1 ∷ (xs ++ dead))) e)
            (ap (λ x. x.alive) k) (length-kill blank step w (length done) ∙ w-whole)

      goes_inner :
          Sweeps fuel
          → (ys : List A) (z : A) → p.alive ≡ length done + suc (length rest)
          → rest ≡ ys ++ (z ∷ [])
          → length rest ≤ fuel
          → Ends fuel (length done) (kill blank w (length done)) (done ++ survivors blank step rest)
      goes_inner again ys z alive e enough =
          let k =
            kill_inner blank step done dead (step s).1 p ys z w
              (written-cells blank step done dead s p rest cells
                ∙ ap (λ xs. done ++ ((step s).1 ∷ (xs ++ dead))) e)
              (alive ∙ ap (λ xs. length done + suc (length xs)) e) in
          let moved =
            again done (z ∷ ys) (z ∷ dead) (kill blank w (length done)) k.0 k.1
              (length-kill blank step w (length done) ∙ w-whole)
              (omega (arith, ap length e, length-append ys (z ∷ []))) in
          subst
            (λ xs.
              Ends fuel (length done) (kill blank w (length done))
                (done ++ survivors blank step xs))
            (sym e)
            (Ends-order fuel (length done) (kill blank w (length done))
              (done ++ survivors blank step (z ∷ ys))
              (done ++ survivors blank step (ys ++ (z ∷ [])))
              (Perm.append_left done (survivors-last blank step ys z))
              (omega (
                arith,
                length-append done (survivors blank step (z ∷ ys)),
                length-append done (survivors blank step (ys ++ (z ∷ []))),
                length-survivors_last blank step ys z,
              ))
              moved)

    sweeps : (fuel : ℕ) → Sweeps fuel
    unfolding survivors
    sweeps fuel done [] dead p cells alive whole enough =
        Ends-nothing fuel done dead p cells (omega arith) whole
    sweeps zero done (s ∷ rest) dead p cells alive whole enough = absurd (omega arith)
    sweeps (suc fuel) done (s ∷ rest) dead p cells alive whole enough =
        elim (Bool-cases (step s).0) [
          | inl q ↦ rw q (elim (snoc_cases rest) [
            | inl e ↦ rw e (
                goes fuel done dead s p rest cells whole (ground arith) (done ++ []) q (
                  goes_last fuel done dead s p rest cells whole (ground arith)
                    (omega (arith, ap length e)) e))
            | inr (ys, z, e) ↦
                goes fuel done dead s p rest cells whole (ground arith)
                  (done ++ survivors blank step rest) q
                  (goes_inner fuel done dead s p rest cells whole (ground arith) (sweeps fuel) ys z
                    alive e (omega arith))
          ])
          | inr q ↦ rw q (
              stays fuel done dead s p rest cells whole (ground arith) (sweeps fuel) alive
                (omega arith) q)
        ]

  -- The loop ends after at most as many turns as elements live, and leaves alive, in some order,
  -- each element that does not go, once, as the step leaves it.
  pub sweep-survivors :
      (p : Swarm A)
      → p.alive ≤ length p.cells
      → (p' : Swarm A) × (sweep blank step p ≡ some p')
        × Perm (live p') (survivors blank step (live p))
        × (p'.alive ≡ length (survivors blank step (live p)))
        × (length p'.cells ≡ length p.cells)
  unfolding sweep
  sweep-survivors p fits =
      let (dead, cells, count) = split_at p.alive p.cells fits in
      let (p', ends, found) =
        sweeps (length p.cells) p.alive [] (live p) dead p cells (omega (arith, count)) refl
          (omega (arith, count)) in
      let kept : live p' ≡ found.living =
        ap₂ take found.alive found.cells ∙ take-append found.living found.dead in
      (
        p',
        ends,
        subst (λ xs. Perm xs (survivors blank step (live p))) (sym kept) found.same,
        found.alive ∙ found.count,
        found.whole,
      )
