-- ===== src/Particles/Lives.antt =====
-- The sparks of web/src/particles.ts, whatever the frame loop asks of them.
use mathlib.Core.List.{Perm}
use flowscape.Base.{
  ℕ, ◌≤◌, false, Bool, ◌≡◌, refl, ◌∙◌, List, [], ◌∷◌, Option, some, none, arith, length, length-set,
  length-replicate, get_or, leb, not, ◌||◌, Bool-cases, inl, inr,
}
use flowscape.Base.Numbers.{Numbers}
use flowscape.Particles.Sweep.{Swarm, live, survivors}
use flowscape.Particles.Turns.{length-survivors, length-take}
use flowscape.Particles.Sweeping.{sweep-survivors}
use flowscape.Particles.Sparks.{Spark, Arc, blank, init, spawn, advance, update}

-- What the frame loop asks of the sparks.
pub data Call (N : Numbers) : Type 0 where
  spawns : List Bool → ℕ → ℕ → Bool → N.R → N.R → Call N
  updates : List Bool → (ℕ → Arc N) → N.R → Call N

module _ (N : Numbers) where
  -- A frame loses and moves sparks: `update` ends, and leaves alive, in some order, what a loop over
  -- the living sparks makes of each of them, without the ones that are killed.
  pub update-survivors :
      (cp_valid : List Bool) (arcs : ℕ → Arc N) (dt : N.R) (p : Swarm (Spark N))
      → p.alive ≤ length p.cells
      → (p' : Swarm (Spark N)) × (update N cp_valid arcs dt p ≡ some p')
        × Perm (live p') (survivors (blank N) (advance N cp_valid arcs dt) (live p))
  unfolding update
  update-survivors cp_valid arcs dt p fits =
      let (p', ends, order, count, whole) =
        sweep-survivors (blank N) (advance N cp_valid arcs dt) p fits in
      (p', ends, order)

  module _ (capacity : ℕ) where
    unfoldable pub perform : Swarm (Spark N) → Call N → Option (Swarm (Spark N))
    perform p (spawns cp_valid cp verdict big r1 r2) =
        some (spawn N capacity cp_valid p cp verdict big r1 r2)
    perform p (updates cp_valid arcs dt) = update N cp_valid arcs dt p

    -- The calls one after the other; none when one of them does not end.
    unfoldable pub run : Swarm (Spark N) → List (Call N) → Option (Swarm (Spark N))
    run p [] = some p
    run p (c ∷ cs) = elim (perform p c) [ none ↦ none | some p' ↦ run p' cs ]

    -- Within the arrays.
    abbrev pub IsWithin : Swarm (Spark N) → Type 0
    IsWithin p = (p.alive ≤ capacity) × (length p.cells ≡ capacity)

    spawn-IsWithin :
        (cp_valid : List Bool) (p : Swarm (Spark N)) (cp verdict : ℕ) (big : Bool) (r1 r2 : N.R)
        → IsWithin p
        → IsWithin (spawn N capacity cp_valid p cp verdict big r1 r2)
    unfolding spawn
    spawn-IsWithin cp_valid p cp verdict big r1 r2 (fits, whole) =
        elim (Bool-cases (leb capacity p.alive || not (get_or cp_valid cp false))) [
          | inl q ↦ rw q (fits, whole)
          | inr q ↦ rw q (ground arith, length-set p.cells p.alive _ ∙ whole)
        ]

    perform-ends :
        (p : Swarm (Spark N)) (c : Call N)
        → IsWithin p
        → (p' : Swarm (Spark N)) × (perform p c ≡ some p') × IsWithin p'
    unfolding perform update
    perform-ends p (spawns cp_valid cp verdict big r1 r2) within = (
      spawn N capacity cp_valid p cp verdict big r1 r2,
      refl,
      spawn-IsWithin cp_valid p cp verdict big r1 r2 within,
    )
    perform-ends p (updates cp_valid arcs dt) (fits, whole) =
        let (p', ends, order, count, kept) =
          sweep-survivors (blank N) (advance N cp_valid arcs dt) p (omega arith) in
        let fewer = length-survivors (blank N) (advance N cp_valid arcs dt) (live p) in
        (p', ends, (omega (arith, length-take p.alive p.cells), kept ∙ whole))

    run-IsWithin :
        (p : Swarm (Spark N)) (cs : List (Call N))
        → IsWithin p
        → (p' : Swarm (Spark N)) × (run p cs ≡ some p') × IsWithin p'
    unfolding run
    run-IsWithin p [] within = (p, refl, within)
    run-IsWithin p (c ∷ cs) within =
        let (p', ends, within') = perform-ends p c within in
        let (last, ends', found) = run-IsWithin p' cs within' in (last, rw (ends, run) ends', found)

    init-IsWithin : IsWithin (init N capacity)
    unfolding init
    init-IsWithin = (omega arith, length-replicate capacity (blank N))

    -- Whatever the frame loop asks of the sparks, in whatever order: each call ends, and never do more
    -- of them live than there is room for.
    pub run-ends :
        (cs : List (Call N))
        → (p : Swarm (Spark N)) × (run (init N capacity) cs ≡ some p)
          × (p.alive ≤ capacity)
          × (length p.cells ≡ capacity)
    run-ends cs =
        let (p, ends, within) = run-IsWithin (init N capacity) cs init-IsWithin in
        (p, ends, within.0, within.1)
