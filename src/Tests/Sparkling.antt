-- ===== src/Tests/Sparkling.antt =====
-- The theorems on web/src/particles.ts with room for two sparks.
use mathlib.Core.List.{Perm}
use flowscape.Base.{ℕ, ◌≤◌, true, false, ◌≡◌, List, [], ◌∷◌, some, arith, length, refl}
use flowscape.Base.Numbers.{Vec3}
use flowscape.Particles.Sweep.{Swarm, live, survivors}
use flowscape.Particles.Sparks.{Spark, Arc, blank, init, advance, update}
use flowscape.Particles.Lives.{Call, spawns, updates, run, run-ends, update-survivors}
use flowscape.Tests.Places.{counted}

abbrev at_origin : Vec3 counted
at_origin = record { x = 0; y = 0; z = 0 }

abbrev arc : ℕ → Arc counted
arc cp = record { start = at_origin; control = at_origin; end = at_origin }

-- The third spark finds no room, and the one on an arc that is gone dies.
abbrev calls : List (Call counted)
calls =
    spawns (true ∷ true ∷ []) 0 0 false 1 1
    ∷ spawns (true ∷ true ∷ []) 1 1 true 1 1
    ∷ spawns (true ∷ true ∷ []) 1 2 false 1 1
    ∷ updates (false ∷ true ∷ []) arc 1
    ∷ []

run-ends_example :
    (p : Swarm (Spark counted)) × (run counted 2 (init counted 2) calls ≡ some p)
    × (p.alive ≤ 2)
    × (length p.cells ≡ 2)
run-ends_example = run-ends counted 2 calls

abbrev two : Swarm (Spark counted)
two = record {
  cells =
      record (blank counted) { cp = 0; verdict = 1 }
      ∷ record (blank counted) { cp = 1; speed = 2 }
      ∷ record (blank counted) { cp = 1; verdict = 1 }
      ∷ [];
  alive = 2;
}

update-survivors_example :
    (p' : Swarm (Spark counted)) × (update counted (false ∷ true ∷ []) arc 1 two ≡ some p')
    × Perm
        (live p')
        (survivors (blank counted) (advance counted (false ∷ true ∷ []) arc 1) (live two))
update-survivors_example = update-survivors counted (false ∷ true ∷ []) arc 1 two (omega arith)

-- One of them lives on.
survivor_count :
    length (survivors (blank counted) (advance counted (false ∷ true ∷ []) arc 0) (live two)) ≡ 1
unfolding survivors advance
survivor_count = refl
