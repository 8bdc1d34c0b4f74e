-- ===== src/Particles/Sweep.antt =====
-- The loop of `update` in web/src/particles.ts, over elements of any type: the ones that live stand
-- before the others, and one that goes is replaced by the last that lives.
use flowscape.Base.{
  ℕ, zero, suc, ◌-◌, Bool, List, [], ◌∷◌, Option, none, some, get_or, set, take, eqb, ltb,
  if◌then◌else◌,
}

-- `alive`, and the arrays as one list of the capacity's length.
pub record Swarm (A : Type 0) : Type 0 where
  pub cells : List A
  pub alive : ℕ

module _ {A : Type 0} (blank : A) where
  -- `kill`; `blank` is read out of range only.
  unfoldable pub kill : Swarm A → ℕ → Swarm A
  kill p i =
      let last = p.alive - 1 in
      let p' = record p { alive = last } in
      if eqb i last then p' else record p' { cells = set p.cells i (get_or p.cells last blank) }

  -- `step` says whether an element goes, and what the loop writes over it before.
  module _ (step : A → Bool × A) where
    -- One turn of the loop: the next index and state.
    unfoldable pub turn : ℕ → Swarm A → ℕ × Swarm A
    unfolding kill
    turn i p =
        let r = step (get_or p.cells i blank) in
        let written = record p { cells = set p.cells i r.1 } in
        if r.0 then (i, kill written i) else (suc i, written)

    -- The loop, cut off after `fuel` turns: none when it has not ended by then.
    unfoldable pub turns : ℕ → ℕ → Swarm A → Option (Swarm A)
    unfolding turn
    turns zero i p = if ltb i p.alive then none else some p
    turns (suc fuel) i p =
        let next = turn i p in
        let rest = turns fuel next.0 next.1 in if ltb i p.alive then rest else some p

    unfoldable pub sweep : Swarm A → Option (Swarm A)
    unfolding turns
    sweep p = turns p.alive 0 p

    -- What a loop over a list leaves: each element once, without the ones that go.
    unfoldable pub survivors : List A → List A
    survivors [] = []
    survivors (s ∷ ss) = let rest = survivors ss in if (step s).0 then rest else (step s).1 ∷ rest

-- The elements that live.
abbrev pub live : {A : Type 0} → Swarm A → List A
live p = take p.alive p.cells
