-- ===== src/Tests/Arcs.antt =====
-- The theorems on web/src/edges.ts for batches of two slots.
use flowscape.Base.{
  ℕ, ◌+◌, ◌*◌, String, true, false, ◌≡◌, ◌≢◌, refl, sym, ◌∙◌, List, [], ◌∷◌, foldl, none, some,
  arith,
}
use flowscape.Base.Dict
use flowscape.Base.Doubles.{Double, one}
use flowscape.GraphState.Types.{EdgeState}
use flowscape.GraphState.Operations.{new_edge}
use flowscape.Edges.Types.{
  segments, wanted, EdgeSlot, Edges, batch_of, count_up, Call, adds, rates, hides,
}
use flowscape.Edges.Operations.{
  init, occupy, place, add, clear, set_rate, set_hidden, id_at, perform,
}
use flowscape.Edges.Ownership.{IsValid}
use flowscape.Edges.Calls.{calls-IsValid}
use flowscape.Edges.Lookups.{id_at-segment, set_rate-full, set_rate-moved}
use flowscape.Tests.{edge}

abbrev pub arc : String → EdgeState
arc id = record (new_edge 10 (edge id)) { id = id; ring = []; epochs = [] }

abbrev fast : Double
fast = record { units = 50 * one }

abbrev medium : Double
medium = record { units = 5 * one }

-- Two arcs fill the batch of the widest lines, and one stays in the thinnest.
abbrev calls : List (Call ℕ)
calls =
    adds (arc "a") true
    ∷ adds (arc "b") false
    ∷ rates "a" fast
    ∷ rates "b" fast
    ∷ adds (arc "c") true
    ∷ hides "c" true
    ∷ []

abbrev pub arcs : Edges ℕ
arcs = foldl (perform 2 100) (init 2 100) calls

calls-IsValid_example : IsValid 2 (foldl (perform 2 100) (init 2 100) calls)
calls-IsValid_example = calls-IsValid 2 100 calls

pub arcs-IsValid : IsValid 2 arcs
arcs-IsValid = calls-IsValid 2 100 calls

abbrev pub slot_c : EdgeSlot ℕ
slot_c = record {
  id = "c";
  batch = 0;
  index = 1;
  cp = 1;
  same = true;
  colour = none;
  alpha = 100;
  hidden = true;
  rate = record { units = 0 };
}

pub there_c : Dict.get "c" arcs.slots ≡ some slot_c
unfolding perform init count_up add place occupy set_rate set_hidden clear Dict.get Dict.has
    Dict.put Dict.delete Dict.modify one
there_c = refl

full_batch : (batch_of arcs 2).free ≡ []
unfolding perform init count_up add place occupy set_rate set_hidden clear Dict.get Dict.has
    Dict.put Dict.delete Dict.modify one
full_batch = refl

two_free : (batch_of arcs 1).free ≡ 0 ∷ 1 ∷ []
unfolding perform init count_up add place occupy set_rate set_hidden clear Dict.get Dict.has
    Dict.put Dict.delete Dict.modify one
two_free = refl

not_empty : (xs : List ℕ) → xs ≡ 0 ∷ 1 ∷ [] → xs ≢ []
not_empty xs two e = let k = sym two ∙ e in absurd (cc)

free_batch : (batch_of arcs 1).free ≢ []
free_batch = not_empty (batch_of arcs 1).free two_free

widest : wanted fast ≡ 2
unfolding one
widest = refl

middle : wanted medium ≡ 1
unfolding one
middle = refl

id_at-segment_example : id_at 2 100 arcs 0 (1 * segments + 13) ≡ some "c"
id_at-segment_example = id_at-segment 2 100 arcs arcs-IsValid "c" slot_c there_c 13 (omega arith)

set_rate-full_example : Dict.get "c" (set_rate 2 100 arcs "c" fast).slots ≡ none
unfolding one
set_rate-full_example =
    set_rate-full 2 100 arcs arcs-IsValid "c" slot_c there_c fast
      (λ e. absurd (omega (arith, widest, e))) full_batch

set_rate-moved_example :
    (s : EdgeSlot ℕ) × (Dict.get "c" (set_rate 2 100 arcs "c" medium).slots ≡ some s)
    × (s.batch ≡ wanted medium)
    × (s.rate ≡ medium)
    × (s.colour ≡ none)
    × (s.alpha ≡ 100)
    × (s.hidden ≡ true)
    × (s.same ≡ true)
unfolding one
set_rate-moved_example =
    set_rate-moved 2 100 arcs arcs-IsValid "c" slot_c there_c medium
      (λ e. absurd (omega (arith, middle, e))) free_batch
