-- ===== src/Refresh.antt =====
-- The body of the loop of `refreshRates` over the edges, in web/src/main.ts: what the rates of an edge
-- and the filters make of its arc.
pub mod Drawn
pub mod Kept
use flowscape.Base.{ℕ, ◌+◌, String, Bool, List, [], ◌∷◌, foldl}
use flowscape.Base.Int.{ℤ}
use flowscape.Base.Doubles.{Double}
use flowscape.GraphState.Types.{Counts, EdgeState}
use flowscape.GraphState.Ring.{Rate, rate, per_second}
use flowscape.Filters.Types.{Filters}
use flowscape.Filters.Operations.{visible, End, edge_hidden}
use flowscape.Edges.Types.{Edges, Call, hides, rates, colours}
use flowscape.Edges.Operations.{perform}

-- The events of the window that are shown; a rate is these by the seconds of the window.
abbrev pub shown : ℕ → Filters → ℤ → EdgeState → Counts
shown retention f sec e = visible f.verdicts (rate retention e f.window_sec sec).events

abbrev pub speed : ℕ → Filters → ℤ → EdgeState → Double
speed retention f sec e =
    per_second
      (record { events = shown retention f sec e; per = (rate retention e f.window_sec sec).per })

-- `end_of` has what `refreshRates` asks the nodes about an end: its namespace before the slash, the
-- machine that it is drawn on and whether that is an anchor switched off.
abbrev pub is_hidden : (String → End) → ℕ → Filters → ℤ → EdgeState → Bool
is_hidden end_of retention f sec e =
    edge_hidden f (end_of e.src) (end_of e.dst) e.proto (rate retention e f.window_sec sec).events

-- `alpha` is the opacity that the time since the last flow gives.
module _ {A : Type 0} (capacity : ℕ) (full : A) (end_of : String → End)
    (alpha : EdgeState → A) where
  unfoldable pub refresh_edge : ℕ → Filters → ℤ → Edges A → EdgeState → Edges A
  refresh_edge retention f sec arcs e = foldl (perform capacity full) arcs (
      hides e.id (is_hidden end_of retention f sec e)
      ∷ rates e.id (speed retention f sec e)
      ∷ colours e.id (shown retention f sec e) (alpha e)
      ∷ [])
