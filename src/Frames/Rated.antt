-- ===== src/Frames/Rated.antt =====
-- What a run of `refreshRates` of web/src/main.ts leaves.
use flowscape.Base.{
  ℕ, String, false, min, none, Option, ◌↔◌, subst, sym, ◌≡◌, refl, ◌∙◌, ap, some, [], ◌===◌,
  if◌then◌else◌, inl, inr, Bool-cases, Option-cases, foldl_keeps,
}
use flowscape.Base.Int.{ℤ}
use mathlib.Core.Option
use mathlib.Core.List.{foldl}
use flowscape.Base.Dict
use flowscape.Base.Dict.{Dict}
use flowscape.Base.Numbers.{Numbers}
use flowscape.Base.Unique.{IsUnique}
use flowscape.Base.Visits.{visited, brought}
use flowscape.GraphState.Types.{NodeState, EdgeState}
use flowscape.GraphState.Ring.{Rate, rate}
use flowscape.GraphState.Keyed.{IsFiled}
use flowscape.Filters.Types.{Filters}
use flowscape.Nodes.Types.{Nodes, Slot}
use flowscape.Nodes.Operations as Slots
use flowscape.Edges.Ownership.{IsValid}
use flowscape.Edges.Types.{EdgeSlot}
use flowscape.Refresh.Drawn.{IsDrawn, shown_of, refresh_edge-IsValid}
use flowscape.Refresh.Kept.{kept-IsDrawn, refresh_edge-other}
use flowscape.Frames.Seen.{IsNodeVisible, node_hidden-IsNodeVisible}
use flowscape.Frames.Types.{World}
use flowscape.Frames.Rates.{
  node_hidden, or_idle, Rated, end_of, opacity, shown_rate, rate_edge, rate_node, refresh_rates,
}

module _ (N : Numbers) (head : String → String) (edge_room : ℕ) (sec : ℤ) (now_ms : N.R)
    (w : World N N.R) (rates : Dict Rate) where
  abbrev f : Filters
  f = w.filters.filters

  abbrev step : Rated N → EdgeState → Rated N
  step = rate_edge N head edge_room sec now_ms w.graph f w.nodes

  step-rate :
      (r : Rated N) (e : EdgeState) (x : String)
      → Dict.get x (step r e).rates ≡ (
          if e.id === x
          then some (shown_rate N head edge_room sec now_ms w.graph f w.nodes e)
          else Dict.get x r.rates)
  unfolding rate_edge
  step-rate r e x =
      Dict.get-put e.id x (shown_rate N head edge_room sec now_ms w.graph f w.nodes e) r.rates

  step-IsValid :
      (r : Rated N) (e : EdgeState) → IsValid edge_room r.arcs → IsValid edge_room (step r e).arcs
  unfolding rate_edge
  step-IsValid r e v =
      refresh_edge-IsValid edge_room (N.of 1) (end_of N head edge_room sec now_ms w.graph f w.nodes)
        (opacity N head edge_room sec now_ms) w.graph.retention f sec r.arcs e v

  -- The slot of a node with what the loop over the nodes sets.
  abbrev pub seen : Dict N.R → NodeState → Slot N → Slot N
  seen activity n s = record s {
    hidden = node_hidden f n;
    activity = or_idle N (Dict.get n.id activity);
  }

  node-slot :
      (activity : Dict N.R) (d : Nodes N) (n : NodeState) (x : String)
      → Dict.get x (rate_node N head edge_room sec now_ms w.graph f w.nodes activity d n).slots ≡ (
          if n.id === x
          then Option.map (seen activity n) (Dict.get x d.slots)
          else Dict.get x d.slots)
  unfolding rate_node Slots.set_activity Slots.set_hidden
  node-slot activity d n x = elim (Bool-cases (n.id === x)) [
    | inl q ↦ elim (Option-cases (Dict.get x d.slots)) [
      | inl p ↦ rw (Dict.get-modify, Dict.get-modify, q, p) refl
      | inr (s, p) ↦ rw (Dict.get-modify, Dict.get-modify, q, p) refl
    ]
    | inr q ↦ rw (Dict.get-modify, Dict.get-modify, q) refl
  ]

  -- `activity` after the loop over the edges.
  abbrev lit : Dict N.R
  lit =
      (foldl step (record { arcs = w.arcs; rates = rates; activity = [] })
        (Dict.values w.graph.edges)).activity

  -- The world and the rates after `refreshRates`.
  abbrev pub after : World N N.R × Dict Rate
  after = refresh_rates N head edge_room sec now_ms (w, rates)

  abbrev OwnArc : EdgeState → EdgeSlot N.R → Type 0
  OwnArc e s =
      IsDrawn (end_of N head edge_room sec now_ms w.graph f w.nodes)
        (opacity N head edge_room sec now_ms) w.graph.retention f sec e s

  -- The slot of an arc, if it has one, has what the refresh of its edge sets.
  abbrev pub AsDrawn : EdgeState → Option (EdgeSlot N.R) → Type 0
  AsDrawn e none = Unit {0}
  AsDrawn e (some s) = OwnArc e s

  if_drawn :
      (e : EdgeState) (o : Option (EdgeSlot N.R))
      → ((s : EdgeSlot N.R) → o ≡ some s → OwnArc e s)
      → AsDrawn e o
  if_drawn e none h = tt
  if_drawn e (some s) h = h s refl

  own-AsDrawn :
      (e : EdgeState) (r : Rated N)
      → IsValid edge_room r.arcs
      → AsDrawn e (Dict.get e.id (step r e).arcs.slots)
  unfolding rate_edge
  own-AsDrawn e r v = if_drawn e (Dict.get e.id (step r e).arcs.slots) (λ s found.
      kept-IsDrawn edge_room (N.of 1) (end_of N head edge_room sec now_ms w.graph f w.nodes)
        (opacity N head edge_room sec now_ms) w.graph.retention f sec r.arcs e v s found)

  other-AsDrawn :
      (e : EdgeState) (r : Rated N) (d : EdgeState)
      → (d.id === e.id) ≡ false
      → AsDrawn e (Dict.get e.id r.arcs.slots)
      → AsDrawn e (Dict.get e.id (step r d).arcs.slots)
  unfolding rate_edge
  other-AsDrawn e r d other = subst (AsDrawn e) (
      sym (
        refresh_edge-other edge_room (N.of 1) (end_of N head edge_room sec now_ms w.graph f w.nodes)
          (opacity N head edge_room sec now_ms) w.graph.retention f sec r.arcs d e.id other))

  -- A slot that differs from `s` in two fields at most.
  abbrev pub IsKept : Slot N → Slot N → Type 0
  IsKept s t = t ≡ record s { hidden = t.hidden; activity = t.activity }

  node-seen :
      IsFiled w.graph
      → IsUnique w.graph.nodes
      → (n : NodeState) (s : Slot N) → Dict.get n.id w.graph.nodes ≡ some n
      → Dict.get n.id w.nodes.slots ≡ some s
      → Dict.get n.id
          (foldl
            (rate_node N head edge_room sec now_ms w.graph f w.nodes lit)
            w.nodes
            (Dict.values w.graph.nodes)).slots
        ≡ some (seen lit n s)
  node-seen filed nodes n s found slot =
      visited (λ n. n.id) (rate_node N head edge_room sec now_ms w.graph f w.nodes lit)
        (λ d x. Dict.get x d.slots) (λ n old. Option.map (seen lit n) old) (node-slot lit)
        w.graph.nodes w.nodes n.id n filed.nodes nodes found
      ∙ ap (Option.map (seen lit n)) slot

  -- Where the maps of the graph hold each node and each edge once and under its own id, and the arcs
  -- have slots of their own: after `refreshRates` they have so still, though an arc may have lost its
  -- slot. The arc of an edge, if it has a slot after, has the rate and the batch of the events whose
  -- verdicts are shown, and is drawn exactly when no filter hides it; the edge has these events by the
  -- seconds of the window as its rate. A node that is on the screen is drawn exactly when no filter
  -- hides it, and is otherwise, but for its activity, as it was.
  pub refresh_rates-shown :
      IsFiled w.graph
      → IsUnique w.graph.nodes
      → IsUnique w.graph.edges
      → IsValid edge_room w.arcs
      → (e : EdgeState) → Dict.get e.id w.graph.edges ≡ some e
      → (n : NodeState) (s : Slot N) → Dict.get n.id w.graph.nodes ≡ some n
      → Dict.get n.id w.nodes.slots ≡ some s
      → IsValid edge_room after.0.arcs
        × AsDrawn e (Dict.get e.id after.0.arcs.slots)
        × (Dict.get e.id after.1
            ≡ some (record {
              events = shown_of f (rate w.graph.retention e f.window_sec sec).events;
              per = min f.window_sec w.graph.retention;
            }))
        × ((t : Slot N) × (Dict.get n.id after.0.nodes.slots ≡ some t)
            × ((t.hidden ≡ false) ↔ IsNodeVisible f n)
            × IsKept s t)
  unfolding refresh_rates rate
  refresh_rates-shown filed nodes edges valid e drawn n s found slot = (
    foldl_keeps (λ r. IsValid edge_room r.arcs) step step-IsValid (Dict.values w.graph.edges) _
        valid,
    brought (λ e. e.id) step (λ r. IsValid edge_room r.arcs)
        (λ r. AsDrawn e (Dict.get e.id r.arcs.slots)) e.id step-IsValid (other-AsDrawn e) e
        (own-AsDrawn e) w.graph.edges _ filed.edges edges drawn valid,
    visited (λ e. e.id) step (λ r x. Dict.get x r.rates)
        (λ e old. some (shown_rate N head edge_room sec now_ms w.graph f w.nodes e)) step-rate
        w.graph.edges _ e.id e filed.edges edges drawn,
    (seen lit n s, node-seen filed nodes n s found slot, node_hidden-IsNodeVisible f n, refl),
  )
