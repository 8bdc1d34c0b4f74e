-- ===== src/Frames/Rates.antt =====
-- `refreshRates` of web/src/main.ts, past the platforms and the panel. `head` is `id.split("/")[0]`, `sec`
-- the second of the server and `now_ms` its time in milliseconds.
use flowscape.Base.{
  ℕ, String, Bool, false, ◌&&◌, ◌||◌, [], foldl, Option, none, some, ◌===◌, if◌then◌else◌,
}
use flowscape.Base.Int.{ℤ}
use flowscape.Base.Dict
use flowscape.Base.Dict.{Dict}
use flowscape.Base.StringSet
use flowscape.Base.Numbers.{Numbers}
use flowscape.GraphState.Types.{NodeState, EdgeState, GraphState}
use flowscape.GraphState.Ring.{Rate, rate}
use flowscape.Filters.Types.{Filters}
use flowscape.Filters.Operations.{End}
use flowscape.Nodes.Types.{Nodes}
use flowscape.Nodes.Operations as Slots
use flowscape.Edges.Types.{Edges}
use flowscape.Refresh.{shown, is_hidden, refresh_edge}
use flowscape.Frames.Types.{World}

-- `machineAnchorHidden`
abbrev pub anchor_off : Filters → Option NodeState → Bool
anchor_off f none = false
anchor_off f (some n) =
    (n.ns === "reserved") && (n.kind === "node") && StringSet.has n.name f.machines

-- `n.machine !== undefined && f.machines.has(n.machine)`
abbrev pub machine_off : Filters → Option String → Bool
machine_off f none = false
machine_off f (some m) = StringSet.has m f.machines

abbrev pub node_hidden : Filters → NodeState → Bool
node_hidden f n =
    StringSet.has n.ns f.namespaces
    || (f.hide_reserved && (n.ns === "reserved"))
    || machine_off f n.machine
    || anchor_off f (some n)

-- `activity.get(id) ?? 0`
abbrev pub or_idle : (N : Numbers) → Option N.R → N.R
or_idle N none = N.of 0
or_idle N (some a) = a

-- The arcs, `rates` and `activity` while the loop over the edges runs.
pub record Rated (N : Numbers) : Type 0 where
  pub arcs : Edges N.R
  pub rates : Dict Rate
  pub activity : Dict N.R

module _ (N : Numbers) (head : String → String) (edge_room : ℕ) (sec : ℤ) (now_ms : N.R) where
  -- `0.18 + 0.82 * Math.exp(-idle / 25)`
  abbrev pub opacity : EdgeState → N.R
  opacity e =
      let idle = N.most (N.of 0) (N.over (N.minus now_ms (N.of e.last)) (N.of 1000)) in
      N.plus (N.over (N.of 18) (N.of 100))
        (N.times (N.over (N.of 82) (N.of 100)) (N.exp (N.over (N.neg idle) (N.of 25))))

  abbrev pub end_of : GraphState → Filters → Nodes N → String → End
  end_of g f nodes id = record {
    ns = head id;
    machine = Slots.machine_of N nodes id;
    anchor_off = anchor_off f (Dict.get id g.nodes);
  }

  -- A counter as events per second.
  abbrev each : ℕ → Rate → N.R
  each count v = N.over (N.of count) (N.of v.per)

  -- `Math.min(1, Math.log1p(total) / 3.5)`, of the rate that is shown.
  abbrev pub brightness : Rate → N.R
  brightness v =
      let total =
        N.plus (N.plus (N.plus (each v.events.f v) (each v.events.d v)) (each v.events.a v))
          (each v.events.e v) in
      N.least (N.of 1) (N.over (N.log1p total) (N.over (N.of 35) (N.of 10)))

  -- `activity.set(id, Math.max(activity.get(id) ?? 0, a))`
  abbrev pub bump : String → N.R → Dict N.R → Dict N.R
  bump id a m = Dict.put id (N.most (or_idle N (Dict.get id m)) a) m

  module _ (g : GraphState) (f : Filters) (nodes : Nodes N) where
    abbrev pub shown_rate : EdgeState → Rate
    shown_rate e = record {
      events = shown g.retention f sec e;
      per = (rate g.retention e f.window_sec sec).per;
    }

    -- The body of the loop over the edges.
    unfoldable pub rate_edge : Rated N → EdgeState → Rated N
    rate_edge r e =
        let v = shown_rate e in
        let a = brightness v in
        record {
          arcs =
              refresh_edge edge_room (N.of 1) (end_of g f nodes) opacity g.retention f sec r.arcs e;
          rates = Dict.put e.id v r.rates;
          activity =
              if is_hidden (end_of g f nodes) g.retention f sec e
              then r.activity
              else bump e.dst a (bump e.src a r.activity);
        }

    -- The body of the loop over the nodes.
    unfoldable pub rate_node : Dict N.R → Nodes N → NodeState → Nodes N
    rate_node activity d n =
        Slots.set_activity N (Slots.set_hidden N d n.id (node_hidden f n)) n.id
          (or_idle N (Dict.get n.id activity))

  -- The world, and `rates`, which are kept from before.
  unfoldable pub refresh_rates : World N N.R × Dict Rate → World N N.R × Dict Rate
  unfolding rate_edge rate_node
  refresh_rates (w, rates) =
      let f = w.filters.filters in
      let r =
        foldl (rate_edge w.graph f w.nodes) (record { arcs = w.arcs; rates = rates; activity = [] })
          (Dict.values w.graph.edges) in
      (
        record w {
          arcs = r.arcs;
          nodes =
              foldl (rate_node w.graph f w.nodes r.activity) w.nodes (Dict.values w.graph.nodes);
        },
        r.rates,
      )
