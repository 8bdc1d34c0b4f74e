-- ===== src/Frames/Operations.antt =====
-- `applyChanges` of web/src/main.ts, in the order of its statements. `le` and `locale_le` are the orders
-- of texts that the layout sorts by, `head` is `id.split("/")[0]`, and `random` gives the two random
-- numbers of the spark at a place of the list.
use flowscape.Base.{
  ℕ, suc, String, Bool, true, false, not, ◌&&◌, ◌||◌, List, [], ◌∷◌, foldl, Option, none, some,
  ◌===◌, eqb, if◌then◌else◌,
}
use flowscape.Base.Dict
use flowscape.Base.Dict.{Dict}
use flowscape.Base.StringSet
use flowscape.Base.StringSet.{StringSet}
use flowscape.Base.Numbers.{Numbers, Vec3}
use flowscape.Protocol
use flowscape.Protocol.{Verdict, forwarded, dropped, audit, error, Message, hello, snapshot, tick}
use flowscape.GraphState.Types.{Changes, NodeState, EdgeState, GraphState}
use flowscape.GraphState.Operations.{receive, consume, or_empty}
use flowscape.GraphState.Pending.Rendering.{some_in, membership_dirty}
use flowscape.Filters.Types.{GroupBy, by_namespace, by_machine, Shown}
use flowscape.Filters.Operations.{sync_machines, sync_namespaces}
use flowscape.Layout.Types.{group_of}
use flowscape.Layout.Sorting.{sort_by}
use flowscape.Layout.Rebuild.{rebuild}
use flowscape.Nodes.Types.{Nodes}
use flowscape.Nodes.Operations as Slots
use flowscape.Edges.Types.{Edges, EdgeSlot}
use flowscape.Edges.Operations as Arcs
use flowscape.Particles.Sweep.{Swarm}
use flowscape.Particles.Sparks.{Spark, spawn}
use flowscape.Frames.Types.{World}

-- `samePlatform`, of the ends' nodes.
abbrev pub same_ends :
    (String → String) → GroupBy → String → String → Option NodeState → Option NodeState → Bool
same_ends head by src dst none b = head src === head dst
same_ends head by src dst (some a) none = head src === head dst
same_ends head by src dst (some a) (some b) =
    if (a.ns === "reserved") || (b.ns === "reserved")
    then false
    else group_of by a === group_of by b

abbrev pub same_platform : (String → String) → GroupBy → Dict NodeState → String → String → Bool
same_platform head by nodes src dst =
    same_ends head by src dst (Dict.get src nodes) (Dict.get dst nodes)

-- The flag of a verdict.
abbrev pub is_shown : Shown → Verdict → Bool
is_shown s forwarded = s.f
is_shown s dropped = s.d
is_shown s audit = s.a
is_shown s error = s.e

abbrev pub number_of : Verdict → ℕ
number_of forwarded = 0
number_of dropped = 1
number_of audit = 2
number_of error = 3

abbrev pub is_machine_mode : GroupBy → Bool
is_machine_mode by_namespace = false
is_machine_mode by_machine = true

-- The machines of a node: where it runs, and the one whose anchor it is; the empty text is falsy.
abbrev machine_names : Option String → List String
machine_names none = []
machine_names (some m) = if m === "" then [] else m ∷ []

abbrev pub add_machines : StringSet → NodeState → StringSet
add_machines s n =
    let s' = StringSet.add_all (machine_names n.machine) s in
    if (n.ns === "reserved") && (n.kind === "node") then StringSet.add n.name s' else s'

abbrev pub add_namespace : StringSet → NodeState → StringSet
add_namespace s n = if n.ns === "reserved" then s else StringSet.add n.ns s

module _ {A : Type 0} (edge_room : ℕ) (full : A) where
  -- `edges.remove` for what is removed, twice after a snapshot.
  unfoldable pub drop_edges : Changes → Edges A → Edges A
  drop_edges c arcs =
      let arcs' =
        if c.reset then foldl (Arcs.remove edge_room full) arcs c.removed_edges else arcs in
      foldl (Arcs.remove edge_room full) arcs' c.removed_edges

  -- The body of the loop over `addedEdges`.
  abbrev pub add_edge : (String → String → Bool) → Edges A → Option EdgeState → Edges A
  add_edge same arcs none = arcs
  add_edge same arcs (some e) = Arcs.add edge_room full arcs e (same e.src e.dst)

  unfoldable pub take_edge : GraphState → (String → String → Bool) → Edges A → String → Edges A
  take_edge g same arcs id = add_edge same arcs (Dict.get id g.edges)

module _ (N : Numbers) where
  -- `nodes.remove`, as well.
  unfoldable pub drop_nodes : Changes → Nodes N → Nodes N
  drop_nodes c nodes =
      let nodes' = if c.reset then foldl (Slots.remove N) nodes c.removed_nodes else nodes in
      foldl (Slots.remove N) nodes' c.removed_nodes

  -- `if (n?.machine) nodes.setMachine(id, n.machine)`
  abbrev pub retint_to : Nodes N → String → Option String → Nodes N
  retint_to nodes id none = nodes
  retint_to nodes id (some m) = if m === "" then nodes else Slots.set_machine N nodes id m

  abbrev pub machine_of : Option NodeState → Option String
  machine_of none = none
  machine_of (some n) = n.machine

  unfoldable pub retint : GraphState → Nodes N → String → Nodes N
  retint g nodes id = retint_to nodes id (machine_of (Dict.get id g.nodes))

  -- The body of the loop over `layout.targets`.
  abbrev pub add_known : Nodes N → Vec3 N → Option NodeState → Nodes N
  add_known nodes target none = nodes
  add_known nodes target (some n) = Slots.add N nodes n target

  unfoldable pub take_target : GraphState → Nodes N → String × Vec3 N → Nodes N
  take_target g nodes (id, target) =
      if Slots.has N nodes id
      then Slots.set_target N nodes id target
      else add_known nodes target (Dict.get id g.nodes)

module _ (N : Numbers) {A : Type 0} (le locale_le : String → String → Bool) (head : String → String)
    (node_room edge_room spark_room : ℕ) (full : A) where
  -- What the membership changes, when it is dirty.
  unfoldable pub relayout : World N A → World N A
  relayout w =
      let layout = rebuild N le locale_le w.layout w.graph.nodes in
      let all = Dict.values w.graph.nodes in
      let machines = foldl add_machines [] all in
      let panel = sync_machines w.filters (sort_by le machines) in
      record w {
        layout = layout;
        machines = machines;
        filters = sync_namespaces panel (sort_by le (foldl add_namespace [] all));
        arcs =
            Arcs.set_same edge_room full w.arcs (same_platform head layout.group_by w.graph.nodes)
              w.graph.edges;
        nodes = foldl (take_target N w.graph) w.nodes layout.targets;
        dirty = false;
      }

  -- The loop over the sparks, from number `i` on.
  abbrev spark_on :
      (ℕ → N.R × N.R)
      → Shown
      → List Bool
      → ℕ
      → Protocol.Spark
      → Swarm (Spark N)
      → Option (EdgeSlot A)
      → Swarm (Spark N)
  spark_on random shown cp_valid i s p none = p
  spark_on random shown cp_valid i s p (some slot) =
      if not slot.hidden && is_shown shown s.v
      then spawn N spark_room cp_valid p slot.cp (number_of s.v) (not (eqb (number_of s.v) 0))
          (random i).0 (random i).1
      else p

  unfoldable pub spark_all :
      (ℕ → N.R × N.R)
      → Shown
      → Edges A
      → ℕ
      → List Protocol.Spark
      → Swarm (Spark N)
      → Swarm (Spark N)
  spark_all random shown arcs i [] p = p
  spark_all random shown arcs i (s ∷ ss) p =
      spark_all random shown arcs (suc i) ss
        (spark_on random shown arcs.cp_valid i s p (Dict.get s.e arcs.slots))

  -- The statements before the test of `membershipDirty`, for the changes `c` that were consumed.
  unfoldable pub keep_changes : Changes → World N A → World N A
  unfolding drop_edges drop_nodes retint
  keep_changes c w = record w {
    arcs = drop_edges edge_room full c w.arcs;
    nodes = foldl (retint N w.graph) (drop_nodes N c w.nodes) c.touched_nodes;
    dirty = w.dirty || membership_dirty (is_machine_mode w.layout.group_by) c;
  }

  unfoldable pub lay : World N A → World N A
  unfolding relayout
  lay w = if w.dirty then relayout w else w

  unfoldable pub take_added : Changes → World N A → World N A
  unfolding take_edge
  take_added c w = record w {
    arcs =
        foldl
          (take_edge edge_room full w.graph (same_platform head w.layout.group_by w.graph.nodes))
          w.arcs c.added_edges;
  }

  -- The frame, up to the sparks.
  unfoldable pub follow_changes : Changes → World N A → World N A
  unfolding keep_changes lay take_added
  follow_changes c w = take_added c (lay (keep_changes c w))

  unfoldable pub apply_changes : (ℕ → N.R × N.R) → World N A → World N A
  unfolding follow_changes spark_all
  apply_changes random w =
      let (c, graph) = consume w.graph in
      let w' = follow_changes c (record w { graph = graph }) in
      record w' {
        sparks = spark_all random w'.filters.filters.verdicts w'.arcs 0 c.sparks w'.sparks;
      }

  -- `onMessage`, past the clock and the title of the page.
  unfoldable pub hear : World N A → Message → World N A
  hear w (hello h) = record w { graph = receive w.graph (hello h) }
  hear w (snapshot s) = record w { graph = receive w.graph (snapshot s) }
  hear w (tick t) =
      let unavailable = or_empty t.status.unavailable in
      record w {
        graph = receive w.graph (tick t);
        unavailable = unavailable;
        nodes = Slots.set_unavailable N w.nodes unavailable;
        filters =
            if some_in unavailable
            then sync_machines w.filters (sort_by le w.machines)
            else w.filters;
      }

  -- The messages since the last frame, and the frame.
  unfoldable pub next : (ℕ → N.R × N.R) → World N A → List Message → World N A
  unfolding apply_changes hear
  next random w messages = apply_changes random (foldl hear w messages)
