-- ===== src/Frames/Showing.antt =====
-- The frames refine what GraphState/Pending/Rendering says of the ids on the screen.
use flowscape.Base.{ℕ, String, Bool, false, ◌≡◌, refl, ◌∙◌, sym, ap, subst, List, [], ◌∷◌, foldl}
use flowscape.Base.Dict
use flowscape.Base.Numbers.{Numbers}
use flowscape.Protocol.{Message, hello, snapshot, tick}
use flowscape.GraphState.Types.{Changes}
use flowscape.GraphState.Operations.{receive, consume}
use flowscape.GraphState.Keyed.{IsFiled, receive-IsFiled}
use flowscape.GraphState.Pending.Rendering.{Screen, frame, follow}
use flowscape.Nodes.Operations.{set_unavailable}
use flowscape.Edges.Ownership.{IsValid}
use flowscape.Frames.Types.{World}
use flowscape.Frames.ArcIds.{on}
use flowscape.Frames.NodeIds.{shown}
use flowscape.Frames.Refined.{HasRoom, followed-arcs, followed-IsValid, laid-nodes, laid-IsSettled}
use flowscape.Frames.Operations.{
  is_machine_mode, follow_changes, take_added, apply_changes, hear, next,
}

module _ (N : Numbers) {A : Type 0} (le locale_le : String → String → Bool) (head : String → String)
    (node_room edge_room spark_room : ℕ) (full : A) where
  -- The world shows the screen: the same graph, and slots for the same ids.
  pub record IsShowing (w : World N A) (s : Screen) : Type 0 where
    pub graph : w.graph ≡ s.graph
    pub by_machine : is_machine_mode w.layout.group_by ≡ s.by_machine
    pub edges : (x : String) → on edge_room full w.arcs x ≡ s.edges x
    pub nodes : (x : String) → shown N w.nodes x ≡ s.nodes x
    pub clean : w.dirty ≡ false
    pub filed : IsFiled w.graph
    pub valid : IsValid edge_room w.arcs

  abbrev heard : World N A → Message → World N A
  heard = hear N le locale_le head node_room edge_room spark_room full

  hear-IsShowing :
      (w : World N A) (s : Screen) (m : Message)
      → IsShowing w s
      → IsShowing (heard w m) (record s { graph = receive s.graph m })
  unfolding hear set_unavailable
  hear-IsShowing w s (hello h) k = record {
    graph = ap (λ g. receive g (hello h)) k.graph;
    by_machine = k.by_machine;
    edges = k.edges;
    nodes = k.nodes;
    clean = k.clean;
    filed = receive-IsFiled w.graph (hello h) k.filed;
    valid = k.valid;
  }
  hear-IsShowing w s (snapshot m) k = record {
    graph = ap (λ g. receive g (snapshot m)) k.graph;
    by_machine = k.by_machine;
    edges = k.edges;
    nodes = k.nodes;
    clean = k.clean;
    filed = receive-IsFiled w.graph (snapshot m) k.filed;
    valid = k.valid;
  }
  hear-IsShowing w s (tick t) k = record {
    graph = ap (λ g. receive g (tick t)) k.graph;
    by_machine = k.by_machine;
    edges = k.edges;
    nodes = λ x. Dict.has-map_values _ x w.nodes.slots ∙ k.nodes x;
    clean = k.clean;
    filed = receive-IsFiled w.graph (tick t) k.filed;
    valid = k.valid;
  }

  hears-IsShowing :
      (messages : List Message) (w : World N A) (s : Screen)
      → IsShowing w s
      → IsShowing (foldl heard w messages) (record s { graph = foldl receive s.graph messages })
  hears-IsShowing [] w s k = k
  hears-IsShowing (m ∷ messages) w s k =
      hears-IsShowing messages (heard w m) (record s { graph = receive s.graph m })
        (hear-IsShowing w s m k)

  -- The changes of the frame, and the world from which they were taken.
  abbrev changes : World N A → Changes
  changes w = (consume w.graph).0

  abbrev taken : World N A → World N A
  taken w = record w { graph = (consume w.graph).1 }

  taken-IsFiled : (w : World N A) → IsFiled w.graph → IsFiled (taken w).graph
  unfolding consume
  taken-IsFiled w k = record { nodes = k.nodes; edges = k.edges }

  module _ (random : ℕ → N.R × N.R) (w : World N A) (s : Screen) (k : IsShowing w s)
      (room : HasRoom N le locale_le head node_room edge_room spark_room full
        (changes w)
        (taken w)) where
    abbrev applied : World N A
    applied = apply_changes N le locale_le head node_room edge_room spark_room full random w

    -- The screen with the world's own graph, which is the same.
    abbrev own : Screen
    own = record s { graph = w.graph }

    edges-applied : (x : String) → on edge_room full applied.arcs x ≡ (frame own []).edges x
    unfolding apply_changes frame follow
    edges-applied x =
        let f = taken-IsFiled w k.filed in
        followed-arcs N le locale_le head node_room edge_room spark_room full (changes w) (taken w)
          f k.valid k.clean room x
        ∙ rw (k.edges x) refl

    nodes-applied : (x : String) → shown N applied.nodes x ≡ (frame own []).nodes x
    unfolding apply_changes follow_changes take_added frame follow
    nodes-applied x =
        let f = taken-IsFiled w k.filed in
        laid-nodes N le locale_le head node_room edge_room spark_room full (changes w) (taken w) f
          k.valid k.clean room x
        ∙ rw (k.nodes x, k.by_machine) refl

    apply-IsShowing-own : IsShowing applied (frame own [])
    unfolding apply_changes follow_changes take_added frame
    apply-IsShowing-own =
        let f = taken-IsFiled w k.filed in
        let settled =
          laid-IsSettled N le locale_le head node_room edge_room spark_room full (changes w)
            (taken w) f k.valid k.clean in
        record {
          graph = settled.graph;
          by_machine = settled.by_machine ∙ k.by_machine;
          edges = edges-applied;
          nodes = nodes-applied;
          clean = settled.clean;
          filed = subst IsFiled (sym settled.graph) f;
          valid =
              followed-IsValid N le locale_le head node_room edge_room spark_room full (changes w)
                (taken w) f k.valid k.clean room;
        }

    apply-IsShowing : IsShowing applied (frame s [])
    apply-IsShowing =
        subst (λ g. IsShowing applied (frame (record s { graph = g }) [])) k.graph
          apply-IsShowing-own

  -- A world that shows the screen shows it still after the messages up to the next frame, and the
  -- frame, where the frame finds room for what it takes up.
  pub next-IsShowing :
      (random : ℕ → N.R × N.R) (w : World N A) (s : Screen) (messages : List Message)
      → IsShowing w s
      → HasRoom N le locale_le head node_room edge_room spark_room full
          (changes (foldl heard w messages))
          (taken (foldl heard w messages))
      → IsShowing
          (next N le locale_le head node_room edge_room spark_room full random w messages)
          (frame s messages)
  unfolding next frame
  next-IsShowing random w s messages k room =
      apply-IsShowing random (foldl heard w messages)
        (record s { graph = foldl receive s.graph messages }) (hears-IsShowing messages w s k) room
