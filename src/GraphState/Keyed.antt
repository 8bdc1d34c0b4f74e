-- ===== src/GraphState/Keyed.antt =====
-- The maps of the graph hold each node and each edge under its own id.
use flowscape.Base.{
  String, ◌≡◌, refl, List, [], ◌∷◌, foldl_keeps, Option-cases, Bool-cases, inl, inr, ℕ,
}
use flowscape.Base.Int.{ℤ}
use flowscape.Base.Dict
use flowscape.Base.Keyed.{IsKeyed, id-get, put-IsKeyed, delete-IsKeyed, modify-IsKeyed}
use flowscape.Protocol.{WireNode, WireEdge, Bucket, Message, hello, snapshot, tick}
use flowscape.GraphState.Types.{NodeState, EdgeState, GraphState}
use flowscape.GraphState.Ring.{set_buckets, set_bucket, add_bucket}
use flowscape.GraphState.Operations.{
  upsert_node, new_node, merge_node, upsert_edge, new_edge, attach, detach, remove_edge,
  remove_node, snapshot_edge, load_edge, tick_edge, count_edge, clear_graph, apply_snapshot,
  apply_tick, receive, or_empty,
}

pub record IsFiled (g : GraphState) : Type 0 where
  pub nodes : IsKeyed (λ n. n.id) g.nodes
  pub edges : IsKeyed (λ e. e.id) g.edges

upsert_node-IsFiled : (g : GraphState) (n : WireNode) → IsFiled g → IsFiled (upsert_node g n)
unfolding upsert_node new_node merge_node
upsert_node-IsFiled g n k = elim (Option-cases (Dict.get n.id g.nodes)) [
  | inl q ↦
      rw (q, upsert_node)
        (record {
          nodes = put-IsKeyed (λ x. x.id) n.id (new_node n) g.nodes refl k.nodes;
          edges = k.edges;
        })
  | inr (ns, q) ↦
      rw (q, upsert_node)
        (record {
          nodes =
              put-IsKeyed (λ x. x.id) n.id (merge_node n ns) g.nodes
                (id-get (λ x. x.id) n.id ns g.nodes k.nodes q) k.nodes;
          edges = k.edges;
        })
]

-- Both ends of an edge are changed.
ends-IsKeyed :
    (f : NodeState → NodeState) (a b : String) (m : Dict.Dict NodeState)
    → ((n : NodeState) → (f n).id ≡ n.id)
    → IsKeyed (λ n. n.id) m
    → IsKeyed (λ n. n.id) (Dict.modify a f (Dict.modify b f m))
ends-IsKeyed f a b m same k =
    modify-IsKeyed (λ n. n.id) a f (Dict.modify b f m) same
      (modify-IsKeyed (λ n. n.id) b f m same k)

upsert_edge-IsFiled : (g : GraphState) (e : WireEdge) → IsFiled g → IsFiled (upsert_edge g e)
unfolding upsert_edge new_edge attach
upsert_edge-IsFiled g e k = elim (Option-cases (Dict.get e.id g.edges)) [
  | inl q ↦
      rw (q, upsert_edge)
        (record {
          nodes = ends-IsKeyed (attach e.id) e.dst e.src g.nodes (λ n. refl) k.nodes;
          edges = put-IsKeyed (λ x. x.id) e.id (new_edge g.retention e) g.edges refl k.edges;
        })
  | inr (es, q) ↦ rw (q, upsert_edge) k
]

remove_edge-IsFiled : (g : GraphState) (id : String) → IsFiled g → IsFiled (remove_edge g id)
unfolding remove_edge detach
remove_edge-IsFiled g id k = elim (Option-cases (Dict.get id g.edges)) [
  | inl q ↦ rw (q, remove_edge) k
  | inr (e, q) ↦
      rw (q, remove_edge)
        (record {
          nodes = ends-IsKeyed (detach id) e.dst e.src g.nodes (λ n. refl) k.nodes;
          edges = delete-IsKeyed (λ x. x.id) id g.edges k.edges;
        })
]

remove_node-IsFiled : (g : GraphState) (id : String) → IsFiled g → IsFiled (remove_node g id)
unfolding remove_node
remove_node-IsFiled g id k = elim (Bool-cases (Dict.has id g.nodes)) [
  | inl q ↦ rw q (record { nodes = delete-IsKeyed (λ x. x.id) id g.nodes k.nodes; edges = k.edges })
  | inr q ↦ rw q k
]

set_buckets-id : (n : ℕ) (e : EdgeState) (bs : List Bucket) → (set_buckets n e bs).id ≡ e.id
unfolding set_buckets set_bucket
set_buckets-id n e [] = refl
set_buckets-id n e (b ∷ bs) = set_buckets-id n (set_bucket n e b) bs

snapshot_edge-IsFiled : (g : GraphState) (e : WireEdge) → IsFiled g → IsFiled (snapshot_edge g e)
unfolding snapshot_edge load_edge
snapshot_edge-IsFiled g e k =
    let k' = upsert_edge-IsFiled g e k in
    record {
      nodes = k'.nodes;
      edges =
          modify-IsKeyed (λ x. x.id) e.id (load_edge (upsert_edge g e).retention e)
            (upsert_edge g e).edges (λ es. set_buckets-id _ _ (or_empty e.buckets)) k'.edges;
    }

tick_edge-IsFiled :
    (sec : ℤ) (g : GraphState) (e : WireEdge) → IsFiled g → IsFiled (tick_edge sec g e)
unfolding tick_edge count_edge add_bucket
tick_edge-IsFiled sec g e k =
    let k' = upsert_edge-IsFiled g e k in
    record {
      nodes = k'.nodes;
      edges =
          modify-IsKeyed (λ x. x.id) e.id (count_edge (upsert_edge g e).retention sec e)
            (upsert_edge g e).edges (λ es. refl) k'.edges;
    }

pub receive-IsFiled : (g : GraphState) (m : Message) → IsFiled g → IsFiled (receive g m)
unfolding receive apply_snapshot clear_graph apply_tick
receive-IsFiled g (hello h) k = record { nodes = k.nodes; edges = k.edges }
receive-IsFiled g (snapshot s) k =
    let empty : IsFiled (clear_graph g) = record { nodes = tt; edges = tt } in
    let nodes = foldl_keeps IsFiled upsert_node upsert_node-IsFiled s.nodes (clear_graph g) empty in
    let all = foldl_keeps IsFiled snapshot_edge snapshot_edge-IsFiled s.edges _ nodes in
    record { nodes = all.nodes; edges = all.edges }
receive-IsFiled g (tick t) k =
    let k1 = foldl_keeps IsFiled upsert_node upsert_node-IsFiled (or_empty t.nodes) g k in
    let k2 = foldl_keeps IsFiled (tick_edge _) (tick_edge-IsFiled _) (or_empty t.edges) _ k1 in
    let k3 = foldl_keeps IsFiled remove_edge remove_edge-IsFiled (or_empty t.gone.edges) _ k2 in
    let k4 = foldl_keeps IsFiled remove_node remove_node-IsFiled (or_empty t.gone.nodes) _ k3 in
    record { nodes = k4.nodes; edges = k4.edges }
