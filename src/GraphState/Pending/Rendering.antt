-- ===== src/GraphState/Pending/Rendering.antt =====
-- A specification of the renderer beside the graph, as sets of ids: one that never runs out of slots,
-- where web/src/edges.ts and web/src/nodes.ts drop what finds none. On each frame it consumes the
-- changes as `applyChanges` of web/src/main.ts does, drops the edges and nodes noted as removed, and
-- takes up the edges noted as added that the graph still has, and all nodes of the graph when their
-- membership is dirty. Between two frames any number of messages arrive; `by_machine` is the grouping.
-- `Frames` has the renderer with its slots, and when it does as this one.
use flowscape.Base.{
  ℕ, String, Bool, true, false, not, ◌&&◌, ◌||◌, [], ◌∷◌, ◌≡◌, refl, List, foldl, foldl_keeps,
  arith,
}
use flowscape.Base.Dict
use flowscape.Base.StringSet
use flowscape.Base.StringSet.{StringSet}
use flowscape.Protocol.{Message, hello, snapshot, tick}
use flowscape.GraphState.Types.{Changes, GraphState, init}
use flowscape.GraphState.Operations.{receive, consume}
use flowscape.GraphState.Pending.Flags.{IsSound, refresh, sound-refresh}
use flowscape.GraphState.Pending.Ticks.{Books, apply_tick-Books}
use flowscape.GraphState.Pending.Snapshots.{apply_snapshot-Books}

-- The ids that the renderer holds after it dropped those in `removed` and took up the live ones that
-- it is told to look at.
unfoldable pub follow :
    (String → Bool) → (String → Bool) → (String → Bool) → StringSet → String → Bool
follow held live told removed x = refresh (held x) (live x) (told x) (StringSet.has x removed)

-- `xs.length`, as a condition.
abbrev pub some_in {ℓ} : {A : Type ℓ} → List A → Bool
some_in [] = false
some_in (x ∷ xs) = true

-- `membershipDirty`: the nodes on the screen are looked at again.
unfoldable pub membership_dirty : Bool → Changes → Bool
membership_dirty by_machine c =
    some_in c.added_nodes
    || some_in c.removed_nodes
    || c.reset
    || (some_in c.touched_nodes && by_machine)

pub record Screen : Type 0 where
  pub graph : GraphState
  pub by_machine : Bool
  pub edges : String → Bool
  pub nodes : String → Bool

unfoldable pub start : ℕ → Bool → Screen
start retention by_machine = record {
  graph = init retention;
  by_machine = by_machine;
  edges = λ _. false;
  nodes = λ _. false;
}

-- The messages since the last frame, and the frame.
unfoldable pub frame : Screen → List Message → Screen
unfolding follow
frame s messages =
    let (changes, graph) = consume (foldl receive s.graph messages) in
    let dirty = membership_dirty s.by_machine changes in
    record {
      graph = graph;
      by_machine = s.by_machine;
      edges =
          follow s.edges (λ x. Dict.has x graph.edges) (λ x. StringSet.has x changes.added_edges)
            changes.removed_edges;
      nodes = follow s.nodes (λ x. Dict.has x graph.nodes) (λ _. dirty) changes.removed_nodes;
    }

has-some_in : (x : String) (xs : StringSet) → StringSet.has x xs ≡ true → some_in xs ≡ true
unfolding StringSet.has
has-some_in x [] h = absurd (cc)
has-some_in x (y ∷ xs) h = refl

-- An added node makes the nodes be looked at.
pub added-dirty :
    (by_machine : Bool) (c : Changes) (x : String)
    → StringSet.has x c.added_nodes ≡ true
    → membership_dirty by_machine c ≡ true
unfolding membership_dirty
added-dirty by_machine c x h = rw (has-some_in x c.added_nodes h) refl

pub receive-Books :
    {be bn : String → Bool} (g : GraphState) (m : Message)
    → Books IsSound be bn g
    → Books IsSound be bn (receive g m)
unfolding receive
receive-Books g (hello h) k = record { of_edge = k.of_edge; of_node = k.of_node }
receive-Books {be} {bn} g (snapshot s) k = apply_snapshot-Books g s be bn
receive-Books g (tick t) k = apply_tick-Books g t k

-- A live id that the renderer holds, with nothing pending.
settled : (b l : Bool) → (l ≡ true → b ≡ true) → IsSound b l false false
settled true l h = ground arith
settled false l h = ground arith

-- `a` implies `b`.
abbrev pub implies : Bool → Bool → Bool
implies a b = not a || b

shown :
    (b l t : Bool) {a r : Bool}
    → IsSound b l a r
    → (a ≡ true → t ≡ true)
    → implies l (refresh b l t r) ≡ true
shown b true t k looks = sound-refresh b t k looks refl
shown b false t k looks = refl

pub record IsFollowed (s : Screen) : Type 0 where
  pub books : Books IsSound s.edges s.nodes s.graph
  pub edges_shown : (x : String) → implies (Dict.has x s.graph.edges) (s.edges x) ≡ true
  pub nodes_shown : (x : String) → implies (Dict.has x s.graph.nodes) (s.nodes x) ≡ true

start-IsFollowed : (retention : ℕ) (by_machine : Bool) → IsFollowed (start retention by_machine)
unfolding start init Dict.has StringSet.has
start-IsFollowed retention by_machine = record {
  books = record {
    of_edge = λ x. settled false false (λ e. e);
    of_node = λ x. settled false false (λ e. e);
  };
  edges_shown = λ x. refl;
  nodes_shown = λ x. refl;
}

frame-IsFollowed :
    (s : Screen) (messages : List Message) → IsFollowed s → IsFollowed (frame s messages)
unfolding frame consume StringSet.has
frame-IsFollowed s messages k = record {
  books = record {
    of_edge = λ x. settled _ _ (sound-refresh (s.edges x) _ (k'.of_edge x) (λ h. h));
    of_node = λ x. settled _ _ (sound-refresh (s.nodes x) _ (k'.of_node x) (looks x));
  };
  edges_shown = λ x. shown _ _ _ (k'.of_edge x) (λ h. h);
  nodes_shown = λ x. shown _ _ _ (k'.of_node x) (looks x);
}
  where
    k' : Books IsSound s.edges s.nodes (foldl receive s.graph messages)
    k' = foldl_keeps (Books IsSound s.edges s.nodes) receive receive-Books messages s.graph k.books

    looks :
        (x : String)
        → StringSet.has x (foldl receive s.graph messages).added_nodes ≡ true
        → membership_dirty s.by_machine (consume (foldl receive s.graph messages)).0 ≡ true
    looks x h = added-dirty s.by_machine (consume (foldl receive s.graph messages)).0 x h

-- Whatever the messages and however they fall between the frames, and however the nodes are grouped:
-- after each frame a renderer that never runs out of slots holds every edge and every node of the
-- graph.
pub frames-show :
    (retention : ℕ) (by_machine : Bool) (frames : List (List Message)) (x : String)
    → let s = foldl frame (start retention by_machine) frames in
      (implies (Dict.has x s.graph.edges) (s.edges x) ≡ true)
      × (implies (Dict.has x s.graph.nodes) (s.nodes x) ≡ true)
frames-show retention by_machine frames x =
    let k =
      foldl_keeps IsFollowed frame frame-IsFollowed frames (start retention by_machine)
        (start-IsFollowed retention by_machine) in
    (k.edges_shown x, k.nodes_shown x)
