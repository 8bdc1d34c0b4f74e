-- ===== src/Frames/NodeIds.antt =====
-- Which nodes are on the screen after the loops of `applyChanges` in web/src/main.ts.
use flowscape.Base.{
  ℕ, suc, ◌<◌, ◌≤◌, ◌+◌, String, Bool, true, false, not, ◌&&◌, ◌||◌, ◌≡◌, refl, ◌∙◌, ap, List, [],
  ◌∷◌, foldl, Option, none, some, length, arith, ◌===◌, inl, inr, Bool-cases, Option-cases, ◌⊎◌,
  if◌then◌else◌,
}
use flowscape.Base.Dict
use flowscape.Base.Dict.{Dict}
use flowscape.Base.Keyed.{IsKeyed, id-get}
use flowscape.Base.StringSet
use flowscape.Base.Numbers.{Numbers, Vec3}
use flowscape.GraphState.Types.{Changes, NodeState, GraphState}
use flowscape.Nodes.Types.{Nodes}
use flowscape.Nodes.Operations.{has, remove, add, add_at, occupy, set_target, set_machine}
use flowscape.Edges.Steps.{List-cases}
use flowscape.Frames.Operations.{drop_nodes, retint, retint_to, machine_of, take_target, add_known}

module _ (N : Numbers) where
  -- The nodes that are on the screen.
  abbrev pub shown : Nodes N → String → Bool
  shown d x = Dict.has x d.slots

  shown-remove :
      (d : Nodes N) (id x : String)
      → shown (remove N d id) x ≡ (if id === x then false else shown d x)
  unfolding remove
  shown-remove d id x = elim (Option-cases (Dict.get id d.slots)) [
    | inl n ↦
        let gone = Dict.has-get id d.slots ∙ ap Dict.is_some n in
        rw (n, remove) (ground (arith, Dict.has-same id x d.slots))
    | inr (s, n) ↦ rw (n, remove) (Dict.has-delete id x d.slots)
  ]

  shown-removes :
      (ids : List String) (d : Nodes N) (x : String)
      → shown (foldl (remove N) d ids) x ≡ shown d x && not (StringSet.has x ids)
  unfolding StringSet.has
  shown-removes [] d x = ground arith
  shown-removes (id ∷ ids) d x =
      ground (arith, shown-removes ids (remove N d id) x, shown-remove d id x)

  shown-drop_nodes :
      (c : Changes) (d : Nodes N) (x : String)
      → shown (drop_nodes N c d) x ≡ shown d x && not (StringSet.has x c.removed_nodes)
  unfolding drop_nodes
  shown-drop_nodes c d x = elim (Bool-cases c.reset) [
    | inl q ↦ rw q (
        ground (
          arith,
          shown-removes c.removed_nodes (foldl (remove N) d c.removed_nodes) x,
          shown-removes c.removed_nodes d x,
        ))
    | inr q ↦ rw q (shown-removes c.removed_nodes d x)
  ]

  -- A new tint leaves the nodes where they are.
  shown-retint_to :
      (d : Nodes N) (id x : String) (m : Option String) → shown (retint_to N d id m) x ≡ shown d x
  unfolding set_machine
  shown-retint_to d id x none = refl
  shown-retint_to d id x (some m) = elim (Bool-cases (m === "")) [
    | inl q ↦ rw q refl
    | inr q ↦ rw q (Dict.has-modify id x (λ s. record s { machine = m }) d.slots)
  ]

  shown-retint :
      (g : GraphState) (d : Nodes N) (id x : String) → shown (retint N g d id) x ≡ shown d x
  unfolding retint
  shown-retint g d id x = shown-retint_to d id x (machine_of N (Dict.get id g.nodes))

  shown-retints :
      (g : GraphState) (ids : List String) (d : Nodes N) (x : String)
      → shown (foldl (retint N g) d ids) x ≡ shown d x
  shown-retints g [] d x = refl
  shown-retints g (id ∷ ids) d x = shown-retints g ids (retint N g d id) x ∙ shown-retint g d id x

  -- What the frame drops and tints.
  pub shown-kept :
      (g : GraphState) (c : Changes) (d : Nodes N) (x : String)
      → shown (foldl (retint N g) (drop_nodes N c d) c.touched_nodes) x
        ≡ shown d x && not (StringSet.has x c.removed_nodes)
  shown-kept g c d x = shown-retints g c.touched_nodes (drop_nodes N c d) x ∙ shown-drop_nodes c d x

  -- How many of the targets are of nodes that are not on the screen.
  unfoldable pub missing : Nodes N → Dict (Vec3 N) → ℕ
  missing d [] = 0
  missing d ((id, target) ∷ targets) =
      let rest = missing d targets in if shown d id then rest else suc rest

  fewer-missing :
      (d d' : Nodes N) (targets : Dict (Vec3 N))
      → ((x : String) → shown d x ≡ true → shown d' x ≡ true)
      → missing d' targets ≤ missing d targets
  unfolding missing
  fewer-missing d d' [] keep = omega arith
  fewer-missing d d' ((id, target) ∷ targets) keep =
      ground (arith, fewer-missing d d' targets keep, keep id)

  module _ (d : Nodes N) (n : NodeState) (target : Vec3 N) where
    add-there : shown d n.id ≡ true → add N d n target ≡ d
    unfolding add
    add-there q = rw q refl

    add-placed :
        (i : ℕ) (is : List ℕ)
        → shown d n.id ≡ false
        → d.free ≡ i ∷ is
        → add N d n target ≡ occupy N d n target i is
    unfolding add
    add-placed i is new top = rw new (ap (add_at N d n target) top)

  -- One target, where there is room for its node if it is not on the screen.
  record IsTaken (g : GraphState) (d d' : Nodes N) (id : String) : Type 0 where
    shows : (x : String) → shown d' x ≡ ((id === x) && Dict.has id g.nodes) || shown d x
    room : length d.free ≤ length d'.free + (if shown d id then 0 else 1)

  take_target-get :
      (g : GraphState) (d : Nodes N) (id : String) (target : Vec3 N) (found : Option NodeState)
      → shown d id ≡ false
      → Dict.get id g.nodes ≡ found
      → take_target N g d (id, target) ≡ add_known N d target found
  unfolding take_target has
  take_target-get g d id target found new n = rw new (ap (add_known N d target) n)

  take_target-there :
      (g : GraphState) (d : Nodes N) (id : String) (target : Vec3 N)
      → shown d id ≡ true
      → take_target N g d (id, target) ≡ set_target N d id target
  unfolding take_target has
  take_target-there g d id target there = rw there refl

  take_target-IsTaken :
      (g : GraphState) (d : Nodes N) (id : String) (target : Vec3 N)
      → IsKeyed (λ n. n.id) g.nodes
      → (shown d id ≡ false → 0 < length d.free)
      → IsTaken g d (take_target N g d (id, target)) id
  unfolding set_target occupy
  take_target-IsTaken g d id target keyed free = elim (Bool-cases (shown d id)) [
    | inl q ↦ rw (take_target-there g d id target q) (record {
      shows = λ x.
          Dict.has-modify id x (λ s. record s { target = target }) d.slots
          ∙ ground (arith, Dict.has-same id x d.slots);
      room = omega arith;
    })
    | inr q ↦ elim (Option-cases (Dict.get id g.nodes)) [
      | inl n ↦
          let gone = Dict.has-get id g.nodes ∙ ap Dict.is_some n in
          rw (take_target-get g d id target none q n)
            (record { shows = λ x. ground arith; room = omega arith })
      | inr (s, n) ↦ added s n q (List-cases d.free)
    ]
  ]
    where
      added :
          (s : NodeState)
          → Dict.get id g.nodes ≡ some s
          → shown d id ≡ false
          → (d.free ≡ []) ⊎ ((i : ℕ) × (is : List ℕ) × (d.free ≡ i ∷ is))
          → IsTaken g d (take_target N g d (id, target)) id
      added s n q (inl empty) = absurd (let k = free q in omega (arith, ap length empty))
      added s n q (inr (i, is, top)) =
          let named = id-get (λ t. t.id) id s g.nodes keyed n in
          let there = Dict.has-get id g.nodes ∙ ap Dict.is_some n in
          rw
            (
              take_target-get g d id target (some s) q n,
              add-placed d s target i is (ap (shown d) named ∙ q) top,
            )
            (record {
              shows = λ x.
                  Dict.has-put s.id x _ d.slots
                  ∙ ap (λ j. (j === x) || shown d x) named
                  ∙ ground arith;
              room = ground (arith, ap length top);
            })

  -- The loop over the targets takes up the nodes that the graph has.
  pub shown-take_targets :
      (g : GraphState)
      → IsKeyed (λ n. n.id) g.nodes
      → (targets : Dict (Vec3 N)) (d : Nodes N) (x : String) → missing d targets ≤ length d.free
      → shown (foldl (take_target N g) d targets) x
        ≡ (Dict.has x targets && Dict.has x g.nodes) || shown d x
  unfolding missing Dict.has
  shown-take_targets g keyed [] d x room = refl
  shown-take_targets g keyed ((id, target) ∷ targets) d x room =
      let k = take_target-IsTaken g d id target keyed (λ new. ground arith) in
      let d' = take_target N g d (id, target) in
      let fewer = fewer-missing d d' targets (λ y there. k.shows y ∙ ground arith) in
      let enough : missing d' targets ≤ length d'.free = ground (arith, k.room, fewer) in
      ground (
        arith,
        shown-take_targets g keyed targets d' x enough,
        k.shows x,
        Dict.has-same id x g.nodes,
      )
