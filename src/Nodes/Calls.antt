-- ===== src/Nodes/Calls.antt =====
-- Whatever the frame loop asks of the nodes, ids and indices stay together.
use flowscape.Base.{
  ℕ, suc, ◌%◌, String, Bool, false, ◌≡◌, refl, ◌∙◌, sym, ap, List, [], ◌∷◌, arith, foldl,
  foldl_keeps, none, eqb, Bool-cases, Option-cases, inl, inr, if◌then◌else◌,
}
use flowscape.Base.Dict
use flowscape.Base.StringSet
use flowscape.Base.Numbers.{Numbers, Vec3}
use flowscape.GraphState.Types.{NodeState}
use flowscape.Nodes.Types.{Slot, Nodes}
use flowscape.Nodes.Operations.{
  init, add, add_at, occupy, new_slot, remove, set_target, set_activity, set_hidden, set_machine,
  set_unavailable,
}
use flowscape.Nodes.Update.{update, update_labels}
use flowscape.Nodes.Pool
use flowscape.Nodes.Pool.{Pool, empty-IsValid, taken-IsValid}
use flowscape.Nodes.Release.{freed-IsValid, modify-IsValid, map_values-IsValid}

-- What the frame loop asks of the nodes, in any order.
pub data Call (N : Numbers) : Type 0 where
  adds : NodeState → Vec3 N → Call N
  removes : String → Call N
  aims : String → Vec3 N → Call N
  activates : String → N.R → Call N
  hides : String → Bool → Call N
  assigns : String → String → Call N
  loses : List String → Call N
  updates : N.R → (Vec3 N → N.R) → Call N

absent : {V : Type 0} (id : String) (m : Dict.Dict V) → Dict.has id m ≡ false → Dict.get id m ≡ none
absent id m h = elim (Option-cases (Dict.get id m)) [
  | inl n ↦ n
  | inr (s, n) ↦ let k = sym h ∙ Dict.has-get id m ∙ ap Dict.is_some n in absurd (cc)
]

module _ (N : Numbers) where
  unfoldable pub perform : Nodes N → Call N → Nodes N
  perform d (adds n target) = add N d n target
  perform d (removes id) = remove N d id
  perform d (aims id target) = set_target N d id target
  perform d (activates id activity) = set_activity N d id activity
  perform d (hides id h) = set_hidden N d id h
  perform d (assigns id machine) = set_machine N d id machine
  perform d (loses names) = set_unavailable N d names
  perform d (updates dt distance2) = update N d dt distance2

  abbrev pub pool_of : Nodes N → Pool (Slot N)
  pool_of d = record { slots = d.slots; owners = d.by_index; free = d.free }

  module _ (capacity : ℕ) where
    -- Each node has an index of its own whose owner it is, and an index is free exactly when it has no
    -- owner, and is free once.
    abbrev pub IsValid : Nodes N → Type 0
    IsValid d = Pool.IsValid (λ s. s.id) (λ s. s.index) capacity (pool_of d)

    init-IsValid : IsValid (init N capacity)
    unfolding init
    init-IsValid = empty-IsValid (λ s. s.id) (λ s. s.index) capacity

    module _ (d : Nodes N) (v : IsValid d) where
      occupied :
          (n : NodeState) (target : Vec3 N) (index : ℕ) (rest : List ℕ)
          → Dict.has n.id d.slots ≡ false
          → d.free ≡ index ∷ rest
          → IsValid (occupy N d n target index rest)
      unfolding occupy
      occupied n target index rest new top =
          taken-IsValid (λ s. s.id) (λ s. s.index) capacity (pool_of d) v n.id
            (new_slot N n target index) rest (absent n.id d.slots new) refl top

      -- The free list is what it is.
      popped :
          (n : NodeState) (target : Vec3 N)
          → Dict.has n.id d.slots ≡ false
          → (free : List ℕ) → d.free ≡ free
          → IsValid (add_at N d n target free)
      popped n target new [] top = v
      popped n target new (index ∷ rest) top = occupied n target index rest new top

      add-IsValid : (n : NodeState) (target : Vec3 N) → IsValid (add N d n target)
      unfolding add
      add-IsValid n target = elim (Bool-cases (Dict.has n.id d.slots)) [
        | inl there ↦ rw there v
        | inr new ↦ rw new (popped n target new d.free refl)
      ]

      remove-IsValid : (id : String) → IsValid (remove N d id)
      unfolding remove
      remove-IsValid id = elim (Option-cases (Dict.get id d.slots)) [
        | inl n ↦ rw (n, remove) v
        | inr (s, n) ↦
            rw (n, remove) (freed-IsValid (λ s. s.id) (λ s. s.index) capacity (pool_of d) v id s n)
      ]

      changed :
          (f : Slot N → Slot N)
          → ((s : Slot N) → (f s).id ≡ s.id)
          → ((s : Slot N) → (f s).index ≡ s.index)
          → (id : String) → IsValid (record d { slots = Dict.modify id f d.slots })
      changed f named placed id =
          modify-IsValid (λ s. s.id) (λ s. s.index) capacity (pool_of d) v f named placed id

      all_changed :
          (f : Slot N → Slot N)
          → ((s : Slot N) → (f s).id ≡ s.id)
          → ((s : Slot N) → (f s).index ≡ s.index)
          → IsValid (record d { slots = Dict.map_values f d.slots })
      all_changed f named placed =
          map_values-IsValid (λ s. s.id) (λ s. s.index) capacity (pool_of d) v f named placed

      update-IsValid : (dt : N.R) (distance2 : Vec3 N → N.R) → IsValid (update N d dt distance2)
      unfolding update update_labels
      update-IsValid dt distance2 = elim (Bool-cases (eqb (suc d.label_tick % 12) 0)) [
        | inl q ↦ rw q (all_changed (λ s. record s { label = _ }) (λ s. refl) (λ s. refl))
        | inr q ↦ rw q v
      ]

      perform-IsValid : (c : Call N) → IsValid (perform d c)
      unfolding perform set_target set_activity set_hidden set_machine set_unavailable
      perform-IsValid (adds n target) = add-IsValid n target
      perform-IsValid (removes id) = remove-IsValid id
      perform-IsValid (aims id target) =
          changed (λ s. record s { target = target }) (λ s. refl) (λ s. refl) id
      perform-IsValid (activates id activity) =
          changed (λ s. record s { activity = activity }) (λ s. refl) (λ s. refl) id
      perform-IsValid (hides id h) =
          changed (λ s. record s { hidden = h }) (λ s. refl) (λ s. refl) id
      perform-IsValid (assigns id machine) =
          changed (λ s. record s { machine = machine }) (λ s. refl) (λ s. refl) id
      perform-IsValid (loses names) =
          all_changed
            (λ s.
              if s.reserved then record s { unavailable = StringSet.has s.label_text names } else s)
            (λ s. ground arith) (λ s. ground arith)
      perform-IsValid (updates dt distance2) = update-IsValid dt distance2

    -- Whatever the frame loop asks of the nodes, in whatever order: each node on the screen has an
    -- index of its own whose owner it is, and an index is free exactly when it has no owner, and is
    -- free once.
    pub calls-IsOwned : (cs : List (Call N)) → IsValid (foldl perform (init N capacity) cs)
    calls-IsOwned cs =
        foldl_keeps IsValid perform (λ d c v. perform-IsValid d v c) cs (init N capacity)
          init-IsValid
