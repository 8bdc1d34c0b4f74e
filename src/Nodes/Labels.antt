-- ===== src/Nodes/Labels.antt =====
-- How many nodes have a label.
use flowscape.Base.{
  ℕ, zero, suc, ◌≤◌, ◌%◌, String, false, ◌≡◌, refl, List, [], ◌∷◌, map, take, length, foldl,
  foldl_keeps, eqb, arith, Bool-cases, Option-cases, inl, inr, if◌then◌else◌,
}
use flowscape.Base.Dict
use flowscape.Base.StringSet
use flowscape.Base.Numbers.{Numbers, Vec3}
use flowscape.Base.Keyed.{IsKeyed, put-IsKeyed, delete-IsKeyed, modify-IsKeyed, map_values-IsKeyed}
use flowscape.Base.Unique.{
  IsUnique, put-IsUnique, delete-IsUnique, modify-IsUnique, map_values-IsUnique, count,
  count-put_new, count-delete, count-modify, count-map_values, count-listed,
}
use flowscape.GraphState.Types.{NodeState}
use flowscape.Nodes.Types.{Slot, Nodes}
use flowscape.Nodes.Operations.{
  move_all, init, add, add_at, occupy, new_slot, remove, set_target, set_activity, set_hidden,
  set_machine, set_unavailable,
}
use flowscape.Nodes.Update.{update, update_labels, kept, by_rank}
use flowscape.Nodes.Calls.{
  Call, adds, removes, aims, activates, hides, assigns, loses, updates, perform,
}

module _ (N : Numbers) where
  -- The nodes that have a label.
  abbrev pub labelled : Nodes N → ℕ
  labelled d = count (λ s. s.label) d.slots

  record IsModest (d : Nodes N) : Type 0 where
    unique : IsUnique d.slots
    keyed : IsKeyed (λ s. s.id) d.slots
    budget : d.label_budget ≡ 40
    modest : labelled d ≤ 40

  length-map-take : (n : ℕ) (xs : List (Slot N)) → length (map (λ s. s.id) (take n xs)) ≤ n
  length-map-take zero xs = omega arith
  length-map-take (suc n) [] = omega arith
  length-map-take (suc n) (x ∷ xs) = omega (arith, length-map-take n xs)

  module _ (d : Nodes N) (k : IsModest d) where
    occupied :
        (n : NodeState) (target : Vec3 N) (index : ℕ) (rest : List ℕ)
        → Dict.has n.id d.slots ≡ false
        → IsModest (occupy N d n target index rest)
    unfolding occupy
    occupied n target index rest new = record {
      unique = put-IsUnique n.id (new_slot N n target index) d.slots k.unique;
      keyed = put-IsKeyed (λ s. s.id) n.id (new_slot N n target index) d.slots refl k.keyed;
      budget = k.budget;
      modest = ground (
        arith,
        count-put_new (λ s. s.label) n.id (new_slot N n target index) d.slots new,
        k.modest,
      );
    }

    added :
        (n : NodeState) (target : Vec3 N)
        → Dict.has n.id d.slots ≡ false
        → (free : List ℕ) → IsModest (add_at N d n target free)
    added n target new [] = k
    added n target new (index ∷ rest) = occupied n target index rest new

    add-IsModest : (n : NodeState) (target : Vec3 N) → IsModest (add N d n target)
    unfolding add
    add-IsModest n target = elim (Bool-cases (Dict.has n.id d.slots)) [
      | inl q ↦ rw q k
      | inr q ↦ rw q (added n target q d.free)
    ]

    remove-IsModest : (id : String) → IsModest (remove N d id)
    unfolding remove
    remove-IsModest id = elim (Option-cases (Dict.get id d.slots)) [
      | inl n ↦ rw (n, remove) k
      | inr (s, n) ↦
          rw (n, remove)
            (record {
              unique = delete-IsUnique id d.slots k.unique;
              keyed = delete-IsKeyed (λ t. t.id) id d.slots k.keyed;
              budget = k.budget;
              modest = omega (arith, count-delete (λ t. t.label) id d.slots, k.modest);
            })
    ]

    -- A change of one slot that is not about its label, and of all slots.
    changed :
        (f : Slot N → Slot N)
        → ((s : Slot N) → (f s).id ≡ s.id)
        → ((s : Slot N) → (f s).label ≡ s.label)
        → (id : String) → IsModest (record d { slots = Dict.modify id f d.slots })
    changed f named same id = record {
      unique = modify-IsUnique id f d.slots k.unique;
      keyed = modify-IsKeyed (λ s. s.id) id f d.slots named k.keyed;
      budget = k.budget;
      modest = omega (arith, count-modify (λ s. s.label) id f d.slots same, k.modest);
    }

    all_changed :
        (f : Slot N → Slot N)
        → ((s : Slot N) → (f s).id ≡ s.id)
        → ((s : Slot N) → (f s).label ≡ s.label)
        → IsModest (record d { slots = Dict.map_values f d.slots })
    all_changed f named same = record {
      unique = map_values-IsUnique f d.slots k.unique;
      keyed = map_values-IsKeyed (λ s. s.id) f d.slots named k.keyed;
      budget = k.budget;
      modest =
          omega (arith, count-map_values (λ s. s.label) (λ s. s.label) f d.slots same, k.modest);
    }

    -- The labels after `updateLabels` are of ids that are kept.
    relabelled :
        (ids : List String)
        → length ids ≤ 40
        → IsModest (record d {
          slots = Dict.map_values (λ s. record s { label = StringSet.has s.id ids }) d.slots;
        })
    relabelled ids few = record {
      unique = map_values-IsUnique _ d.slots k.unique;
      keyed = map_values-IsKeyed (λ s. s.id) _ d.slots (λ s. refl) k.keyed;
      budget = k.budget;
      modest = omega (
        arith,
        count-map_values (λ s. s.label) (λ s. StringSet.has s.id ids)
            (λ s. record s { label = StringSet.has s.id ids }) d.slots (λ s. refl),
        count-listed (λ s. s.id) ids d.slots k.unique k.keyed,
        few,
      );
    }

  few_kept :
      (d : Nodes N) (distance : Slot N → N.R)
      → d.label_budget ≡ 40
      → length (kept N d distance) ≤ 40
  unfolding kept
  few_kept d distance budget =
      omega (arith, length-map-take d.label_budget (by_rank N d distance _), budget)

  update-IsModest :
      (d : Nodes N) (dt : N.R) (distance2 : Vec3 N → N.R)
      → IsModest d
      → IsModest (update N d dt distance2)
  unfolding update update_labels
  update-IsModest d dt distance2 k = elim (Bool-cases (eqb (suc d.label_tick % 12) 0)) [
    | inl q ↦
        let k6 : N.R = N.least (N.of 1) (N.times (N.of 6) dt) in
        let moved : Nodes N = record d {
          positions = move_all N k6 (Dict.values d.slots) d.positions;
        } in
        rw q (relabel (relabelled d k _ (few_kept moved _ k.budget)))
    | inr q ↦ rw q (relabel k)
  ]
    where
      -- Positions and the tick are not asked about.
      relabel :
          {d : Nodes N} {p : List (Vec3 N)} {t : ℕ}
          → IsModest d
          → IsModest (record d { positions = p; label_tick = t })
      relabel j = record {
        unique = j.unique;
        keyed = j.keyed;
        budget = j.budget;
        modest = j.modest;
      }

  perform-IsModest : (d : Nodes N) (c : Call N) → IsModest d → IsModest (perform N d c)
  unfolding perform set_target set_activity set_hidden set_machine set_unavailable
  perform-IsModest d (adds n target) k = add-IsModest d k n target
  perform-IsModest d (removes id) k = remove-IsModest d k id
  perform-IsModest d (aims id target) k =
      changed d k (λ s. record s { target = target }) (λ s. refl) (λ s. refl) id
  perform-IsModest d (activates id activity) k =
      changed d k (λ s. record s { activity = activity }) (λ s. refl) (λ s. refl) id
  perform-IsModest d (hides id h) k =
      changed d k (λ s. record s { hidden = h }) (λ s. refl) (λ s. refl) id
  perform-IsModest d (assigns id machine) k =
      changed d k (λ s. record s { machine = machine }) (λ s. refl) (λ s. refl) id
  perform-IsModest d (loses names) k =
      all_changed d k
        (λ s. if s.reserved then record s { unavailable = StringSet.has s.label_text names } else s)
        (λ s. ground arith) (λ s. ground arith)
  perform-IsModest d (updates dt distance2) k = update-IsModest d dt distance2 k

  init-IsModest : (capacity : ℕ) → IsModest (init N capacity)
  unfolding init count
  init-IsModest capacity = record { unique = tt; keyed = tt; budget = refl; modest = omega arith }

  -- Whatever the frame loop asks of the nodes, in whatever order: at most 40 of them have a label.
  pub calls-few_labels :
      (capacity : ℕ) (cs : List (Call N)) → labelled (foldl (perform N) (init N capacity) cs) ≤ 40
  calls-few_labels capacity cs =
      (foldl_keeps IsModest (perform N) perform-IsModest cs (init N capacity)
        (init-IsModest capacity)).modest
