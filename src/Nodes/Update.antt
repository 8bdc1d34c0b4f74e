-- ===== src/Nodes/Update.antt =====
-- `update` and `updateLabels` of web/src/nodes.ts, past the meshes.
use flowscape.Base.{suc, ◌%◌, String, not, List, [], ◌∷◌, map, take, get_or, eqb, if◌then◌else◌}
use flowscape.Base.Dict
use flowscape.Base.StringSet
use flowscape.Base.Numbers.{Numbers, Vec3}
use flowscape.Layout.Sorting.{sort_by}
use flowscape.Nodes.Types.{Slot, Nodes}
use flowscape.Nodes.Operations.{origin, move_all, label_rank, is_near}

module _ (N : Numbers) where
  -- The slots that are near, in the order of the map.
  unfoldable pub near_slots : Nodes N → (Slot N → N.R) → List (Slot N) → List (Slot N)
  near_slots d distance [] = []
  near_slots d distance (s ∷ slots) =
      let rest = near_slots d distance slots in if is_near N d distance s then s ∷ rest else rest

  -- `near.sort((a, b) => a.d2 - b.d2)`
  unfoldable pub by_rank : Nodes N → (Slot N → N.R) → List (Slot N) → List (Slot N)
  by_rank d distance =
      sort_by (λ a b. not (N.below (label_rank N d distance b) (label_rank N d distance a)))

  -- The ids that keep a label: the nearest, as many as the budget has.
  unfoldable pub kept : Nodes N → (Slot N → N.R) → List String
  unfolding near_slots by_rank
  kept d distance =
      map (λ s. s.id)
        (take d.label_budget (by_rank d distance (near_slots d distance (Dict.values d.slots))))

  -- On every twelfth call each slot gets or loses its label.
  unfoldable pub update_labels : Nodes N → (Slot N → N.R) → Nodes N
  unfolding kept
  update_labels d distance =
      let d' = record d { label_tick = suc d.label_tick } in
      if eqb (d'.label_tick % 12) 0
      then record d' {
        slots =
            Dict.map_values (λ s. record s { label = StringSet.has s.id (kept d distance) })
              d'.slots;
      }
      else d'

  -- `dt` is the time since the last frame, `distance2` the squared distance to the camera.
  unfoldable pub update : Nodes N → N.R → (Vec3 N → N.R) → Nodes N
  unfolding update_labels
  update d dt distance2 =
      let k = N.least (N.of 1) (N.times (N.of 6) dt) in
      let moved = record d { positions = move_all N k (Dict.values d.slots) d.positions } in
      update_labels moved (λ s. distance2 (get_or moved.positions s.index (origin N)))
