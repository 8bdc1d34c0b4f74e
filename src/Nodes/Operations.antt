-- ===== src/Nodes/Operations.antt =====
-- The methods of the class `Nodes` of web/src/nodes.ts.
use mathlib.Core.Option
use flowscape.Base.{
  ℕ, String, Bool, false, not, ◌&&◌, ◌||◌, List, [], ◌∷◌, Option, none, some, get_or, set,
  replicate, ◌===◌, if◌then◌else◌,
}
use flowscape.Base.Dict
use flowscape.Base.Dict.{Dict}
use flowscape.Base.StringSet
use flowscape.Base.Numbers.{Numbers, Vec3}
use flowscape.GraphState.Types.{NodeState}
use flowscape.Edges.Types.{count_up}
use flowscape.Nodes.Types.{Slot, Nodes}

-- `x ?? ""`
abbrev pub or_blank : Option String → String
or_blank none = ""
or_blank (some x) = x

-- `x === y`, of an id and an id or null.
abbrev pub is_id : String → Option String → Bool
is_id x none = false
is_id x (some y) = x === y

module _ (N : Numbers) where
  abbrev pub origin : Vec3 N
  origin = record { x = N.of 0; y = N.of 0; z = N.of 0 }

  abbrev lit : ℕ → ℕ → N.R
  lit m n = N.over (N.of m) (N.of n)

  -- The constructor; `capacity` is `CAPACITY`, 2048 in the source.
  unfoldable pub init : ℕ → Nodes N
  unfolding count_up
  init capacity = record {
    positions = replicate capacity origin;
    slots = [];
    by_index = replicate capacity none;
    free = count_up 0 capacity;
    label_budget = 40;
    selected = none;
    hovered = none;
    emphasised_machine = none;
    label_tick = 0;
  }

  unfoldable pub has : Nodes N → String → Bool
  has d id = Dict.has id d.slots

  unfoldable pub id_at : Nodes N → ℕ → Option String
  id_at d index = get_or d.by_index index none

  abbrev pub new_slot : NodeState → Vec3 N → ℕ → Slot N
  new_slot n target index = record {
    index = index;
    id = n.id;
    ns = n.ns;
    reserved = n.ns === "reserved";
    target = target;
    activity = lit 4 10;
    hidden = false;
    label = false;
    label_text = n.name;
    machine = or_blank n.machine;
    unavailable = false;
  }

  -- `add`, past the test for a free slot. The node drops in from above.
  unfoldable pub occupy : Nodes N → NodeState → Vec3 N → ℕ → List ℕ → Nodes N
  occupy d n target index rest = record d {
    free = rest;
    positions = set d.positions index (record {
      x = N.single target.x;
      y = N.single (N.plus target.y (N.of 6));
      z = N.single target.z;
    });
    slots = Dict.put n.id (new_slot n target index) d.slots;
    by_index = set d.by_index index (some n.id);
  }

  -- `this.free.pop()`, and nothing more when it has none.
  abbrev pub add_at : Nodes N → NodeState → Vec3 N → List ℕ → Nodes N
  add_at d n target [] = d
  add_at d n target (index ∷ rest) = occupy d n target index rest

  unfoldable pub add : Nodes N → NodeState → Vec3 N → Nodes N
  unfolding occupy
  add d n target = if Dict.has n.id d.slots then d else add_at d n target d.free

  unfoldable pub remove : Nodes N → String → Nodes N
  remove d id = elim (Dict.get id d.slots) [
    | none ↦ d
    | some slot ↦ record d {
      slots = Dict.delete id d.slots;
      by_index = set d.by_index slot.index none;
      free = slot.index ∷ d.free;
    }
  ]

  -- `const slot = this.slots.get(id); if (slot) …`
  abbrev pub with_slot : Nodes N → String → (Slot N → Slot N) → Nodes N
  with_slot d id f = record d { slots = Dict.modify id f d.slots }

  unfoldable pub set_target : Nodes N → String → Vec3 N → Nodes N
  set_target d id target = with_slot d id (λ s. record s { target = target })

  unfoldable pub set_activity : Nodes N → String → N.R → Nodes N
  set_activity d id activity = with_slot d id (λ s. record s { activity = activity })

  unfoldable pub set_hidden : Nodes N → String → Bool → Nodes N
  set_hidden d id h = with_slot d id (λ s. record s { hidden = h })

  unfoldable pub set_machine : Nodes N → String → String → Nodes N
  set_machine d id machine = with_slot d id (λ s. record s { machine = machine })

  unfoldable pub machine_of : Nodes N → String → String
  machine_of d id = or_blank (Option.map (λ s. s.machine) (Dict.get id d.slots))

  unfoldable pub set_unavailable : Nodes N → List String → Nodes N
  set_unavailable d names = record d {
    slots =
        Dict.map_values
          (λ s.
            if s.reserved then record s { unavailable = StringSet.has s.label_text names } else s)
          d.slots;
  }

  -- None when the node has no slot.
  unfoldable pub position_of : Nodes N → String → Option (Vec3 N)
  position_of d id = Option.map (λ s. get_or d.positions s.index origin) (Dict.get id d.slots)

  -- `p + (target - p) * k`
  abbrev pub lerp : N.R → N.R → N.R → N.R
  lerp k p target = N.plus p (N.times (N.minus target p) k)

  -- The positions after the loop of `update`: each moves towards its target.
  unfoldable pub move_all : N.R → List (Slot N) → List (Vec3 N) → List (Vec3 N)
  move_all k [] positions = positions
  move_all k (s ∷ slots) positions =
      let p = get_or positions s.index origin in
      move_all k slots (
        set positions s.index (record {
          x = N.single (lerp k p.x s.target.x);
          y = N.single (lerp k p.y s.target.y);
          z = N.single (lerp k p.z s.target.z);
        }))

  abbrev pub on_machine : Nodes N → Slot N → Bool
  on_machine d s =
      is_id s.machine d.emphasised_machine
      || (s.reserved && is_id s.label_text d.emphasised_machine)

  abbrev pub is_emphasised : Nodes N → Slot N → Bool
  is_emphasised d s = is_id s.id d.selected || is_id s.id d.hovered || on_machine d s

  -- `emphasised ? -1 : d2`, where `d2` is the squared distance to the camera.
  abbrev pub label_rank : Nodes N → (Slot N → N.R) → Slot N → N.R
  label_rank d distance s = if is_emphasised d s then N.neg (N.of 1) else distance s

  -- Whether the slot goes to `near`.
  abbrev pub is_near : Nodes N → (Slot N → N.R) → Slot N → Bool
  is_near d distance s =
      not s.hidden
      && (s.reserved || is_emphasised d s || N.below (distance s) (N.times (N.of 18) (N.of 18)))
