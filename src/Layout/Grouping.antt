-- ===== src/Layout/Grouping.antt =====
-- The first half of `rebuild` in web/src/layout.ts: the nodes by what they are.
use flowscape.Base.{
  Option, ℕ, zero, suc, String, Bool, true, false, not, ◌&&◌, ◌||◌, List, [], ◌∷◌, ◌++◌, none, some,
  ◌===◌, if◌then◌else◌,
}
use flowscape.Base.Dict
use flowscape.Base.Dict.{Dict}
use flowscape.GraphState.Types.{NodeState}
use flowscape.GraphState.Operations.{or_empty}
use flowscape.Filters.Types.{GroupBy}
use flowscape.Layout.Types.{unplaced, group_of}

-- The ids by what they are: the workloads by their group, the machines, the world, the others.
pub record Groups : Type 0 where
  pub by_group : Dict (List String)
  pub reserved : List String
  pub machines : List String
  pub world : List String

abbrev pub no_groups : Groups
no_groups = record { by_group = []; reserved = []; machines = []; world = [] }

-- `let list = byGroup.get(g); if (!list) byGroup.set(g, (list = [])); list.push(id)`
unfoldable pub push_to : String → String → Dict (List String) → Dict (List String)
push_to g id m = elim (Dict.get g m) [
  | none ↦ Dict.put g (id ∷ []) m
  | some ids ↦ Dict.put g (ids ++ (id ∷ [])) m
]

abbrev pub is_machine : String → Bool
is_machine kind = (kind === "node") || (kind === "host") || (kind === "remote-node")

-- The body of the loop over the nodes.
unfoldable pub classify : GroupBy → Groups → NodeState → Groups
classify by s n =
    if n.ns === "reserved"
    then (if n.kind === "world"
        then record s { world = s.world ++ (n.id ∷ []) }
        else (if is_machine n.kind
            then record s { machines = s.machines ++ (n.id ∷ []) }
            else record s { reserved = s.reserved ++ (n.id ∷ []) }))
    else record s { by_group = push_to (group_of by n) n.id s.by_group }

-- `a === UNPLACED ? 1 : b === UNPLACED ? -1 : a < b ? -1 : 1`, not positive.
abbrev pub names_le : (String → String → Bool) → String → String → Bool
names_le le a b =
    if a === unplaced then false else (if b === unplaced then true else le a b && not (a === b))

-- `drop`, of `slice(n)`.
abbrev pub drop {ℓ} : {A : Type ℓ} → ℕ → List A → List A
drop zero xs = xs
drop (suc n) [] = []
drop (suc n) (x ∷ xs) = drop n xs

-- `indexOf`
abbrev pub index_of : String → List String → ℕ
index_of x [] = 0
index_of x (y ∷ ys) = let rest = index_of x ys in if y === x then 0 else suc rest

abbrev pub ids_of : Dict (List String) → String → List String
ids_of m g = or_empty (Dict.get g m)

-- `nodes.get(id)!.kind` and `nodes.get(id)!.name`, of a node that is there.
abbrev kind_or : Option NodeState → String
kind_or none = ""
kind_or (some n) = n.kind

abbrev name_or : Option NodeState → String
name_or none = ""
name_or (some n) = n.name

abbrev pub kind_of : Dict NodeState → String → String
kind_of nodes id = kind_or (Dict.get id nodes)

abbrev pub name_of : Dict NodeState → String → String
name_of nodes id = name_or (Dict.get id nodes)
