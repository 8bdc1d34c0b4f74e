-- ===== src/Layout/Groups.antt =====
-- Which ids the groups of a layout hold.
use flowscape.Base.{
  ℕ, zero, suc, String, Bool, true, false, ◌&&◌, ◌||◌, ◌≡◌, refl, ◌∙◌, ap, List, [], ◌∷◌, ◌++◌,
  foldl, map, arith, take, ◌===◌, ===_iff, ===_refl, ===_cases, inl, inr, Bool-cases, Option-cases,
  if◌then◌else◌,
}
use flowscape.Base.Dict
use flowscape.Base.Dict.{Dict}
use flowscape.Base.StringSet
use flowscape.GraphState.Types.{NodeState}
use flowscape.Filters.Types.{GroupBy}
use flowscape.GraphState.Operations.{or_empty}
use flowscape.Layout.Types.{group_of}
use flowscape.Layout.Sorting.{insert, sort_by}
use flowscape.Layout.Grouping.{Groups, no_groups, push_to, classify, ids_of, drop}

pub has-append :
    (x : String) (xs ys : List String)
    → StringSet.has x (xs ++ ys) ≡ StringSet.has x xs || StringSet.has x ys
unfolding StringSet.has
has-append x [] ys = refl
has-append x (y ∷ xs) ys = ground (arith, has-append x xs ys)

has-single : (x y : String) → StringSet.has x (y ∷ []) ≡ (y === x)
unfolding StringSet.has
has-single x y = ground arith

has-nil : (x : String) → StringSet.has x [] ≡ false
unfolding StringSet.has
has-nil x = refl

module _ (le : String → String → Bool) where
  has-insert :
      (x y : String) (ys : List String)
      → StringSet.has x (insert le y ys) ≡ (y === x) || StringSet.has x ys
  unfolding insert StringSet.has
  has-insert x y [] = refl
  has-insert x y (z ∷ ys) = ground (arith, has-insert x y ys)

  pub has-sort_by :
      (x : String) (xs : List String) → StringSet.has x (sort_by le xs) ≡ StringSet.has x xs
  unfolding sort_by StringSet.has
  has-sort_by x [] = refl
  has-sort_by x (y ∷ xs) = ground (arith, has-sort_by x xs, has-insert x y (sort_by le xs))

pub has-slices :
    (x : String) (n : ℕ) (xs : List String)
    → StringSet.has x (drop n xs) || StringSet.has x (take n xs) ≡ StringSet.has x xs
unfolding StringSet.has
has-slices x zero xs = ground (arith, has-nil x)
has-slices x (suc n) [] = refl
has-slices x (suc n) (y ∷ xs) = ground (arith, has-slices x n xs)

-- Some group among `gs` holds the id.
unfoldable pub in_groups : String → Dict (List String) → List String → Bool
in_groups x m [] = false
in_groups x m (g ∷ gs) = StringSet.has x (ids_of m g) || in_groups x m gs

-- The same, but for one group.
except : String → String → Dict (List String) → List String → Bool
except h x m [] = false
except h x m (g ∷ gs) =
    let rest = except h x m gs in if h === g then rest else StringSet.has x (ids_of m g) || rest

module _ (h x : String) (m : Dict (List String)) where
  in_groups-except :
      (gs : List String)
      → in_groups x m gs ≡ (StringSet.has h gs && StringSet.has x (ids_of m h)) || except h x m gs
  unfolding in_groups except StringSet.has
  in_groups-except [] = refl
  in_groups-except (g ∷ gs) = elim (===_cases h g) [
    | inl (e, q) ↦
        let here = ap (λ g'. StringSet.has x (ids_of m g')) e in
        ground (arith, in_groups-except gs, q, ===_iff h g, ===_iff g h)
    | inr (e, q) ↦ ground (arith, in_groups-except gs, q, ===_iff h g, ===_iff g h)
  ]

  except-put :
      (v : List String) (gs : List String) → except h x (Dict.put h v m) gs ≡ except h x m gs
  unfolding except
  except-put v [] = refl
  except-put v (g ∷ gs) =
      let here = Dict.get-put h g v m in ground (arith, except-put v gs, ===_iff h g)

ids_of-put_self :
    (h : String) (v : List String) (m : Dict (List String)) → ids_of (Dict.put h v m) h ≡ v
ids_of-put_self h v m = rw (Dict.get-put h h v m, ===_refl h) refl

in_groups-put :
    (h x : String) (v : List String) (m : Dict (List String)) (gs : List String)
    → in_groups x (Dict.put h v m) gs ≡ (StringSet.has h gs && StringSet.has x v) || except h x m gs
in_groups-put h x v m gs =
    in_groups-except h x (Dict.put h v m) gs
    ∙ rw (ids_of-put_self h v m, except-put h x m v gs) refl

except-single : (h x : String) (m : Dict (List String)) → except h x m (h ∷ []) ≡ false
unfolding except
except-single h x m = rw (===_refl h) refl

in_groups-append :
    (x : String) (m : Dict (List String)) (gs hs : List String)
    → in_groups x m (gs ++ hs) ≡ in_groups x m gs || in_groups x m hs
unfolding in_groups
in_groups-append x m [] hs = refl
in_groups-append x m (g ∷ gs) hs = ground (arith, in_groups-append x m gs hs)

keys-put_present :
    (h : String) (v : List String) (m : Dict (List String))
    → Dict.has h m ≡ true
    → Dict.keys (Dict.put h v m) ≡ Dict.keys m
unfolding Dict.keys Dict.put Dict.has
keys-put_present h v [] there = absurd (cc)
keys-put_present h v ((g, w) ∷ m) there = elim (Bool-cases (g === h)) [
  | inl q ↦ rw q refl
  | inr q ↦ rw q (ap (◌∷◌ g) (keys-put_present h v m (ground arith)))
]

keys-put_absent :
    (h : String) (v : List String) (m : Dict (List String))
    → Dict.has h m ≡ false
    → Dict.keys (Dict.put h v m) ≡ Dict.keys m ++ (h ∷ [])
unfolding Dict.keys Dict.put Dict.has
keys-put_absent h v [] gone = refl
keys-put_absent h v ((g, w) ∷ m) gone = elim (Bool-cases (g === h)) [
  | inl q ↦ absurd (ground arith)
  | inr q ↦ rw q (ap (◌∷◌ g) (keys-put_absent h v m (ground arith)))
]

pub in_groups-push_to :
    (x g id : String) (m : Dict (List String))
    → in_groups x (push_to g id m) (Dict.keys (push_to g id m))
      ≡ (id === x) || in_groups x m (Dict.keys m)
unfolding push_to
in_groups-push_to x g id m = elim (Option-cases (Dict.get g m)) [
  | inl n ↦
      let gone : Dict.has g m ≡ false = Dict.has-get g m ∙ ap Dict.is_some n in
      let old = in_groups-except g x m (Dict.keys m) in
      let new = in_groups-put g x (id ∷ []) m (Dict.keys m) in
      rw (n, push_to)
        (rw (keys-put_absent g (id ∷ []) m gone, in_groups-append, new, old)
          (ground (
            arith,
            Dict.has-keys g m,
            in_groups-put g x (id ∷ []) m (g ∷ []),
            has-single x id,
            has-single g g,
            except-single g x m,
            ===_refl g,
          )))
  | inr (ids, n) ↦
      let there : Dict.has g m ≡ true = Dict.has-get g m ∙ ap Dict.is_some n in
      let held = ap (λ o. StringSet.has x (or_empty o)) n in
      rw (n, push_to)
        (rw (keys-put_present g (ids ++ (id ∷ [])) m there) (
          ground (
            arith,
            in_groups-put g x (ids ++ (id ∷ [])) m (Dict.keys m),
            in_groups-except g x m (Dict.keys m),
            Dict.has-keys g m,
            has-append x ids (id ∷ []),
            has-single x id,
            held,
          )))
]

-- The ids of all groups.
unfoldable pub grouped : String → Groups → Bool
grouped x s =
    in_groups x s.by_group (Dict.keys s.by_group)
    || StringSet.has x s.reserved
    || StringSet.has x s.machines
    || StringSet.has x s.world

abbrev pub ids : List NodeState → List String
ids = map (λ n. n.id)

grouped-classify :
    (x : String) (by : GroupBy) (s : Groups) (n : NodeState)
    → grouped x (classify by s n) ≡ (n.id === x) || grouped x s
unfolding grouped classify
grouped-classify x by s n = ground (
  arith,
  in_groups-push_to x (group_of by n) n.id s.by_group,
  has-append x s.reserved (n.id ∷ []),
  has-append x s.machines (n.id ∷ []),
  has-append x s.world (n.id ∷ []),
  has-single x n.id,
)

-- Every node is in a group, and nothing else is.
pub grouped-nodes :
    (x : String) (by : GroupBy) (ns : List NodeState) (s : Groups)
    → grouped x (foldl (classify by) s ns) ≡ StringSet.has x (ids ns) || grouped x s
unfolding StringSet.has
grouped-nodes x by [] s = refl
grouped-nodes x by (n ∷ ns) s =
    ground (arith, grouped-nodes x by ns (classify by s n), grouped-classify x by s n)

pub grouped-nothing : (x : String) → grouped x no_groups ≡ false
unfolding grouped in_groups Dict.keys StringSet.has
grouped-nothing x = refl

in_groups-insert :
    (le : String → String → Bool) (x g : String) (m : Dict (List String)) (gs : List String)
    → in_groups x m (insert le g gs) ≡ StringSet.has x (ids_of m g) || in_groups x m gs
unfolding insert in_groups
in_groups-insert le x g m [] = refl
in_groups-insert le x g m (h ∷ gs) = ground (arith, in_groups-insert le x g m gs)

pub in_groups-sort_by :
    (le : String → String → Bool) (x : String) (m : Dict (List String)) (gs : List String)
    → in_groups x m (sort_by le gs) ≡ in_groups x m gs
unfolding sort_by in_groups
in_groups-sort_by le x m [] = refl
in_groups-sort_by le x m (g ∷ gs) =
    ground (arith, in_groups-sort_by le x m gs, in_groups-insert le x g m (sort_by le gs))
