-- ===== src/Layout/Coverage.antt =====
-- Every node has a target, and nothing else has one.
use flowscape.Base.{
  ℕ, suc, String, Bool, ◌||◌, ◌≡◌, refl, ◌∙◌, ap, List, [], ◌∷◌, foldl, arith, ◌===◌,
}
use flowscape.Base.Dict
use flowscape.Base.Dict.{Dict}
use flowscape.Base.Keyed.{IsKeyed}
use flowscape.Base.StringSet
use flowscape.Base.Numbers.{Numbers, Vec3}
use flowscape.GraphState.Types.{NodeState}
use flowscape.Filters.Types.{GroupBy}
use flowscape.Layout.Types.{Platform, Layout}
use flowscape.Layout.Sorting.{sort_by}
use flowscape.Layout.Grouping.{Groups, no_groups, classify, ids_of, names_le, name_of}
use flowscape.Layout.Rebuild.{set_targets, platform_for, place_platforms, place_reserved, rebuild}
use flowscape.Layout.Groups.{
  ids, in_groups, grouped, has-sort_by, has-slices, in_groups-sort_by, grouped-nodes,
  grouped-nothing,
}

has-ids :
    (x : String) (m : Dict NodeState)
    → IsKeyed (λ n. n.id) m
    → StringSet.has x (ids (Dict.values m)) ≡ Dict.has x m
unfolding Dict.values Dict.has StringSet.has
has-ids x [] k = refl
has-ids x ((j, n) ∷ m) k = rw k.0 (ap (◌||◌ (j === x)) (has-ids x m k.1))

module _ (N : Numbers) where
  has-set_targets :
      (at : String → ℕ → Vec3 N) (i : ℕ) (xs : List String) (t : Dict (Vec3 N)) (x : String)
      → Dict.has x (set_targets N at i xs t) ≡ StringSet.has x xs || Dict.has x t
  unfolding set_targets StringSet.has
  has-set_targets at i [] t x = refl
  has-set_targets at i (y ∷ xs) t x =
      ground (
        arith,
        has-set_targets at (suc i) xs (Dict.put y (at y i) t) x,
        Dict.has-put y x (at y i) t,
      )

  -- The platforms hold the ids of their groups.
  has-place_platforms :
      (platform : ℕ → String → Platform N) (m : Dict (List String))
      → ((i : ℕ) (g x : String)
          → StringSet.has x (platform i g).nodes ≡ StringSet.has x (ids_of m g))
      → (i : ℕ) (gs : List String) (done : Dict (Platform N) × Dict (Vec3 N)) (x : String)
      → Dict.has x (place_platforms N platform i gs done).1 ≡ in_groups x m gs || Dict.has x done.1
  unfolding place_platforms in_groups
  has-place_platforms platform m same i [] done x = refl
  has-place_platforms platform m same i (g ∷ gs) done x =
      has-place_platforms platform m same (suc i) gs _ x
      ∙ rw has-set_targets (ground (arith, same i g x))

  module _ (le locale_le : String → String → Bool) where
    platform_for-nodes :
        (by : GroupBy) (m : Dict (List String)) (r : N.R) (count i : ℕ) (g x : String)
        → StringSet.has x (platform_for N le by m r count i g).nodes ≡ StringSet.has x (ids_of m g)
    unfolding platform_for
    platform_for-nodes by m r count i g x = has-sort_by le x (ids_of m g)

    has-placed :
        (by : GroupBy) (m : Dict (List String)) (r : N.R) (count : ℕ) (gs : List String)
        (x : String)
        → Dict.has x (place_platforms N (platform_for N le by m r count) 0 gs ([], [])).1
          ≡ in_groups x m gs
    unfolding Dict.has
    has-placed by m r count gs x =
        has-place_platforms (platform_for N le by m r count) m
          (λ i g y. platform_for-nodes by m r count i g y) 0 gs ([], []) x
        ∙ ground arith

    has-place_reserved :
        (nodes : Dict NodeState) (outer : N.R) (max_world : ℕ) (s : Groups) (t : Dict (Vec3 N))
        (x : String)
        → Dict.has x (place_reserved N le locale_le nodes outer max_world s t)
          ≡ StringSet.has x s.reserved
            || StringSet.has x s.machines
            || StringSet.has x s.world
            || Dict.has x t
    unfolding place_reserved
    has-place_reserved nodes outer max_world s t x =
        rw (has-set_targets, has-set_targets, has-set_targets, has-set_targets)
          (ground (
            arith,
            has-slices x max_world (sort_by le s.world),
            has-sort_by le x s.world,
            has-sort_by le x s.reserved,
            has-sort_by (λ a b. locale_le (name_of nodes a) (name_of nodes b)) x s.machines,
          ))

    -- A rebuilt layout has a target for each node of the map, and for nothing else.
    pub rebuild-targets :
        (l : Layout N) (nodes : Dict NodeState) (x : String)
        → IsKeyed (λ n. n.id) nodes
        → Dict.has x (rebuild N le locale_le l nodes).targets ≡ Dict.has x nodes
    unfolding rebuild grouped
    rebuild-targets l nodes x keyed =
        let s = foldl (classify l.group_by) no_groups (Dict.values nodes) in
        let all = grouped-nodes x l.group_by (Dict.values nodes) no_groups in
        rw has-place_reserved (
          rw has-placed (
            ground (
              arith,
              in_groups-sort_by (names_le le) x s.by_group (Dict.keys s.by_group),
              all,
              grouped-nothing x,
              has-ids x nodes keyed,
            )))
