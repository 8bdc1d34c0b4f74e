-- ===== src/Layout/Rebuild.antt =====
-- `rebuild` and `control` of web/src/layout.ts. `le` is the order of texts by which `sort` compares,
-- `locale_le` the one of `localeCompare`.
use flowscape.Base.{
  ℕ, suc, ◌-◌, ◌%◌, String, Bool, List, [], ◌∷◌, foldl, map, length, take, eqb, ◌===◌,
  if◌then◌else◌,
}
use flowscape.Base.Dict
use flowscape.Base.Dict.{Dict}
use flowscape.Base.Numbers.{Numbers, Vec3}
use flowscape.GraphState.Types.{NodeState}
use flowscape.Filters.Types.{GroupBy}
use flowscape.Layout.Types.{Platform, Layout}
use flowscape.Layout.Sorting.{sort_by}
use flowscape.Layout.Grouping.{
  Groups, no_groups, classify, names_le, drop, index_of, ids_of, kind_of, name_of,
}

module _ (N : Numbers) where
  -- `m / n`, for a literal.
  abbrev lit : ℕ → ℕ → N.R
  lit m n = N.over (N.of m) (N.of n)

  abbrev two_pi : N.R
  two_pi = N.times N.pi (N.of 2)

  -- `Math.PI * (3 - Math.sqrt(5))`
  abbrev golden : N.R
  golden = N.times N.pi (N.minus (N.of 3) (N.sqrt (N.of 5)))

  -- A point on a circle around the origin.
  abbrev pub on_circle : N.R → N.R → N.R → Vec3 N
  on_circle angle r y = record { x = N.times (N.cos angle) r; y = y; z = N.times (N.sin angle) r }

  -- `2.2 + 0.7 * Math.sqrt(size)`
  abbrev pub platform_radius : List String → N.R
  platform_radius ids = N.plus (lit 22 10) (N.times (lit 7 10) (N.sqrt (N.of (length ids))))

  abbrev pub sum : List N.R → N.R → N.R
  sum [] acc = acc
  sum (r ∷ rs) acc = sum rs (N.plus acc r)

  -- `Math.max(10, (sumRadius * 2 * 1.6) / (2 * Math.PI), 3.5 * count)`
  abbrev pub ring : List N.R → ℕ → N.R
  ring radii count =
      N.most
        (N.most (N.of 10) (
          N.over (N.times (N.times (sum radii (N.of 0)) (N.of 2)) (lit 16 10))
            (N.times (N.of 2) N.pi)))
        (N.times (lit 35 10) (N.of count))

  -- `(i / Math.max(count, 1)) * Math.PI * 2 + Math.PI / count`
  abbrev pub platform_angle : ℕ → ℕ → N.R
  platform_angle i count =
      N.plus
        (N.times (N.times (N.over (N.of i) (N.of (if eqb count 0 then 1 else count))) N.pi)
          (N.of 2))
        (N.over N.pi (N.of count))

  -- A workload on the spiral of its platform: number `k` of `n`.
  abbrev pub workload_target : Vec3 N → N.R → N.R → ℕ → ℕ → Vec3 N
  workload_target center radius angle n k =
      let rr : N.R =
        if eqb n 1
        then N.of 0
        else N.times (N.minus radius (lit 6 10))
            (N.sqrt (N.over (N.plus (N.of k) (lit 5 10)) (N.of n))) in
      let th : N.R = N.plus (N.times (N.of k) golden) angle in
      record {
        x = N.plus center.x (N.times (N.cos th) rr);
        y = lit 18 100;
        z = N.plus center.z (N.times (N.sin th) rr);
      }

  -- `reservedAngles[kind] ?? Math.PI + reserved.indexOf(id) * 0.5`
  abbrev pub reserved_angle : String → ℕ → N.R
  reserved_angle kind index =
      if kind === "world"
      then N.over N.pi (N.of 2)
      else (if kind === "ingress"
          then N.minus (N.over N.pi (N.of 2)) (lit 6 10)
          else (if kind === "kube-apiserver"
              then N.over (N.neg N.pi) (N.of 2)
              else N.plus N.pi (N.times (N.of index) (lit 5 10))))

  -- Machine number `i` of `n`.
  abbrev pub machine_target : N.R → ℕ → ℕ → Vec3 N
  machine_target outer n i =
      let spread = N.least (lit 22 10) (N.times (lit 32 100) (N.of n)) in
      let t : N.R = if eqb n 1 then lit 5 10 else N.over (N.of i) (N.of (n - 1)) in
      let side : N.R = if N.below t (lit 5 10) then N.neg (N.of 1) else N.of 1 in
      let angle =
        N.plus (N.over (N.neg N.pi) (N.of 2))
          (N.times side (N.plus (lit 45 100) (N.times (N.abs (N.minus t (lit 5 10))) spread))) in
      on_circle angle (N.plus outer (lit 15 10)) (lit 6 10)

  -- World entity number `i` of the `n` that are shown.
  abbrev pub world_target : N.R → ℕ → ℕ → Vec3 N
  world_target outer n i =
      let spread = N.least (lit 24 10) (N.times (lit 22 100) (N.of n)) in
      let t : N.R =
        if eqb n 1 then N.of 0 else N.minus (N.over (N.of i) (N.of (n - 1))) (lit 5 10) in
      let angle = N.plus (N.over N.pi (N.of 2)) (N.times t spread) in
      let r = N.plus (N.plus outer (lit 25 10)) (N.times (N.of (i % 3)) (N.of 2)) in
      on_circle angle r (N.plus (lit 6 10) (N.times (N.of (i % 2)) (lit 8 10)))

  -- `xs.forEach((id, i) => this.targets.set(id, at(id, i)))`, from number `i` on.
  unfoldable pub set_targets :
      (String → ℕ → Vec3 N) → ℕ → List String → Dict (Vec3 N) → Dict (Vec3 N)
  set_targets at i [] targets = targets
  set_targets at i (id ∷ ids) targets = set_targets at (suc i) ids (Dict.put id (at id i) targets)

  -- The body of the loop over the names: platform number `i` of `count`.
  unfoldable pub platform_for :
      (String → String → Bool) → GroupBy → Dict (List String) → N.R → ℕ → ℕ → String → Platform N
  platform_for le by m ring_radius count i g =
      let angle = platform_angle i count in
      record {
        group = g;
        kind = by;
        center = on_circle angle ring_radius (N.of 0);
        radius = platform_radius (ids_of m g);
        angle = angle;
        nodes = sort_by le (ids_of m g);
      }

  unfoldable pub place_platforms :
      (ℕ → String → Platform N)
      → ℕ
      → List String
      → Dict (Platform N) × Dict (Vec3 N)
      → Dict (Platform N) × Dict (Vec3 N)
  place_platforms platform i [] done = done
  place_platforms platform i (g ∷ names) (platforms, targets) =
      let p = platform i g in
      place_platforms platform (suc i) names (
        Dict.put g p platforms,
        set_targets (λ id k. workload_target p.center p.radius p.angle (length p.nodes) k) 0 p.nodes
            targets,
      )

  module _ (le locale_le : String → String → Bool) where
    -- The targets of the reserved entities, beside those of the workloads.
    unfoldable pub place_reserved :
        Dict NodeState → N.R → ℕ → Groups → Dict (Vec3 N) → Dict (Vec3 N)
    place_reserved nodes outer max_world s targets =
        let reserved = sort_by le s.reserved in
        let machines = sort_by (λ a b. locale_le (name_of nodes a) (name_of nodes b)) s.machines in
        let world = sort_by le s.world in
        let shown = take max_world world in
        let others =
          set_targets
            (λ id i.
              on_circle (reserved_angle (kind_of nodes id) (index_of id reserved)) outer (lit 6 10))
            0 reserved targets in
        let fan =
          set_targets (λ id i. machine_target outer (length machines) i) 0 machines others in
        let front = set_targets (λ id i. world_target outer (length shown) i) 0 shown fan in
        set_targets (λ id i. record { x = N.of 0; y = lit 6 10; z = N.plus outer (N.of 6) }) 0
          (drop max_world world) front

    unfoldable pub rebuild : Layout N → Dict NodeState → Layout N
    rebuild l nodes =
        let s = foldl (classify l.group_by) no_groups (Dict.values nodes) in
        let names = sort_by (names_le le) (Dict.keys s.by_group) in
        let count = length names in
        let ring_radius = ring (map (λ g. platform_radius (ids_of s.by_group g)) names) count in
        let outer_radius = N.plus ring_radius (N.of 9) in
        let placed =
          place_platforms (platform_for le l.group_by s.by_group ring_radius count) 0 names
            ([], []) in
        record l {
          platforms = placed.0;
          targets = place_reserved nodes outer_radius l.max_world s placed.1;
          ring_radius = ring_radius;
          outer_radius = outer_radius;
        }

  -- The control point of an arc: across platforms it lifts with the distance.
  unfoldable pub control : Vec3 N → Vec3 N → Bool → Vec3 N
  control a b same_platform =
      let dist = N.hypot (N.minus b.x a.x) (N.minus b.z a.z) in
      let lift : N.R =
        if same_platform
        then N.plus (lit 35 100) (N.times dist (lit 15 100))
        else N.plus (N.of 2) (N.times dist (lit 16 100)) in
      record {
        x = N.over (N.plus a.x b.x) (N.of 2);
        y = N.plus (N.over (N.plus a.y b.y) (N.of 2)) lift;
        z = N.over (N.plus a.z b.z) (N.of 2);
      }
