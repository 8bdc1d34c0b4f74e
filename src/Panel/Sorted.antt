-- ===== src/Panel/Sorted.antt =====
-- The rows are the edges of the node, with the most events per second first.
use mathlib.Core.List.{Perm}
use mathlib.Core.List.Perm
use flowscape.Base.{
  ℕ, ◌≤◌, String, Bool, ◌≡◌, refl, ◌∙◌, sym, ap, Option, none, some, subst, List, [], ◌∷◌, map, leb,
  arith, Bool-cases, Option-cases, inl, inr, if◌then◌else◌,
}
use flowscape.Base.Int.{ℤ}
use flowscape.Base.Dict
use flowscape.Base.Doubles.{quotient, sum}
use flowscape.GraphState.Types.{NodeState, EdgeState, GraphState}
use flowscape.GraphState.Ring.{rate}
use flowscape.Layout.Sorting.{insert, sort_by}
use flowscape.Panel.Rows.{Row, rows_of, edge_list}

module _ {A : Type 0} (weight : A → ℕ) where
  AtMost : ℕ → List A → Type 0
  AtMost k [] = Unit {0}
  AtMost k (x ∷ xs) = (weight x ≤ k) × AtMost k xs

  -- The heaviest first.
  unfoldable pub IsDescending : List A → Type 0
  unfolding AtMost
  IsDescending [] = Unit {0}
  IsDescending (x ∷ xs) = AtMost (weight x) xs × IsDescending xs

  abbrev heavier : A → A → Bool
  heavier a b = leb (weight b) (weight a)

  AtMost-le : (k l : ℕ) (xs : List A) → k ≤ l → AtMost k xs → AtMost l xs
  unfolding AtMost
  AtMost-le k l [] h m = tt
  AtMost-le k l (x ∷ xs) h (first, rest) = (omega arith, AtMost-le k l xs h rest)

  AtMost-insert :
      (k : ℕ) (x : A) (xs : List A) → weight x ≤ k → AtMost k xs → AtMost k (insert heavier x xs)
  unfolding AtMost insert
  AtMost-insert k x [] h m = (h, tt)
  AtMost-insert k x (y ∷ ys) h (first, rest) = elim (Bool-cases (heavier x y)) [
    | inl q ↦ rw q (h, (first, rest))
    | inr q ↦ rw q (first, AtMost-insert k x ys h rest)
  ]

  insert-IsDescending : (x : A) (xs : List A) → IsDescending xs → IsDescending (insert heavier x xs)
  unfolding IsDescending insert AtMost
  insert-IsDescending x [] d = (tt, tt)
  insert-IsDescending x (y ∷ ys) (most, d) = elim (Bool-cases (heavier x y)) [
    | inl q ↦
        let less : weight y ≤ weight x = ground arith in
        rw q ((less, AtMost-le (weight y) (weight x) ys less most), (most, d))
    | inr q ↦
        let more : weight x ≤ weight y = ground arith in
        rw q (AtMost-insert (weight y) x ys more most, insert-IsDescending x ys d)
  ]

  pub sort_by-IsDescending : (xs : List A) → IsDescending (sort_by heavier xs)
  unfolding IsDescending sort_by
  sort_by-IsDescending [] = tt
  sort_by-IsDescending (x ∷ xs) =
      insert-IsDescending x (sort_by heavier xs) (sort_by-IsDescending xs)

module _ {A : Type 0} (le : A → A → Bool) where
  insert-perm : (x : A) (xs : List A) → Perm (insert le x xs) (x ∷ xs)
  unfolding insert
  insert-perm x [] = Perm.rfl
  insert-perm x (y ∷ ys) = elim (Bool-cases (le x y)) [
    | inl q ↦ rw q Perm.rfl
    | inr q ↦ rw q (Perm.trans (Perm.cons y (insert-perm x ys)) (Perm.swap x y ys))
  ]

  pub sort_by-perm : (xs : List A) → Perm (sort_by le xs) xs
  unfolding sort_by
  sort_by-perm [] = Perm.rfl
  sort_by-perm (x ∷ xs) = Perm.trans (insert-perm x (sort_by le xs)) (Perm.cons x (sort_by-perm xs))

-- The ids of a list that the graph has an edge for.
abbrev pub live_edges : GraphState → List String → List String
live_edges g [] = []
live_edges g (id ∷ ids) =
    let rest = live_edges g ids in if Dict.has id g.edges then id ∷ rest else rest

module _ (g : GraphState) (n : NodeState) (now_sec : ℤ) (window_sec : ℕ) where
  rows_of-ids :
      (ids : List String) → map (λ r. r.id) (rows_of g n now_sec window_sec ids) ≡ live_edges g ids
  unfolding rows_of
  rows_of-ids [] = refl
  rows_of-ids (id ∷ ids) = elim (Option-cases (Dict.get id g.edges)) [
    | inl k ↦
        let gone = Dict.has-get id g.edges ∙ ap Dict.is_some k in rw (k, gone) (rows_of-ids ids)
    | inr (e, k) ↦
        let there = Dict.has-get id g.edges ∙ ap Dict.is_some k in
        rw (k, there) (ap (◌∷◌ id) (rows_of-ids ids))
  ]

  -- The events per second of the edge with an id, in the units of a double.
  abbrev pub pace_of : Option EdgeState → ℕ
  pace_of none = 0
  pace_of (some e) =
      let r = rate g.retention e window_sec now_sec in
      (sum
        (sum (sum (quotient r.events.f r.per) (quotient r.events.d r.per))
          (quotient r.events.a r.per))
        (quotient r.events.e r.per)).units

  abbrev pub pace : String → ℕ
  pace id = pace_of (Dict.get id g.edges)

  AtPace : List Row → Type 0
  AtPace [] = Unit {0}
  AtPace (r ∷ rows) = (r.rate.units ≡ pace r.id) × AtPace rows

  rows_of-AtPace : (ids : List String) → AtPace (rows_of g n now_sec window_sec ids)
  unfolding rows_of AtPace
  rows_of-AtPace [] = tt
  rows_of-AtPace (id ∷ ids) = elim (Option-cases (Dict.get id g.edges)) [
    | inl k ↦ rw k (rows_of-AtPace ids)
    | inr (e, k) ↦ rw k (sym (ap pace_of k), rows_of-AtPace ids)
  ]

  insert-AtPace :
      (le : Row → Row → Bool) (r : Row) (rows : List Row)
      → r.rate.units ≡ pace r.id
      → AtPace rows
      → AtPace (insert le r rows)
  unfolding AtPace insert
  insert-AtPace le r [] h all = (h, tt)
  insert-AtPace le r (s ∷ rows) h all = elim (Bool-cases (le r s)) [
    | inl q ↦ rw q (h, all)
    | inr q ↦ rw q (all.0, insert-AtPace le r rows h all.1)
  ]

  sort_by-AtPace :
      (le : Row → Row → Bool) (rows : List Row) → AtPace rows → AtPace (sort_by le rows)
  unfolding AtPace sort_by
  sort_by-AtPace le [] all = tt
  sort_by-AtPace le (r ∷ rows) all =
      insert-AtPace le r (sort_by le rows) all.0 (sort_by-AtPace le rows all.1)

  AtMost-pace :
      (k : ℕ) (rows : List Row)
      → AtPace rows
      → AtMost (λ r. r.rate.units) k rows
      → AtMost pace k (map (λ r. r.id) rows)
  unfolding AtPace AtMost
  AtMost-pace k [] all most = tt
  AtMost-pace k (r ∷ rows) all most =
      (subst (λ u. u ≤ k) all.0 most.0, AtMost-pace k rows all.1 most.1)

  IsDescending-pace :
      (rows : List Row)
      → AtPace rows
      → IsDescending (λ r. r.rate.units) rows
      → IsDescending pace (map (λ r. r.id) rows)
  unfolding AtPace IsDescending
  IsDescending-pace [] all d = tt
  IsDescending-pace (r ∷ rows) all d = (
    AtMost-pace (pace r.id) rows all.1 (subst (λ u. AtMost (λ r. r.rate.units) u rows) all.0 d.0),
    IsDescending-pace rows all.1 d.1,
  )

  -- The panel of a node lists each of its edges that the graph has, once, and nothing else, and the
  -- ones with the most events per second in the window first.
  pub edge_list-ids :
      Perm (map (λ r. r.id) (edge_list g n now_sec window_sec)) (live_edges g n.edges)
      × IsDescending pace (map (λ r. r.id) (edge_list g n now_sec window_sec))
  unfolding edge_list
  edge_list-ids =
      let rows = rows_of g n now_sec window_sec n.edges in
      let heavy : Row → Row → Bool = λ a b. leb b.rate.units a.rate.units in
      (
        subst (Perm (map (λ r. r.id) (edge_list g n now_sec window_sec))) (rows_of-ids n.edges)
            (Perm.map (λ r. r.id) (sort_by-perm heavy rows)),
        IsDescending-pace (sort_by heavy rows) (sort_by-AtPace heavy rows (rows_of-AtPace n.edges))
            (sort_by-IsDescending (λ r. r.rate.units) rows),
      )
