-- ===== src/Frames/ArcIds.antt =====
-- Which arcs are on the screen after the loops of `applyChanges` in web/src/main.ts.
use flowscape.Base.{
  ℕ, suc, ◌<◌, ◌≤◌, String, Bool, true, false, not, ◌&&◌, ◌||◌, ◌≡◌, refl, ◌∙◌, sym, subst, ap,
  List, [], ◌∷◌, foldl, foldl_keeps, Option, none, some, length, get_or-set, arith, ◌===◌, ===_iff,
  inl, inr, Bool-cases, Option-cases, if◌then◌else◌,
}
use flowscape.Base.Dict
use flowscape.Base.Dict.{Dict}
use flowscape.Base.Keyed.{IsKeyed, id-get}
use flowscape.Base.StringSet
use flowscape.Base.StringSet.{StringSet}
use flowscape.GraphState.Types.{Changes, EdgeState, GraphState}
use flowscape.Edges.Types.{Edges, batch_of, no_batch}
use flowscape.Edges.Operations.{remove, clear, add, occupy, place}
use flowscape.Edges.Ownership.{IsValid}
use flowscape.Edges.Steps.{List-cases, remove-IsValid, add-IsValid}
use flowscape.Frames.Operations.{drop_edges, take_edge, add_edge}

module _ {A : Type 0} (capacity : ℕ) (full : A) where
  -- The arcs that are on the screen.
  abbrev pub on : Edges A → String → Bool
  on e x = Dict.has x e.slots

  on-remove :
      (e : Edges A) (id x : String)
      → on (remove capacity full e id) x ≡ (if id === x then false else on e x)
  unfolding remove clear
  on-remove e id x = elim (Option-cases (Dict.get id e.slots)) [
    | inl n ↦
        let gone = Dict.has-get id e.slots ∙ ap Dict.is_some n in
        rw (n, remove) (ground (arith, ===_iff id x, Dict.has-same id x e.slots))
    | inr (s, n) ↦ rw (n, remove) (Dict.has-delete id x e.slots)
  ]

  on-removes :
      (ids : List String) (e : Edges A) (x : String)
      → on (foldl (remove capacity full) e ids) x ≡ on e x && not (StringSet.has x ids)
  unfolding StringSet.has
  on-removes [] e x = ground arith
  on-removes (id ∷ ids) e x =
      ground (arith, on-removes ids (remove capacity full e id) x, on-remove e id x)

  pub on-drop_edges :
      (c : Changes) (e : Edges A) (x : String)
      → on (drop_edges capacity full c e) x ≡ on e x && not (StringSet.has x c.removed_edges)
  unfolding drop_edges
  on-drop_edges c e x = elim (Bool-cases c.reset) [
    | inl q ↦ rw q (
        ground (
          arith,
          on-removes c.removed_edges (foldl (remove capacity full) e c.removed_edges) x,
          on-removes c.removed_edges e x,
        ))
    | inr q ↦ rw q (on-removes c.removed_edges e x)
  ]

  removes-IsValid :
      (ids : List String) (e : Edges A)
      → IsValid capacity e
      → IsValid capacity (foldl (remove capacity full) e ids)
  removes-IsValid ids e v =
      foldl_keeps (IsValid capacity) (remove capacity full)
        (λ e' id k. remove-IsValid capacity full e' k id) ids e v

  -- A new arc, where there is room.
  module _ (e : Edges A) (s : EdgeState) (same : Bool) where
    add-placed :
        (i : ℕ) (is : List ℕ)
        → Dict.has s.id e.slots ≡ false
        → (batch_of e 0).free ≡ i ∷ is
        → add capacity full e s same ≡ occupy capacity full e s.id 0 same i is
    unfolding add place
    add-placed i is new top = rw new (rw (top, place) refl)

    add-there : Dict.has s.id e.slots ≡ true → add capacity full e s same ≡ e
    unfolding add
    add-there q = rw q refl

    on-add :
        (x : String)
        → 0 < length (batch_of e 0).free
        → on (add capacity full e s same) x ≡ (s.id === x) || on e x
    unfolding occupy
    on-add x room = elim (Bool-cases (Dict.has s.id e.slots)) [
      | inl q ↦ ap (λ e'. on e' x) (add-there q) ∙ ground (arith, Dict.has-same s.id x e.slots)
      | inr q ↦ elim (List-cases (batch_of e 0).free) [
        | inl empty ↦ absurd (omega (arith, ap length empty))
        | inr (i, is, top) ↦
            ap (λ e'. on e' x) (add-placed i is q top) ∙ Dict.has-put s.id x _ e.slots
      ]
    ]

    -- It takes one slot at most.
    free-add :
        IsValid capacity e
        → length (batch_of e 0).free ≤ suc (length (batch_of (add capacity full e s same) 0).free)
    unfolding occupy
    free-add v = elim (Bool-cases (Dict.has s.id e.slots)) [
      | inl q ↦ rw (add-there q) (omega arith)
      | inr q ↦ elim (List-cases (batch_of e 0).free) [
        | inl empty ↦ omega (arith, ap length empty)
        | inr (i, is, top) ↦
            let k : (batch_of (occupy capacity full e s.id 0 same i is) 0).free ≡ is =
              ap (λ b. b.free)
                (get_or-set e.batches 0 0 _ no_batch (omega (arith, v.batches_size))) in
            rw (add-placed i is q top, k) (omega (arith, ap length top))
      ]
    ]

  take_edge-get :
      (g : GraphState) (same : String → String → Bool) (e : Edges A) (id : String)
      (found : Option EdgeState)
      → Dict.get id g.edges ≡ found
      → take_edge capacity full g same e id ≡ add_edge capacity full same e found
  unfolding take_edge
  take_edge-get g same e id found n = ap (add_edge capacity full same e) n

  -- The loop over the added edges takes up those that the graph has.
  pub on-take_edges :
      (g : GraphState) (same : String → String → Bool)
      → IsKeyed (λ s. s.id) g.edges
      → (ids : List String) (e : Edges A) (x : String) → IsValid capacity e
      → length ids ≤ length (batch_of e 0).free
      → on (foldl (take_edge capacity full g same) e ids) x
        ≡ (StringSet.has x ids && Dict.has x g.edges) || on e x
  unfolding StringSet.has
  on-take_edges g same keyed [] e x v room = refl
  on-take_edges g same keyed (id ∷ ids) e x v room = elim (Option-cases (Dict.get id g.edges)) [
    | inl n ↦
        let gone = Dict.has-get id g.edges ∙ ap Dict.is_some n in
        ap (λ e'. on (foldl (take_edge capacity full g same) e' ids) x)
          (take_edge-get g same e id none n)
        ∙ ground
            (arith, on-take_edges g same keyed ids e x v (omega arith), Dict.has-same id x g.edges)
    | inr (s, n) ↦
        let there = Dict.has-get id g.edges ∙ ap Dict.is_some n in
        let named = id-get (λ t. t.id) id s g.edges keyed n in
        let low = same s.src s.dst in
        let new : on (add capacity full e s low) x ≡ (id === x) || on e x =
          on-add e s low x (omega arith) ∙ ap (λ i. (i === x) || on e x) named in
        ap (λ e'. on (foldl (take_edge capacity full g same) e' ids) x)
          (take_edge-get g same e id (some s) n)
        ∙ ground (
          arith,
          on-take_edges g same keyed ids (add capacity full e s low) x
              (add-IsValid capacity full e v s low) (omega (arith, free-add e s low v)),
          new,
          Dict.has-same id x g.edges,
        )
  ]

  pub take_edges-IsValid :
      (g : GraphState) (same : String → String → Bool) (ids : List String) (e : Edges A)
      → IsValid capacity e
      → IsValid capacity (foldl (take_edge capacity full g same) e ids)
  take_edges-IsValid g same ids e v =
      foldl_keeps (IsValid capacity) (take_edge capacity full g same)
        (λ e' id k. elim (Option-cases (Dict.get id g.edges)) [
          | inl n ↦ subst (IsValid capacity) (sym (take_edge-get g same e' id none n)) k
          | inr (s, n) ↦
              subst (IsValid capacity) (sym (take_edge-get g same e' id (some s) n))
                (add-IsValid capacity full e' k s (same s.src s.dst))
        ])
        ids e v

  pub drop_edges-IsValid :
      (c : Changes) (e : Edges A)
      → IsValid capacity e
      → IsValid capacity (drop_edges capacity full c e)
  unfolding drop_edges
  drop_edges-IsValid c e v = elim (Bool-cases c.reset) [
    | inl q ↦ rw q (removes-IsValid c.removed_edges _ (removes-IsValid c.removed_edges e v))
    | inr q ↦ rw q (removes-IsValid c.removed_edges e v)
  ]
