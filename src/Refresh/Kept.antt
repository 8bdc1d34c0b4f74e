-- ===== src/Refresh/Kept.antt =====
-- What the refresh of an arc leaves of the other arcs, and of an arc that it drops.
use mathlib.Core.Option.{some-injective}
use flowscape.Edges.Calls.{set_hidden-IsValid}
use flowscape.Edges.Setters.{set_hidden-slot, set_hidden-free}
use flowscape.Edges.Lookups.{set_rate-full}
use flowscape.Refresh.Drawn.{IsDrawn, refresh_edge-IsDrawn}
use flowscape.Base.{
  Bool, ◌⊎◌, subst, ℕ, String, false, ◌≡◌, ◌≢◌, refl, ◌∙◌, sym, ap, [], none, some, eqb, ◌===◌, inl,
  inr, Bool-cases, Option-cases,
}
use native.Mathlib.Decide.{ℕ_discrete}
use flowscape.Base.Int.{ℤ}
use flowscape.Base.Dict
use flowscape.Base.Doubles.{Double}
use flowscape.Transport.WsClient.{same}
use flowscape.GraphState.Types.{Counts, EdgeState}
use flowscape.Filters.Types.{Filters}
use flowscape.Filters.Operations.{End}
use flowscape.Edges.Types.{EdgeSlot, Edges, batch_of, wanted}
use flowscape.Edges.Operations.{
  vacate, place, occupy, clear, or_dropped, set_rate, set_color, set_hidden, perform,
}
use flowscape.Edges.Ownership.{IsValid}
use flowscape.Edges.Steps.{List-cases}
use flowscape.Refresh.{shown, speed, is_hidden, refresh_edge}

module _ {A : Type 0} (capacity : ℕ) (full : A) (arcs : Edges A) (id x : String)
    (other : (id === x) ≡ false) where
  set_hidden-other :
      (h : _) → Dict.get x (set_hidden capacity full arcs id h).slots ≡ Dict.get x arcs.slots
  unfolding set_hidden
  set_hidden-other h = elim (Option-cases (Dict.get id arcs.slots)) [
    | inl n ↦ rw (n, set_hidden) refl
    | inr (s, n) ↦
        rw (n, set_hidden)
          (elim (Bool-cases (same s.hidden h)) [
            | inl q ↦ rw q refl
            | inr q ↦ rw q (rw (Dict.get-modify, other) refl)
          ])
  ]

  set_color-other :
      (c : Counts) (alpha : A)
      → Dict.get x (set_color capacity full arcs id c alpha).slots ≡ Dict.get x arcs.slots
  unfolding set_color
  set_color-other c alpha = elim (Option-cases (Dict.get id arcs.slots)) [
    | inl n ↦ rw (n, set_color) refl
    | inr (s, n) ↦ rw (n, set_color) (rw (Dict.get-modify, other) refl)
  ]

  vacate-other :
      (s : EdgeSlot A) → Dict.get x (vacate capacity full arcs id s).slots ≡ Dict.get x arcs.slots
  unfolding clear
  vacate-other s = rw (Dict.get-delete, other) refl

  -- A slot found for the id, or not.
  placed-other :
      (s : EdgeSlot A) (rate : Double) (b : ℕ)
      → Dict.get x
          (or_dropped capacity full id s rate arcs (place capacity full arcs id b s.same)).slots
        ≡ Dict.get x arcs.slots
  unfolding place occupy
  placed-other s rate b = elim (List-cases (batch_of arcs b).free) [
    | inl q ↦ rw (q, place) refl
    | inr (i, is, q) ↦ rw (q, place) (rw (Dict.get-modify, other) (rw (Dict.get-put, other) refl))
  ]

module _ {A : Type 0} (capacity : ℕ) (full : A) (arcs : Edges A) (id x : String)
    (other : (id === x) ≡ false) where
  set_rate-other :
      (rate : Double)
      → Dict.get x (set_rate capacity full arcs id rate).slots ≡ Dict.get x arcs.slots
  unfolding set_rate
  set_rate-other rate = elim (Option-cases (Dict.get id arcs.slots)) [
    | inl n ↦ rw (n, set_rate) refl
    | inr (s, n) ↦
        rw (n, set_rate)
          (elim (Bool-cases (eqb (wanted rate) s.batch)) [
            | inl q ↦ rw q (rw (Dict.get-modify, other) refl)
            | inr q ↦ rw q (
                placed-other capacity full (vacate capacity full arcs id s) id x other s rate
                  (wanted rate)
                ∙ vacate-other capacity full arcs id x other s)
          ])
  ]

module _ {A : Type 0} (capacity : ℕ) (full : A) (arcs : Edges A) (id : String)
    (gone : Dict.get id arcs.slots ≡ none) where
  set_hidden-none : (h : Bool) → set_hidden capacity full arcs id h ≡ arcs
  unfolding set_hidden
  set_hidden-none h = rw (gone, set_hidden) refl

  set_rate-none : (rate : Double) → set_rate capacity full arcs id rate ≡ arcs
  unfolding set_rate
  set_rate-none rate = rw (gone, set_rate) refl

  set_color-none : (c : Counts) (alpha : A) → set_color capacity full arcs id c alpha ≡ arcs
  unfolding set_color
  set_color-none c alpha = rw (gone, set_color) refl

module _ {A : Type 0} (capacity : ℕ) (full : A) (end_of : String → End) (alpha : EdgeState → A)
    (retention : ℕ) (f : Filters) (sec : ℤ) (arcs : Edges A) (e : EdgeState) where
  abbrev after : Edges A
  after = refresh_edge capacity full end_of alpha retention f sec arcs e

  -- The refresh of an edge leaves the other arcs as they are.
  pub refresh_edge-other :
      (x : String) → (e.id === x) ≡ false → Dict.get x after.slots ≡ Dict.get x arcs.slots
  unfolding refresh_edge perform
  refresh_edge-other x other =
      set_color-other capacity full _ e.id x other _ _
      ∙ set_rate-other capacity full _ e.id x other _
      ∙ set_hidden-other capacity full arcs e.id x other _

  absent : Dict.get e.id arcs.slots ≡ none → Dict.get e.id after.slots ≡ none
  unfolding refresh_edge perform
  absent gone =
      let h = is_hidden end_of retention f sec e in
      let r = speed retention f sec e in
      let c = shown retention f sec e in
      ap
        (λ a.
          Dict.get e.id
            (set_color capacity full (set_rate capacity full a e.id r) e.id c (alpha e)).slots)
        (set_hidden-none capacity full arcs e.id gone h)
      ∙ ap (λ a. Dict.get e.id (set_color capacity full a e.id c (alpha e)).slots)
          (set_rate-none capacity full arcs e.id gone r)
      ∙ ap (λ a. Dict.get e.id a.slots) (set_color-none capacity full arcs e.id gone c (alpha e))
      ∙ gone

  module _ (v : IsValid capacity arcs) where
    dropped :
        (slot : EdgeSlot A)
        → Dict.get e.id arcs.slots ≡ some slot
        → wanted (speed retention f sec e) ≢ slot.batch
        → (batch_of arcs (wanted (speed retention f sec e))).free ≡ []
        → Dict.get e.id after.slots ≡ none
    unfolding refresh_edge perform
    dropped slot there moves empty =
        let h = is_hidden end_of retention f sec e in
        let r = speed retention f sec e in
        let c = shown retention f sec e in
        let arcs1 = set_hidden capacity full arcs e.id h in
        let v1 = set_hidden-IsValid capacity full arcs e.id h v in
        let (s1, found1, hidden1, batch1) =
          set_hidden-slot capacity full arcs v e.id slot there h in
        let gone =
          set_rate-full capacity full arcs1 v1 e.id s1 found1 r (λ p. moves (p ∙ batch1))
            (set_hidden-free capacity full arcs v e.id slot there h (wanted r) ∙ empty) in
        ap (λ a. Dict.get e.id a.slots)
          (set_color-none capacity full (set_rate capacity full arcs1 e.id r) e.id gone c (alpha e))
        ∙ gone

    -- An arc that has a slot after the refresh of its edge is drawn as the edge calls for.
    pub kept-IsDrawn :
        (s : EdgeSlot A)
        → Dict.get e.id after.slots ≡ some s
        → IsDrawn end_of alpha retention f sec e s
    kept-IsDrawn s found = elim (Option-cases (Dict.get e.id arcs.slots)) [
      | inl n ↦ let k = sym (absent n) ∙ found in absurd (cc)
      | inr (slot, there) ↦ elim (ℕ_discrete (wanted (speed retention f sec e)) slot.batch) [
        | yes stays ↦ drawn slot there (inl stays)
        | no moves ↦ elim (List-cases (batch_of arcs (wanted (speed retention f sec e))).free) [
          | inl empty ↦ let k = sym (dropped slot there moves empty) ∙ found in absurd (cc)
          | inr (i, is, q) ↦ drawn slot there (inr (λ empty. let k = sym q ∙ empty in absurd (cc)))
        ]
      ]
    ]
      where
        drawn :
            (slot : EdgeSlot A)
            → Dict.get e.id arcs.slots ≡ some slot
            → let width = wanted (speed retention f sec e) in
              (width ≡ slot.batch) ⊎ ((batch_of arcs width).free ≢ [])
              → IsDrawn end_of alpha retention f sec e s
        drawn slot there room =
            let (t, found', k) =
              refresh_edge-IsDrawn capacity full end_of alpha retention f sec arcs v e slot there
                room in
            subst (IsDrawn end_of alpha retention f sec e) (some-injective t s (sym found' ∙ found))
              k
