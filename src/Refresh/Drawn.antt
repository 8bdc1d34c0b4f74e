-- ===== src/Refresh/Drawn.antt =====
-- How an arc is drawn after its rates were refreshed.
use flowscape.Base.{
  ℕ, ◌*◌, ◌<◌, ◌≤◌, String, false, ltb, Bool-cases, subst, arith, if◌then◌else◌, ◌↔◌, ◌≡◌, ◌≢◌, ◌⊎◌,
  ◌∙◌, sym, [], ◌∷◌, some, inl, inr, foldl_keeps,
}
use flowscape.Base.Int.{ℤ}
use flowscape.Base.Dict
use flowscape.Base.Doubles.{Double, one, sum, quotient}
use flowscape.GraphState.Types.{Counts, EdgeState}
use flowscape.GraphState.Ring.{rate}
use flowscape.Filters.Visible.{IsVisible, edge_hidden-IsVisible}
use flowscape.Filters.Types.{Filters}
use flowscape.Filters.Operations.{End}
use flowscape.Edges.Types.{EdgeSlot, Edges, batch_of, wanted, hides, rates, colours}
use flowscape.Edges.Operations.{perform, set_hidden, set_rate}
use flowscape.Edges.Ownership.{IsValid}
use flowscape.Edges.Calls.{set_hidden-IsValid, perform-IsValid}
use flowscape.Edges.Steps.{set_rate-IsValid}
use flowscape.Edges.Setters.{set_hidden-slot, set_hidden-free, set_rate-slot, set_color-slot}
use flowscape.Refresh.{shown, speed, is_hidden, refresh_edge}

pub refresh_edge-IsValid :
    {A : Type 0} (capacity : ℕ) (full : A) (end_of : String → End) (alpha : EdgeState → A)
    (retention : ℕ) (f : Filters) (sec : ℤ) (arcs : Edges A) (e : EdgeState)
    → IsValid capacity arcs
    → IsValid capacity (refresh_edge capacity full end_of alpha retention f sec arcs e)
unfolding refresh_edge
refresh_edge-IsValid capacity full end_of alpha retention f sec arcs e v =
    foldl_keeps (IsValid capacity) (perform capacity full) (perform-IsValid capacity full)
      (hides e.id (is_hidden end_of retention f sec e)
        ∷ rates e.id (speed retention f sec e)
        ∷ colours e.id (shown retention f sec e) (alpha e)
        ∷ [])
      arcs v

-- The batch of a rate: below one event per second, from one to twenty, and from twenty on.
unfoldable pub IsWide : ℕ → Double → Type 0
IsWide b r =
    ((b ≡ 0) × (r.units < one))
    ⊎ ((b ≡ 1) × (one ≤ r.units) × (r.units < 20 * one))
    ⊎ ((b ≡ 2) × (one ≤ r.units) × (20 * one ≤ r.units))

wanted-IsWide : (r : Double) → IsWide (wanted r) r
unfolding IsWide
wanted-IsWide r = elim (Bool-cases (ltb r.units one)) [
  | inl p ↦ inl (ground arith, ground arith)
  | inr p ↦ elim (Bool-cases (ltb r.units (20 * one))) [
    | inl q ↦ inr (inl (ground arith, ground arith, ground arith))
    | inr q ↦ inr (inr (ground arith, ground arith, ground arith))
  ]
]

-- The events of the window whose verdict is shown.
abbrev pub shown_of : Filters → Counts → Counts
shown_of f c = record {
  f = if f.verdicts.f then c.f else 0;
  d = if f.verdicts.d then c.d else 0;
  a = if f.verdicts.a then c.a else 0;
  e = if f.verdicts.e then c.e else 0;
}

-- Each verdict's events by the seconds, added in the order of the verdicts.
abbrev pub added : Counts → ℕ → Double
added c per =
    sum (sum (sum (quotient c.f per) (quotient c.d per)) (quotient c.a per)) (quotient c.e per)

-- What the slot of an arc has after the refresh of its edge: the rate of the window's events whose
-- verdicts are shown, and the batch for that rate; it is drawn exactly when no filter hides it and such
-- an event is in the window, and it is coloured by these events.
pub record IsDrawn {A : Type 0} (end_of : String → End) (alpha : EdgeState → A) (retention : ℕ)
    (f : Filters) (sec : ℤ) (e : EdgeState) (s : EdgeSlot A) : Type 0 where
  pub pace : let r = rate retention e f.window_sec sec in s.rate ≡ added (shown_of f r.events) r.per
  pub wide : IsWide s.batch s.rate
  pub visible :
      (s.hidden ≡ false)
      ↔ IsVisible f (end_of e.src) (end_of e.dst) e.proto (rate retention e f.window_sec sec).events
  pub tinted : s.colour ≡ some (shown_of f (rate retention e f.window_sec sec).events)
  pub opacity : s.alpha ≡ alpha e

module _ {A : Type 0} (capacity : ℕ) (full : A) (end_of : String → End) (alpha : EdgeState → A)
    (retention : ℕ) (f : Filters) (sec : ℤ) (arcs : Edges A) (v : IsValid capacity arcs)
    (e : EdgeState) (slot : EdgeSlot A) (there : Dict.get e.id arcs.slots ≡ some slot) where
  -- An arc that has a slot, and that is in the batch that its rate wants or finds a free slot there,
  -- has after the refresh a slot in the batch for its rate, which is that of the window's events whose
  -- verdicts are shown; it is drawn exactly when no filter hides it and such an event is in the
  -- window, is coloured by these events, and has its opacity.
  pub refresh_edge-IsDrawn :
      let width = wanted (speed retention f sec e) in
      (width ≡ slot.batch) ⊎ ((batch_of arcs width).free ≢ [])
      → (s : EdgeSlot A) × (Dict.get e.id
            (refresh_edge capacity full end_of alpha retention f sec arcs e).slots
          ≡ some s)
        × IsDrawn end_of alpha retention f sec e s
  unfolding refresh_edge perform
  refresh_edge-IsDrawn room =
      let h = is_hidden end_of retention f sec e in
      let r = speed retention f sec e in
      let c = shown retention f sec e in
      let arcs1 = set_hidden capacity full arcs e.id h in
      let v1 = set_hidden-IsValid capacity full arcs e.id h v in
      let (s1, found1, hidden1, batch1) = set_hidden-slot capacity full arcs v e.id slot there h in
      let room1 : (wanted r ≡ s1.batch) ⊎ ((batch_of arcs1 (wanted r)).free ≢ []) = elim room [
        | inl stays ↦ inl (stays ∙ sym batch1)
        | inr free ↦ inr (λ empty.
            free (sym (set_hidden-free capacity full arcs v e.id slot there h (wanted r)) ∙ empty))
      ] in
      let (s2, found2, batch2, hidden2, rate2) =
        set_rate-slot capacity full arcs1 v1 e.id s1 found1 r room1 in
      let arcs2 = set_rate capacity full arcs1 e.id r in
      let v2 = set_rate-IsValid capacity full arcs1 v1 e.id r in
      let (s3, found3, colour3, alpha3, batch3, hidden3, rate3) =
        set_color-slot capacity full arcs2 v2 e.id s2 found2 c (alpha e) in
      let hid = hidden3 ∙ hidden2 ∙ hidden1 in
      let wide =
        subst (λ x. IsWide x s3.rate) (sym (batch3 ∙ batch2))
          (subst (IsWide (wanted r)) (sym (rate3 ∙ rate2)) (wanted-IsWide r)) in
      let visible =
        edge_hidden-IsVisible f (end_of e.src) (end_of e.dst) e.proto
          (rate retention e f.window_sec sec).events in
      (
        s3,
        found3,
        record {
          pace = rate3 ∙ rate2;
          wide = wide;
          visible = (λ p. visible.0 (sym hid ∙ p), λ v. hid ∙ visible.1 v);
          tinted = colour3;
          opacity = alpha3;
        },
      )
