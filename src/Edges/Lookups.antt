-- ===== src/Edges/Lookups.antt =====
-- What is found under the pointer, and what becomes of an arc whose rate calls for another width.
use flowscape.Base.{
  ℕ, ◌+◌, ◌*◌, ◌/◌, ◌<◌, String, false, ◌≡◌, ◌≢◌, refl, ◌∙◌, sym, ap, [], none, some, arith, eqb,
  ===_refl, inl, inr,
}
use flowscape.Base.Dict
use flowscape.Base.Doubles.{Double}
use flowscape.Edges.Types.{widths, segments, wanted, EdgeSlot, Edges, batch_of, owner}
use flowscape.Edges.Operations.{occupy, place, vacate, carry, or_dropped, set_rate, id_at}
use flowscape.Edges.Cells.{eqb-cell}
use flowscape.Edges.Ownership.{IsValid}
use flowscape.Edges.Placing.{taken, slots-after}
use flowscape.Edges.Vacating
use flowscape.Edges.Steps.{List-cases, wanted-lt, place-full, place-free}

module _ {A : Type 0} (capacity : ℕ) (full : A) (e : Edges A) (v : IsValid capacity e) (id : String)
    (slot : EdgeSlot A) (there : Dict.get id e.slots ≡ some slot) where
  -- Each of the segments of an arc that has a slot leads back to its id.
  pub id_at-segment :
      (k : ℕ)
      → k < segments
      → id_at capacity full e slot.batch (slot.index * segments + k) ≡ some id
  unfolding id_at
  id_at-segment k small =
      let mine = v.slot id slot there in
      let at : slot.batch * capacity + (slot.index * segments + k) / segments ≡ slot.cp =
        rw mine.cell (omega arith) in
      ap (owner e) at ∙ mine.owned

  -- Another batch is as it was when the slot was given back.
  other_batch :
      (b : ℕ)
      → slot.batch ≢ b
      → (batch_of (vacate capacity full e id slot) b).free ≡ (batch_of e b).free
  other_batch b other = rw (Vacating.batch-after capacity full e v id slot there b) (ground arith)

  module _ (rate : Double) (moves : wanted rate ≢ slot.batch) where
    abbrev vacated : Edges A
    vacated = vacate capacity full e id slot

    set_rate-place :
        set_rate capacity full e id rate
        ≡ or_dropped capacity full id slot rate vacated
            (place capacity full vacated id (wanted rate) slot.same)
    unfolding set_rate
    set_rate-place = rw (there, set_rate) (rw differs refl)
      where
        differs : eqb (wanted rate) slot.batch ≡ false
        differs = ground arith

    -- An arc whose rate calls for another width, where that batch has no free slot, is dropped: it
    -- has no slot any more.
    pub set_rate-full :
        (batch_of e (wanted rate)).free ≡ []
        → Dict.get id (set_rate capacity full e id rate).slots ≡ none
    set_rate-full empty =
        ap (λ x. Dict.get id x.slots)
          (set_rate-place
            ∙ ap (or_dropped capacity full id slot rate vacated) (
                place-full capacity full vacated
                  (Vacating.vacate-IsValid capacity full e v id slot there) id (wanted rate)
                  slot.same (other_batch (wanted rate) (λ p. moves (sym p)) ∙ empty)))
        ∙ Vacating.slot-gone capacity full e v id slot there

    -- An arc whose rate calls for another width, where that batch has a free slot, stands in that
    -- batch, has the new rate, and is drawn with the colour, the opacity and the flags that it had.
    pub set_rate-moved :
        (batch_of e (wanted rate)).free ≢ []
        → (s : EdgeSlot A) × (Dict.get id (set_rate capacity full e id rate).slots ≡ some s)
          × (s.batch ≡ wanted rate)
          × (s.rate ≡ rate)
          × (s.colour ≡ slot.colour)
          × (s.alpha ≡ slot.alpha)
          × (s.hidden ≡ slot.hidden)
          × (s.same ≡ slot.same)
    set_rate-moved room = elim (List-cases (batch_of vacated (wanted rate)).free) [
      | inl empty ↦ absurd (room (sym (other_batch (wanted rate) (λ p. moves (sym p))) ∙ empty))
      | inr (i, is, top) ↦
          let k = Vacating.vacate-IsValid capacity full e v id slot there in
          let gone = Vacating.slot-gone capacity full e v id slot there in
          let new =
            taken capacity full vacated k id (wanted rate) slot.same i is gone (wanted-lt rate)
              top in
          let placed = occupy capacity full vacated id (wanted rate) slot.same i is in
          let here : Dict.get id placed.slots ≡ some new =
            rw
              (
                slots-after capacity full vacated k id (wanted rate) slot.same i is gone
                    (wanted-lt rate) top id,
                ===_refl id,
              )
              refl in
          let found : Dict.get id (set_rate capacity full e id rate).slots
              ≡ some (carry capacity full slot rate new) =
            ap (λ x. Dict.get id x.slots)
              (set_rate-place
                ∙ ap (or_dropped capacity full id slot rate vacated)
                    (place-free capacity full vacated k id (wanted rate) slot.same i is top))
            ∙ rw
                (
                  Dict.get-modify id id (carry capacity full slot rate) placed.slots,
                  ===_refl id,
                  here,
                )
                refl in
          (carry capacity full slot rate new, found, refl, refl, refl, refl, refl, refl)
    ]

module _ {A : Type 0} (capacity : ℕ) (full : A) (e : Edges A) (v : IsValid capacity e) where
  -- An id that a segment of a batch leads to has a slot, and that is the one which the segment
  -- belongs to.
  pub id_at-slot :
      (b k : ℕ) (id : String)
      → b < widths
      → k < capacity * segments
      → id_at capacity full e b k ≡ some id
      → (s : EdgeSlot A) × (Dict.get id e.slots ≡ some s) × (s.batch ≡ b) × (s.index ≡ k / segments)
  unfolding id_at
  id_at-slot b k id w small h =
      let (s, found, at) = v.held (b * capacity + k / segments) id h in
      let mine = v.slot id s found in
      let same = eqb-cell capacity s.batch b s.index (k / segments) mine.fits (omega arith) in
      let both : (s.batch ≡ b) × (s.index ≡ k / segments) = ground (arith, mine.cell) in
      (s, found, both.0, both.1)
