-- ===== src/Edges/Vacating.antt =====
-- The slot of an id is given back: `this.slots.delete(id)` and `clear`.
use native.Mathlib.Decide.{ℕ_discrete}
use mathlib.Core.Option.{some-injective}
use flowscape.Base.{
  ◌≢◌, ℕ, ◌+◌, ◌*◌, ◌<◌, String, true, false, ◌≡◌, refl, ◌∙◌, sym, ap, subst, ◌∷◌, none, some,
  length, length-set, get_or-set, arith, eqb, if◌then◌else◌, ◌===◌, ===_cases, inl, inr, Bool-cases,
  ===_iff,
}
use flowscape.Base.Dict
use flowscape.Edges.Types.{widths, EdgeSlot, Edges, batch_of, owner, no_batch}
use flowscape.Edges.Operations.{clear, vacate}
use flowscape.Edges.Cells.{listed, Distinct, eqb-cell, cell-lt}
use flowscape.Edges.Ownership.{IsSlot, IsValid, is_none, free_if}

module _ {A : Type 0} (capacity : ℕ) (full : A) (e : Edges A) (v : IsValid capacity e) (id : String)
    (slot : EdgeSlot A) (there : Dict.get id e.slots ≡ some slot) where
  mine : IsSlot capacity e id slot
  mine = v.slot id slot there

  abbrev after : Edges A
  after = vacate capacity full e id slot

  cell_fits : slot.cp < length e.by_slot
  cell_fits = omega (
    arith,
    v.cells_size,
    mine.cell,
    cell-lt capacity widths slot.batch slot.index mine.fits mine.width,
  )

  owner-after : (cp : ℕ) → owner after cp ≡ (if eqb slot.cp cp then none else owner e cp)
  unfolding clear
  owner-after cp = get_or-set e.by_slot slot.cp cp none none cell_fits

  owner-there : (cp : ℕ) → slot.cp ≢ cp → owner after cp ≡ owner e cp
  owner-there cp away = rw (owner-after cp) (ground arith)

  owner-here : owner after slot.cp ≡ none
  owner-here = rw (owner-after slot.cp) (ground arith)

  pub batch-after :
      (b' : ℕ)
      → (batch_of after b').free ≡ (
          if eqb slot.batch b'
          then slot.index ∷ (batch_of e slot.batch).free
          else (batch_of e b').free)
  unfolding clear
  batch-after b' =
      ap (λ x. x.free)
        (get_or-set e.batches slot.batch b' _ no_batch (omega (arith, v.batches_size, mine.width)))
      ∙ free_if (eqb slot.batch b') _ _

  slots-after :
      (j : String) → Dict.get j after.slots ≡ (if id === j then none else Dict.get j e.slots)
  unfolding clear
  slots-after j = Dict.get-delete id j e.slots

  pub slot-gone : Dict.get id after.slots ≡ none
  slot-gone = rw (slots-after id, (===_iff id id).1 refl) refl

  pub slot-kept :
      (j : String) (s : EdgeSlot A)
      → id ≢ j
      → Dict.get j e.slots ≡ some s
      → Dict.get j after.slots ≡ some s
  slot-kept j s other found = elim (===_cases id j) [
    | inl (p, q) ↦ absurd (other p)
    | inr (p, q) ↦ rw (slots-after j, q) found
  ]

  IsSlot-after :
      (j : String) (s : EdgeSlot A) → Dict.get j after.slots ≡ some s → IsSlot capacity after j s
  IsSlot-after j s found = elim (===_cases id j) [
    | inl (p, q) ↦
        let k = sym found ∙ slots-after j ∙ ap (λ t. if t then none else Dict.get j e.slots) q in
        absurd (cc)
    | inr (p, q) ↦
        let k =
          v.slot j s
            (sym (slots-after j ∙ ap (λ t. if t then none else Dict.get j e.slots) q) ∙ found) in
        let away : slot.cp ≢ s.cp =
          λ at. p (some-injective id j (sym mine.owned ∙ ap (owner e) at ∙ k.owned)) in
        record {
          named = k.named;
          width = k.width;
          fits = k.fits;
          cell = k.cell;
          owned = owner-there s.cp away ∙ k.owned;
        }
  ]

  held-after :
      (cp : ℕ) (j : String)
      → owner after cp ≡ some j
      → (s : EdgeSlot A) × (Dict.get j after.slots ≡ some s) × (s.cp ≡ cp)
  held-after cp j h = elim (ℕ_discrete slot.cp cp) [
    | yes here ↦ let k = sym owner-here ∙ ap (owner after) here ∙ h in absurd (cc)
    | no away ↦
        let (s, found, at) = v.held cp j (sym (owner-there cp away) ∙ h) in
        let other : id ≢ j = λ p. away (
          ap (λ x. x.cp)
            (some-injective slot s (sym there ∙ ap (λ x. Dict.get x e.slots) p ∙ found))
          ∙ at) in
        (s, slot-kept j s other found, at)
  ]

  free-after :
      (b' i : ℕ)
      → b' < widths
      → i < capacity
      → listed i (batch_of after b').free ≡ is_none (owner after (b' * capacity + i))
  unfolding listed
  free-after b' i w f =
      let old = v.free b' i w f in
      rw
        (
          owner-after (b' * capacity + i),
          batch-after b',
          mine.cell,
          eqb-cell capacity slot.batch b' slot.index i mine.fits f,
        )
        (ground arith)

  in_range-after : (b' i : ℕ) → listed i (batch_of after b').free ≡ true → i < capacity
  unfolding listed
  in_range-after b' i h =
      let k = sym (ap (listed i) (batch-after b')) ∙ h in
      let one = v.in_range slot.batch i in
      let two = v.in_range b' i in let f = mine.fits in ground arith

  Distinct-after : (b' : ℕ) → Distinct (batch_of after b').free
  Distinct-after b' = subst Distinct (sym (batch-after b')) (elim (Bool-cases (eqb slot.batch b')) [
    | inl q ↦ rw q (once, v.distinct slot.batch)
    | inr q ↦ rw q (v.distinct b')
  ])
    where
      once : listed slot.index (batch_of e slot.batch).free ≡ false
      once =
          v.free slot.batch slot.index mine.width mine.fits
          ∙ ap is_none (ap (owner e) (sym mine.cell) ∙ mine.owned)

  pub vacate-IsValid : IsValid capacity after
  unfolding clear
  vacate-IsValid = record {
    batches_size = length-set e.batches slot.batch _ ∙ v.batches_size;
    cells_size = length-set e.by_slot _ _ ∙ v.cells_size;
    slot = IsSlot-after;
    held = held-after;
    free = free-after;
    in_range = in_range-after;
    distinct = Distinct-after;
  }
