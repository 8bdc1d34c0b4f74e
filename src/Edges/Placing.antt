-- ===== src/Edges/Placing.antt =====
-- A free slot is taken for a new id: the last lines of `place`.
use native.Mathlib.Decide.{ℕ_discrete}
use mathlib.Core.Option.{some-injective}
use flowscape.Base.{
  ◌≢◌, ℕ, ◌+◌, ◌*◌, ◌<◌, String, Bool, true, false, ◌≡◌, refl, ◌∙◌, sym, ap, subst, List, ◌∷◌, none,
  some, length-set, get_or-set, arith, eqb, if◌then◌else◌, ◌===◌, ===_cases, Option-cases, inl, inr,
  ◌||◌, Bool-cases, ===_iff,
}
use flowscape.Base.Dict
use flowscape.Edges.Types.{widths, EdgeSlot, Edges, batch_of, owner, no_batch}
use flowscape.Edges.Operations.{occupy}
use flowscape.Edges.Cells.{listed, Distinct, eqb-cell, cell-lt}
use flowscape.Edges.Ownership.{IsSlot, IsValid, is_none, free_if}

module _ {A : Type 0} (capacity : ℕ) (full : A) (e : Edges A) (v : IsValid capacity e) where
  -- A slot is taken for an id that has none.
  module _ (id : String) (b : ℕ) (same : Bool) (index : ℕ) (rest : List ℕ)
      (new : Dict.get id e.slots ≡ none) (w : b < widths)
      (top : (batch_of e b).free ≡ index ∷ rest) where
    abbrev after : Edges A
    after = occupy capacity full e id b same index rest

    first : listed index (batch_of e b).free ≡ true
    unfolding listed
    first = rw top (ground arith)

    fits : index < capacity
    fits = v.in_range b index first

    unheld : owner e (b * capacity + index) ≡ none
    unheld =
        let k = sym (v.free b index w fits) ∙ first in
        elim (Option-cases (owner e (b * capacity + index))) [
          | inl n ↦ n
          | inr (x, n) ↦ let q = sym (ap is_none n) ∙ k in absurd (cc)
        ]

    owner-after :
        (cp : ℕ) → owner after cp ≡ (if eqb (b * capacity + index) cp then some id else owner e cp)
    unfolding occupy
    owner-after cp =
        get_or-set e.by_slot (b * capacity + index) cp (some id) none
          (omega (arith, v.cells_size, cell-lt capacity widths b index fits w))

    batch-after :
        (b' : ℕ) → (batch_of after b').free ≡ (if eqb b b' then rest else (batch_of e b').free)
    unfolding occupy
    batch-after b' =
        ap (λ x. x.free)
          (get_or-set e.batches b b' (record (batch_of e b) { free = rest }) no_batch
            (omega (arith, v.batches_size)))
        ∙ free_if (eqb b b') _ _

    owner-here : (cp : ℕ) → b * capacity + index ≡ cp → owner after cp ≡ some id
    owner-here cp here = rw (owner-after cp) (ground arith)

    owner-there : (cp : ℕ) → b * capacity + index ≢ cp → owner after cp ≡ owner e cp
    owner-there cp there = rw (owner-after cp) (ground arith)

    abbrev pub taken : EdgeSlot A
    taken = record {
      id = id;
      batch = b;
      index = index;
      cp = b * capacity + index;
      same = same;
      colour = none;
      alpha = full;
      hidden = false;
      rate = record { units = 0 };
    }

    pub slots-after :
        (j : String)
        → Dict.get j after.slots ≡ (if id === j then some taken else Dict.get j e.slots)
    unfolding occupy
    slots-after j = Dict.get-put id j taken e.slots

    taken-IsSlot : IsSlot capacity after id taken
    taken-IsSlot = record {
      named = refl;
      width = w;
      fits = fits;
      cell = refl;
      owned = rw (owner-after (b * capacity + index)) (ground arith);
    }

    -- A cell that another id holds is not the one that is taken.
    owner-kept : (cp : ℕ) (j : String) → owner e cp ≡ some j → owner after cp ≡ some j
    owner-kept cp j h = elim (ℕ_discrete (b * capacity + index) cp) [
      | yes here ↦ let k = sym unheld ∙ ap (owner e) here ∙ h in absurd (cc)
      | no there ↦ rw (owner-after cp) (ground arith)
    ]

    IsSlot-after :
        (j : String) (s : EdgeSlot A) → Dict.get j after.slots ≡ some s → IsSlot capacity after j s
    IsSlot-after j s found = elim (===_cases id j) [
      | inl (p, q) ↦
          let here : s ≡ taken =
            cc (found, slots-after j, ap (λ t. if t then some taken else Dict.get j e.slots) q) in
          subst (λ x. IsSlot capacity after x s) p
            (subst (IsSlot capacity after id) (sym here) taken-IsSlot)
      | inr (p, q) ↦
          let k = v.slot j s (
            sym (slots-after j ∙ ap (λ t. if t then some taken else Dict.get j e.slots) q)
            ∙ found) in
          record {
            named = k.named;
            width = k.width;
            fits = k.fits;
            cell = k.cell;
            owned = owner-kept s.cp j k.owned;
          }
    ]

    slot-kept :
        (j : String) (s : EdgeSlot A)
        → Dict.get j e.slots ≡ some s
        → Dict.get j after.slots ≡ some s
    slot-kept j s found = elim (===_cases id j) [
      | inl (p, q) ↦ let k = sym new ∙ ap (λ x. Dict.get x e.slots) p ∙ found in absurd (cc)
      | inr (p, q) ↦ rw (slots-after j, q) found
    ]

    held-after :
        (cp : ℕ) (j : String)
        → owner after cp ≡ some j
        → (s : EdgeSlot A) × (Dict.get j after.slots ≡ some s) × (s.cp ≡ cp)
    held-after cp j h = elim (ℕ_discrete (b * capacity + index) cp) [
      | yes here ↦
          let mine : id ≡ j = some-injective id j (sym (owner-here cp here) ∙ h) in
          (taken, rw (slots-after j, (===_iff id j).1 mine) refl, here)
      | no there ↦
          let (s, found, at) = v.held cp j (sym (owner-there cp there) ∙ h) in
          (s, slot-kept j s found, at)
    ]

    free-after :
        (b' i : ℕ)
        → b' < widths
        → i < capacity
        → listed i (batch_of after b').free ≡ is_none (owner after (b' * capacity + i))
    unfolding listed
    free-after b' i w' f =
        let d = subst Distinct top (v.distinct b) in
        let old = v.free b' i w' f in
        let one = sym (ap (listed i) top) ∙ v.free b i w f in
        rw (owner-after (b' * capacity + i), batch-after b', eqb-cell capacity b b' index i fits f)
          (ground arith)

    in_range-after : (b' i : ℕ) → listed i (batch_of after b').free ≡ true → i < capacity
    unfolding listed
    in_range-after b' i h =
        let k = sym (ap (listed i) (batch-after b')) ∙ h in
        let one = ap (listed i) top in
        elim (Bool-cases (eqb b b')) [
          | inl q ↦ v.in_range b i (
              one
              ∙ subst (λ t. (eqb index i || t) ≡ true)
                  (sym (sym (ap (λ t. listed i (if t then rest else (batch_of e b').free)) q) ∙ k))
                  (ground arith))
          | inr q ↦
              v.in_range b' i
                (sym (ap (λ t. listed i (if t then rest else (batch_of e b').free)) q) ∙ k)
        ]

    Distinct-after : (b' : ℕ) → Distinct (batch_of after b').free
    Distinct-after b' = subst Distinct (sym (batch-after b')) (elim (Bool-cases (eqb b b')) [
      | inl q ↦ rw q (subst Distinct top (v.distinct b)).1
      | inr q ↦ rw q (v.distinct b')
    ])

    pub occupy-IsValid : IsValid capacity after
    unfolding occupy
    occupy-IsValid = record {
      batches_size = length-set e.batches b _ ∙ v.batches_size;
      cells_size = length-set e.by_slot _ _ ∙ v.cells_size;
      slot = IsSlot-after;
      held = held-after;
      free = free-after;
      in_range = in_range-after;
      distinct = Distinct-after;
    }
