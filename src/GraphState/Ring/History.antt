-- ===== src/GraphState/Ring/History.antt =====
-- What the ring of an edge stands for: the increments that the ticks brought, summed by the second,
-- as long as a second is less than the size of the ring behind the newest.
use native.Mathlib.Decide.{ℕ_discrete}
use flowscape.Base.{
  ap, ℕ, ◌+◌, ◌*◌, ◌<◌, ◌≡◌, ◌≢◌, sym, ◌∙◌, inl, inr, List, [], ◌∷◌, some, arith, length, get_elem?,
  if◌then◌else◌, Bool-cases,
}
use flowscape.Base.Int.{ℤ, pos_part, neg_part, ◌≤ℤ◌, ◌<ℤ◌, eqb_ℤ, eqb_ℤ_refl, eqb_ℤ_ne, ≤ℤ_cases}
use flowscape.Protocol.{Verdict}
use flowscape.GraphState.Types.{Counts, pick, EdgeState}
use flowscape.GraphState.Ring.{slot_of, uint32, epoch_is, read}
use flowscape.GraphState.Ring.Slots.{Within, slot_of-lt, slot_of-ne}
use flowscape.GraphState.Ring.Reads.{
  is_second→some, add, pick-read, sizes-add, epoch-add, epoch-add_ne, read-add_self, read-add_ne,
  read-add_lost,
}

pub record Increment : Type 0 where
  pub sec : ℤ
  pub counts : Counts

unfoldable pub sum_at : Verdict → List Increment → ℤ → ℕ
sum_at v [] s = 0
sum_at v (x ∷ h) s = (if eqb_ℤ x.sec s then pick v x.counts else 0) + sum_at v h s

pub record IsTracked (n : ℕ) (e : EdgeState) (h : List Increment) (last : ℤ) : Type 0 where
  pub epochs_size : length e.epochs ≡ n
  pub ring_size : length e.ring ≡ n * 4
  pub not_ahead : (i : ℕ) (t : ℤ) → get_elem? e.epochs i ≡ some t → t ≤ℤ last
  pub agrees : (s : ℤ) (v : Verdict) → Within n s last → pick v (read n e s) ≡ uint32 (sum_at v h s)

sum_at_self :
    (v : Verdict) (sec : ℤ) (c : Counts) (h : List Increment)
    → sum_at v (record { sec = sec; counts = c } ∷ h) sec ≡ pick v c + sum_at v h sec
unfolding sum_at
sum_at_self v sec c h = rw (eqb_ℤ_refl sec)

sum_at_ne :
    (v : Verdict) (sec s : ℤ) (c : Counts) (h : List Increment)
    → sec ≢ s
    → sum_at v (record { sec = sec; counts = c } ∷ h) s ≡ sum_at v h s
unfolding sum_at
sum_at_ne v sec s c h ne = rw (eqb_ℤ_ne sec s ne) (omega arith)

module _ (n : ℕ) (positive : 0 < n) where
  -- A second after the newest has no counts.
  read_ahead :
      (e : EdgeState) (h : List Increment) (last s : ℤ) (v : Verdict)
      → IsTracked n e h last
      → last <ℤ s
      → pick v (read n e s) ≡ 0
  read_ahead e h last s v t ahead =
      rw (pick-read n e s v) (elim (Bool-cases (epoch_is e (slot_of s n) s)) [
        | inl held ↦ absurd (omega (arith, t.not_ahead (slot_of s n) s (is_second→some _ s held)))
        | inr other ↦ rw other
      ])

  module _ (e : EdgeState) (h : List Increment) (last sec : ℤ) (c : Counts) where
    slots_fit :
        IsTracked n e h last
        → (slot_of sec n < length e.epochs) × (slot_of sec n * 4 + 3 < length e.ring)
    slots_fit t = omega (arith, slot_of-lt sec n positive, t.epochs_size, t.ring_size)

    -- A second that is still to come: its slot holds another one, or was never written.
    later_agrees :
        (s : ℤ) (v : Verdict)
        → IsTracked n e h last
        → last ≤ℤ sec
        → sec <ℤ s
        → pick v (read n (add n e sec c) s) ≡ pick v (read n e s)
    later_agrees s v t later after = elim (ℕ_discrete (slot_of sec n) (slot_of s n)) [
      | yes same ↦
          read-add_lost n e sec c s v (slots_fit t).0 same
            (λ e. absurd (omega (arith, ap pos_part e, ap neg_part e)))
          ∙ sym (read_ahead e h last s v t (omega arith))
      | no other ↦ read-add_ne n e sec c s v other
    ]

    add-agrees :
        (s : ℤ) (v : Verdict)
        → IsTracked n e h last
        → last ≤ℤ sec
        → Within n s sec
        → pick v (read n (add n e sec c) s)
          ≡ uint32 (sum_at v (record { sec = sec; counts = c } ∷ h) s)
    add-agrees s v t later near = elim (≤ℤ_cases s sec) [
      | inl before ↦
          rw (sum_at_ne v sec s c h (λ e. absurd (omega (arith, ap pos_part e, ap neg_part e)))) (
            read-add_ne n e sec c s v (λ same. slot_of-ne s sec n positive before near (sym same))
            ∙ t.agrees s v (omega arith))
      | inr (inl now) ↦
          rw (now, sum_at_self v sec c h)
            (omega (
              arith,
              read-add_self n e sec c v (slots_fit t).0 (slots_fit t).1,
              t.agrees sec v (omega arith),
            ))
      | inr (inr after) ↦
          rw (sum_at_ne v sec s c h (λ e. absurd (omega (arith, ap pos_part e, ap neg_part e))))
            (later_agrees s v t later after ∙ t.agrees s v (omega arith))
    ]

    add-not_ahead :
        IsTracked n e h last
        → last ≤ℤ sec
        → (i : ℕ) (t' : ℤ) → get_elem? (add n e sec c).epochs i ≡ some t'
        → t' ≤ℤ sec
    add-not_ahead t later i t' found = elim (ℕ_discrete (slot_of sec n) i) [
      | yes here ↦
          let same : sec ≡ t' =
            cc (epoch-add n e sec c (slots_fit t).0, ap (get_elem? (add n e sec c).epochs) here) in
          omega (arith, ap pos_part same, ap neg_part same)
      | no there ↦ omega (arith, t.not_ahead i t' (sym (epoch-add_ne n e sec c i there) ∙ found))
    ]

    -- To add to a second that is not older than the newest keeps the ring in step with the history:
    -- for each second less than the size of the ring behind the newest, what is read is what the
    -- history sums there, modulo 2 ^ 32.
    pub add_bucket-IsTracked :
        IsTracked n e h last
        → last ≤ℤ sec
        → IsTracked n (add n e sec c) (record { sec = sec; counts = c } ∷ h) sec
    add_bucket-IsTracked t later = record {
      epochs_size = (sizes-add n e sec c).0 ∙ t.epochs_size;
      ring_size = (sizes-add n e sec c).1 ∙ t.ring_size;
      not_ahead = λ i t' found. add-not_ahead t later i t' found;
      agrees = λ s v near. add-agrees s v t later near;
    }
