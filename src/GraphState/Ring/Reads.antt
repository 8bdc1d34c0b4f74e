-- ===== src/GraphState/Ring/Reads.antt =====
-- What `read` finds after `add_bucket`.
use flowscape.Base.{
  ℕ, ◌+◌, ◌*◌, ◌<◌, ◌≡◌, ◌≢◌, refl, ◌∙◌, inl, inr, true, Option, none, some, arith, length,
  get_elem?, get_or, length-set, get_elem?-set_self, get_elem?-set_ne, if◌then◌else◌, Bool-cases,
}
use flowscape.Base.Int.{ℤ, eqb_ℤ_iff, eqb_ℤ_refl, eqb_ℤ_ne}
use flowscape.Protocol.{Verdict, forwarded, dropped, audit, error}
use flowscape.GraphState.Types.{Counts, pick, EdgeState}
use flowscape.GraphState.Ring.{slot_of, uint32, is_second, epoch_is, store_row, add_bucket, read}
use flowscape.GraphState.Ring.Cells.{
  no_counts, pick-no_counts, cell, length-store_row, length-bump_row, store_row_self, store_row_ne,
  bump_row_self, bump_row_ne,
}

-- The counter of one verdict, as `read` finds it.
pub pick-read :
    (n : ℕ) (e : EdgeState) (s : ℤ) (v : Verdict)
    → pick v (read n e s)
      ≡ (if epoch_is e (slot_of s n) s then get_or e.ring (cell (slot_of s n) v) 0 else 0)
unfolding read pick
pick-read n e s forwarded = ground arith
pick-read n e s dropped = ground arith
pick-read n e s audit = ground arith
pick-read n e s error = ground arith

pub is_second→some : (o : Option ℤ) (s : ℤ) → is_second o s ≡ true → o ≡ some s
is_second→some none s h = cc
is_second→some (some t) s h = cc ((eqb_ℤ_iff t s).0 h)

abbrev pub add : ℕ → EdgeState → ℤ → Counts → EdgeState
add n e sec c = add_bucket n e sec c.f c.d c.a c.e

module _ (n : ℕ) (e : EdgeState) (sec : ℤ) (c : Counts) where
  pub epoch-add :
      slot_of sec n < length e.epochs → get_elem? (add n e sec c).epochs (slot_of sec n) ≡ some sec
  unfolding add_bucket
  epoch-add h = elim (Bool-cases (epoch_is e (slot_of sec n) sec)) [
    | inl now ↦ rw now (is_second→some _ sec now)
    | inr old ↦ rw old (get_elem?-set_self e.epochs (slot_of sec n) sec h)
  ]

  pub epoch-add_ne :
      (i : ℕ) → slot_of sec n ≢ i → get_elem? (add n e sec c).epochs i ≡ get_elem? e.epochs i
  unfolding add_bucket
  epoch-add_ne i h = elim (Bool-cases (epoch_is e (slot_of sec n) sec)) [
    | inl now ↦ rw now
    | inr old ↦ rw old (get_elem?-set_ne e.epochs (slot_of sec n) i sec h)
  ]

  pub sizes-add :
      (length (add n e sec c).epochs ≡ length e.epochs)
      × (length (add n e sec c).ring ≡ length e.ring)
  unfolding add_bucket
  sizes-add = elim (Bool-cases (epoch_is e (slot_of sec n) sec)) [
    | inl now ↦ rw now (refl, length-bump_row e.ring (slot_of sec n) c.f c.d c.a c.e)
    | inr old ↦ rw old (
      length-set e.epochs (slot_of sec n) sec,
      length-bump_row _ (slot_of sec n) c.f c.d c.a c.e
          ∙ length-store_row e.ring (slot_of sec n) 0 0 0 0,
    )
  ]

  counter-add_self :
      (v : Verdict)
      → slot_of sec n * 4 + 3 < length e.ring
      → get_or (add n e sec c).ring (cell (slot_of sec n) v) 0
        ≡ uint32 (
            (if epoch_is e (slot_of sec n) sec then get_or e.ring (cell (slot_of sec n) v) 0 else 0)
            + pick v c)
  unfolding add_bucket
  counter-add_self v h = elim (Bool-cases (epoch_is e (slot_of sec n) sec)) [
    | inl now ↦ rw now (bump_row_self e.ring (slot_of sec n) c v h)
    | inr old ↦ rw old (
        omega (
          arith,
          bump_row_self (store_row e.ring (slot_of sec n) 0 0 0 0) (slot_of sec n) c v
              (omega (arith, length-store_row e.ring (slot_of sec n) 0 0 0 0)),
          store_row_self e.ring (slot_of sec n) no_counts v h,
          pick-no_counts v,
        ))
  ]

  counter-add_ne :
      (i : ℕ) (v : Verdict)
      → slot_of sec n ≢ i
      → get_or (add n e sec c).ring (cell i v) 0 ≡ get_or e.ring (cell i v) 0
  unfolding add_bucket
  counter-add_ne i v h = elim (Bool-cases (epoch_is e (slot_of sec n) sec)) [
    | inl now ↦ rw now (bump_row_ne e.ring (slot_of sec n) i c v h)
    | inr old ↦ rw old (
        bump_row_ne _ (slot_of sec n) i c v h ∙ store_row_ne e.ring (slot_of sec n) i no_counts v h)
  ]

  -- A second that the ring holds gains the counts; one that it does not hold starts from them.
  pub read-add_self :
      (v : Verdict)
      → slot_of sec n < length e.epochs
      → slot_of sec n * 4 + 3 < length e.ring
      → pick v (read n (add n e sec c) sec) ≡ uint32 (pick v (read n e sec) + pick v c)
  read-add_self v he hr =
      rw (pick-read n (add n e sec c) sec v, pick-read n e sec v, epoch-add he, eqb_ℤ_refl sec)
        (counter-add_self v hr)

  -- The seconds in other slots stay.
  pub read-add_ne :
      (s : ℤ) (v : Verdict)
      → slot_of sec n ≢ slot_of s n
      → pick v (read n (add n e sec c) s) ≡ pick v (read n e s)
  read-add_ne s v h = rw (
    pick-read n (add n e sec c) s v,
    pick-read n e s v,
    epoch-add_ne (slot_of s n) h,
    counter-add_ne (slot_of s n) v h,
  )

  -- Another second in the same slot is gone.
  pub read-add_lost :
      (s : ℤ) (v : Verdict)
      → slot_of sec n < length e.epochs
      → slot_of sec n ≡ slot_of s n
      → sec ≢ s
      → pick v (read n (add n e sec c) s) ≡ 0
  read-add_lost s v he h ne =
      rw (pick-read n (add n e sec c) s v, ← h, epoch-add he, eqb_ℤ_ne sec s ne)
