-- ===== src/GraphState/Ring/Buckets.antt =====
-- `setBucket`, with which a snapshot fills the ring of a new edge, against `addBucket`.
use flowscape.Base.{
  ℕ, ◌*◌, ◌+◌, ◌<◌, ◌≡◌, refl, some, get_elem?, subst, false, List, [], ◌∷◌, arith, length,
  replicate, length-replicate, get_elem?-replicate, get_or-replicate, Bool-cases, inl, inr,
}
use flowscape.Base.Int.{ℤ, negsuc, ◌≤ℤ◌, ◌<ℤ◌}
use flowscape.Protocol.{Bucket, Verdict}
use flowscape.GraphState.Types.{pick, Counts, EdgeState}
use flowscape.GraphState.Ring.{uint32, read, slot_of, epoch_is, set_bucket, set_buckets, add_bucket}
use flowscape.GraphState.Ring.Slots.{slot_of-lt}
use flowscape.GraphState.Ring.Cells.{cell, bump-store_row}
use flowscape.GraphState.Ring.Reads.{is_second→some, add, pick-read}
use flowscape.GraphState.Ring.History.{Increment, sum_at, IsTracked, add_bucket-IsTracked}

abbrev pub bucket_counts : Bucket → Counts
bucket_counts b = record { f = b.f; d = b.d; a = b.a; e = b.e }

-- The history that a list of buckets tells, newest first.
unfoldable pub bucket_history : List Bucket → List Increment → List Increment
bucket_history [] h = h
bucket_history (b ∷ bs) h = bucket_history bs (record { sec = b.sec; counts = bucket_counts b } ∷ h)

-- For a second that the ring does not hold, setting a bucket is adding to it.
set_bucket-add :
    (n : ℕ) (e : EdgeState) (b : Bucket)
    → epoch_is e (slot_of b.sec n) b.sec ≡ false
    → slot_of b.sec n * 4 + 3 < length e.ring
    → add n e b.sec (bucket_counts b) ≡ set_bucket n e b
unfolding add_bucket set_bucket
set_bucket-add n e b old fits =
    rw (old, bump-store_row e.ring (slot_of b.sec n) (bucket_counts b) fits)

-- Seconds that rise from `last` on: what the server sends, oldest first.
abbrev pub Rises : ℤ → List Bucket → Type 0
Rises last [] = Unit {0}
Rises last (b ∷ bs) = (last <ℤ b.sec) × Rises b.sec bs

abbrev pub last_second : ℤ → List Bucket → ℤ
last_second last [] = last
last_second last (b ∷ bs) = last_second b.sec bs

module _ (n : ℕ) (positive : 0 < n) where
  set_bucket-IsTracked :
      (e : EdgeState) (h : List Increment) (last : ℤ) (b : Bucket)
      → IsTracked n e h last
      → last <ℤ b.sec
      → IsTracked n (set_bucket n e b) (record { sec = b.sec; counts = bucket_counts b } ∷ h) b.sec
  set_bucket-IsTracked e h last b t rise =
      rw (← set_bucket-add n e b unheld room)
        (add_bucket-IsTracked n positive e h last b.sec (bucket_counts b) t (omega arith))
    where
      room : slot_of b.sec n * 4 + 3 < length e.ring
      room = omega (arith, slot_of-lt b.sec n positive, t.ring_size)

      unheld : epoch_is e (slot_of b.sec n) b.sec ≡ false
      unheld = elim (Bool-cases (epoch_is e (slot_of b.sec n) b.sec)) [
        | inl held ↦
            absurd
              (omega (arith, t.not_ahead (slot_of b.sec n) b.sec (is_second→some _ b.sec held)))
        | inr other ↦ other
      ]

  -- The buckets of a snapshot, as long as their seconds rise from the newest that the ring has, keep
  -- it in step with the history that they tell.
  pub set_buckets-IsTracked :
      (e : EdgeState) (h : List Increment) (last : ℤ) (bs : List Bucket)
      → IsTracked n e h last
      → Rises last bs
      → IsTracked n (set_buckets n e bs) (bucket_history bs h) (last_second last bs)
  unfolding set_buckets bucket_history
  set_buckets-IsTracked e h last [] t rises = t
  set_buckets-IsTracked e h last (b ∷ bs) t rises =
      set_buckets-IsTracked (set_bucket n e b)
        (record { sec = b.sec; counts = bucket_counts b } ∷ h) b.sec bs
        (set_bucket-IsTracked e h last b t rises.0) rises.1

sum_at-nil : (v : Verdict) (s : ℤ) → sum_at v [] s ≡ 0
unfolding sum_at
sum_at-nil v s = refl

-- The arrays of a new edge hold no second.
pub fresh-IsTracked :
    (n : ℕ) (e : EdgeState) (last : ℤ)
    → e.ring ≡ replicate (n * 4) 0
    → e.epochs ≡ replicate n (negsuc 0)
    → negsuc 0 ≤ℤ last
    → IsTracked n e [] last
fresh-IsTracked n e last er ee after = record {
  epochs_size = rw ee (length-replicate n (negsuc 0));
  ring_size = rw er (length-replicate (n * 4) 0);
  not_ahead = λ i t' found. ahead i t' (rw ee at found);
  agrees = λ s v near. nothing s v;
}
  where
    ahead : (i : ℕ) (t' : ℤ) → get_elem? (replicate n (negsuc 0)) i ≡ some t' → t' ≤ℤ last
    ahead i t' found = subst (λ z. z ≤ℤ last) (get_elem?-replicate n i (negsuc 0) t' found) after

    nothing : (s : ℤ) (v : Verdict) → pick v (read n e s) ≡ uint32 (sum_at v [] s)
    nothing s v =
        rw (pick-read n e s v, er, get_or-replicate {A = ℕ} (n * 4) (cell (slot_of s n) v) 0)
          (ground (arith, sum_at-nil v s))
