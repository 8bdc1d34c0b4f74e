-- ===== src/GraphState/Ring/Window.antt =====
-- `rate` and `series` against the history of an edge: what they sum over their window.
use flowscape.Base.{
  ℕ, zero, suc, ◌+◌, ◌≤◌, ◌<◌, ◌^◌, min, ◌≡◌, refl, ◌∙◌, Bool, ◌&&◌, List, [], ◌∷◌, map, ap₂, arith,
  ltb, leb, if◌then◌else◌,
}
use flowscape.Base.Int.{ℤ, pos, pos_part, neg_part, sub_ℕ, ◌+ℤ◌, ◌≤ℤ◌, +ℤ_parts}
use flowscape.Protocol.{Verdict, forwarded, dropped, audit, error}
use flowscape.GraphState.Types.{Counts, pick, EdgeState}
use flowscape.GraphState.Ring.{read, add_counts, first_second, rate_loop, rate, series_loop, series}
use flowscape.GraphState.Ring.Slots.{Within}
use flowscape.GraphState.Ring.Cells.{no_counts, pick-no_counts}
use flowscape.GraphState.Ring.History.{Increment, sum_at, IsTracked}

-- `s ≤ t < s + k`
abbrev pub in_range : ℤ → ℕ → ℤ → Bool
in_range s k t =
    leb (pos_part s + neg_part t) (pos_part t + neg_part s)
    && ltb (pos_part t + neg_part s) (pos_part s + neg_part t + k)

-- The events of a verdict in the `k` seconds from `s` on.
unfoldable pub count_in : Verdict → List Increment → ℤ → ℕ → ℕ
count_in v [] s k = 0
count_in v (x ∷ h) s k = (if in_range s k x.sec then pick v x.counts else 0) + count_in v h s k

unfoldable pub count_all : Verdict → List Increment → ℕ
count_all v [] = 0
count_all v (x ∷ h) = pick v x.counts + count_all v h

next_parts : (s : ℤ) → pos_part (s +ℤ pos 1) + neg_part s ≡ neg_part (s +ℤ pos 1) + pos_part s + 1
next_parts s = omega (arith, +ℤ_parts s (pos 1))

count_in-zero : (v : Verdict) (h : List Increment) (s : ℤ) → count_in v h s 0 ≡ 0
unfolding count_in
count_in-zero v [] s = refl
count_in-zero v (x ∷ h) s = ground (arith, count_in-zero v h s)

-- A window is its first second and the rest.
count_in-suc :
    (v : Verdict) (h : List Increment) (s : ℤ) (k : ℕ)
    → count_in v h s (suc k) ≡ sum_at v h s + count_in v h (s +ℤ pos 1) k
unfolding count_in sum_at
count_in-suc v [] s k = refl
count_in-suc v (x ∷ h) s k = ground (arith, count_in-suc v h s k, next_parts s)

sum_at-le : (v : Verdict) (h : List Increment) (s : ℤ) → sum_at v h s ≤ count_all v h
unfolding sum_at count_all
sum_at-le v [] s = omega arith
sum_at-le v (x ∷ h) s = ground (arith, sum_at-le v h s)

pick-add_counts : (v : Verdict) (x y : Counts) → pick v (add_counts x y) ≡ pick v x + pick v y
unfolding pick
pick-add_counts forwarded x y = refl
pick-add_counts dropped x y = refl
pick-add_counts audit x y = refl
pick-add_counts error x y = refl

-- `k` seconds from `s` on.
unfoldable pub seconds : ℤ → ℕ → List ℤ
seconds s zero = []
seconds s (suc k) = s ∷ seconds (s +ℤ pos 1) k

-- The events of all verdicts in one second.
unfoldable pub events_at : List Increment → ℤ → ℕ
events_at h s = sum_at forwarded h s + sum_at dropped h s + sum_at audit h s + sum_at error h s

module _ (n : ℕ) (e : EdgeState) (h : List Increment) (last : ℤ) (t : IsTracked n e h last) where
  read-sum_at :
      (v : Verdict) (s : ℤ)
      → count_all v h < 2 ^ 32
      → Within n s last
      → pick v (read n e s) ≡ sum_at v h s
  read-sum_at v s small near = omega (arith, t.agrees s v near, sum_at-le v h s)

  rate_loop-count_in :
      (v : Verdict) (k : ℕ) (s : ℤ) (out : Counts)
      → count_all v h < 2 ^ 32
      → Within n s last
      → pick v (rate_loop n e k s out) ≡ pick v out + count_in v h s k
  unfolding rate_loop
  rate_loop-count_in v zero s out small near = omega (arith, count_in-zero v h s)
  rate_loop-count_in v (suc k) s out small near = omega (
    arith,
    rate_loop-count_in v k (s +ℤ pos 1) (add_counts out (read n e s)) small
        (omega (arith, next_parts s)),
    pick-add_counts v out (read n e s),
    read-sum_at v s small near,
    count_in-suc v h s k,
  )

  first_near : (w : ℕ) (now : ℤ) → w ≤ n → last ≤ℤ now → 0 < n → Within n (first_second now w) last
  first_near w now fits past positive =
      let start = +ℤ_parts now (sub_ℕ 1 w) in ground (arith, start)

  -- Over the last `w` seconds, at most the size of the ring, `rate` counts exactly the events of each
  -- verdict that the history has there, as long as the counters have not wrapped and the newest tick
  -- is not ahead of the clock. It divides by the seconds looked at.
  pub rate-count_in :
      (v : Verdict) (w : ℕ) (now : ℤ)
      → 0 < n
      → last ≤ℤ now
      → count_all v h < 2 ^ 32
      → let r = rate n e w now in
        (pick v r.events ≡ count_in v h (first_second now (min w n)) (min w n)) × (r.per ≡ min w n)
  unfolding rate
  rate-count_in v w now positive past small = (
    rate_loop-count_in v (min w n) (first_second now (min w n)) no_counts small
          (first_near (min w n) now (omega arith) past positive)
        ∙ omega (arith, pick-no_counts v),
    refl,
  )

  series_loop-events :
      (k : ℕ) (s : ℤ)
      → ((v : Verdict) → count_all v h < 2 ^ 32)
      → Within n s last
      → series_loop n e k s ≡ map (events_at h) (seconds s k)
  unfolding series_loop events_at seconds pick
  series_loop-events zero s small near = refl
  series_loop-events (suc k) s small near =
      ap₂ ◌∷◌
        (omega (
          arith,
          read-sum_at forwarded s (small forwarded) near,
          read-sum_at dropped s (small dropped) near,
          read-sum_at audit s (small audit) near,
          read-sum_at error s (small error) near,
        ))
        (series_loop-events k (s +ℤ pos 1) small (omega (arith, next_parts s)))

  -- As long as no counter has wrapped and the newest tick is not ahead of the clock, `series` lists,
  -- oldest first, how many events of any verdict the history has in each second of the window.
  pub series-events :
      (w : ℕ) (now : ℤ)
      → 0 < n
      → last ≤ℤ now
      → ((v : Verdict) → count_all v h < 2 ^ 32)
      → series n e w now ≡ map (events_at h) (seconds (first_second now (min w n)) (min w n))
  unfolding series
  series-events w now positive past small =
      series_loop-events (min w n) (first_second now (min w n)) small
        (first_near (min w n) now (omega arith) past positive)
