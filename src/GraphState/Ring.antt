-- ===== src/GraphState/Ring.antt =====
-- The per-second ring of an edge in web/src/graph-state.ts: `setBucket`, `addBucket`, `rate`, `series`.
-- An array is a list: a read out of range is `undefined`, a write out of range changes nothing, and a
-- store into the `Uint32Array` wraps at 2 ^ 32.
pub mod Slots
pub mod Cells
pub mod Reads
pub mod History
pub mod Window
pub mod Buckets
use flowscape.Base.{
  ℕ, zero, suc, ◌+◌, ◌*◌, ◌%◌, ◌^◌, min, Bool, false, List, [], ◌∷◌, Option, none, some, get_elem?,
  get_or, set, if◌then◌else◌,
}
use flowscape.Base.Int.{ℤ, pos, negsuc, pos_part, sub_ℕ, ◌+ℤ◌, eqb_ℤ}
use flowscape.Base.Doubles.{Double, quotient, sum}
use flowscape.Protocol.{Bucket}
use flowscape.GraphState.Types.{Counts, EdgeState}

-- `s % n` of the language: it has the sign of `s`.
unfoldable pub rem : ℤ → ℕ → ℤ
rem (pos a) n = pos (a % n)
rem (negsuc a) n = sub_ℕ 0 (suc a % n)

-- `((s % n) + n) % n`, which is not negative.
unfoldable pub slot_of : ℤ → ℕ → ℕ
unfolding rem ◌+ℤ◌
slot_of s n = pos_part (rem (rem s n +ℤ pos n) n)

abbrev pub uint32 : ℕ → ℕ
uint32 v = v % 2 ^ 32

abbrev pub is_second : Option ℤ → ℤ → Bool
is_second none s = false
is_second (some t) s = eqb_ℤ t s

-- `e.epochs[i] === s`
abbrev pub epoch_is : EdgeState → ℕ → ℤ → Bool
epoch_is e i s = is_second (get_elem? e.epochs i) s

-- `ring[k] = v`
unfoldable pub store : List ℕ → ℕ → ℕ → List ℕ
store ring k v = set ring k (uint32 v)

-- `ring[k] = (ring[k] ?? 0) + v`
unfoldable pub bump : List ℕ → ℕ → ℕ → List ℕ
unfolding store
bump ring k v = store ring k (get_or ring k 0 + v)

unfoldable pub store_row : List ℕ → ℕ → ℕ → ℕ → ℕ → ℕ → List ℕ
store_row ring i f d a er =
    store (store (store (store ring (i * 4) f) (i * 4 + 1) d) (i * 4 + 2) a) (i * 4 + 3) er

unfoldable pub bump_row : List ℕ → ℕ → ℕ → ℕ → ℕ → ℕ → List ℕ
bump_row ring i f d a er =
    bump (bump (bump (bump ring (i * 4) f) (i * 4 + 1) d) (i * 4 + 2) a) (i * 4 + 3) er

-- `retention` is `this.retention`.
unfoldable pub set_bucket : ℕ → EdgeState → Bucket → EdgeState
set_bucket retention e b =
    let i = slot_of b.sec retention in
    record e { ring = store_row e.ring i b.f b.d b.a b.e; epochs = set e.epochs i b.sec }

-- `for (const b of e.buckets ?? []) this.setBucket(es, b)`
unfoldable pub set_buckets : ℕ → EdgeState → List Bucket → EdgeState
set_buckets n e [] = e
set_buckets n e (b ∷ bs) = set_buckets n (set_bucket n e b) bs

-- `ring.fill(0, i * 4, i * 4 + 4)` writes the row with zeros.
unfoldable pub add_bucket : ℕ → EdgeState → ℤ → ℕ → ℕ → ℕ → ℕ → EdgeState
add_bucket retention e sec f d a er =
    let i = slot_of sec retention in
    let current = epoch_is e i sec in
    let ring = if current then e.ring else store_row e.ring i 0 0 0 0 in
    let epochs = if current then e.epochs else set e.epochs i sec in
    record e { ring = bump_row ring i f d a er; epochs = epochs }

-- What the loops of `rate` and `series` read for second `s`.
unfoldable pub read : ℕ → EdgeState → ℤ → Counts
read n e s =
    let i = slot_of s n in
    if epoch_is e i s
    then record {
      f = get_or e.ring (i * 4) 0;
      d = get_or e.ring (i * 4 + 1) 0;
      a = get_or e.ring (i * 4 + 2) 0;
      e = get_or e.ring (i * 4 + 3) 0;
    }
    else record { f = 0; d = 0; a = 0; e = 0 }

abbrev pub add_counts : Counts → Counts → Counts
add_counts x y = record { f = x.f + y.f; d = x.d + y.d; a = x.a + y.a; e = x.e + y.e }

abbrev pub total : Counts → ℕ
total c = c.f + c.d + c.a + c.e

-- `nowSec - w + 1`
abbrev pub first_second : ℤ → ℕ → ℤ
first_second now w = now +ℤ sub_ℕ 1 w

-- The loop of `rate`, from second `s` for the seconds left; skipping a second adds zeros.
unfoldable pub rate_loop : ℕ → EdgeState → ℕ → ℤ → Counts → Counts
rate_loop n e zero s out = out
rate_loop n e (suc left) s out = rate_loop n e left (s +ℤ pos 1) (add_counts out (read n e s))

-- Events per second: each counter divided by `per`.
pub record Rate : Type 0 where
  pub events : Counts
  pub per : ℕ

unfoldable pub rate : ℕ → EdgeState → ℕ → ℤ → Rate
unfolding rate_loop
rate retention e window_sec now_sec =
    let w = min window_sec retention in
    record {
      events =
          rate_loop retention e w (first_second now_sec w) (record { f = 0; d = 0; a = 0; e = 0 });
      per = w;
    }

-- `r[0] + r[1] + r[2] + r[3]`
abbrev pub per_second : Rate → Double
per_second r =
    sum
      (sum (sum (quotient r.events.f r.per) (quotient r.events.d r.per))
        (quotient r.events.a r.per))
      (quotient r.events.e r.per)

unfoldable pub series_loop : ℕ → EdgeState → ℕ → ℤ → List ℕ
series_loop n e zero s = []
series_loop n e (suc left) s = total (read n e s) ∷ series_loop n e left (s +ℤ pos 1)

unfoldable pub series : ℕ → EdgeState → ℕ → ℤ → List ℕ
unfolding series_loop
series retention e window_sec now_sec =
    let w = min window_sec retention in series_loop retention e w (first_second now_sec w)
