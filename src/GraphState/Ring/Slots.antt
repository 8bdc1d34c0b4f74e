-- ===== src/GraphState/Ring/Slots.antt =====
-- Where a second goes in the ring.
use native.Mathlib.Decide.{dec_le}
use native.Mathlib.Nat.{
  div-add-mod', mod-lt, mod-mod, mod-eq_of_lt, add-mod_right, mul-le-mul_right, suc-mul,
}
use flowscape.Base.{ℕ, zero, suc, ◌+◌, ◌-◌, ◌*◌, ◌/◌, ◌%◌, ◌≤◌, ◌<◌, ◌≡◌, ◌≢◌, ◌∙◌, arith}
use flowscape.Base.Int.{ℤ, pos, negsuc, pos_part, neg_part, ◌<ℤ◌}
use flowscape.GraphState.Ring.{slot_of}

slot_of-pos : (a n : ℕ) → 0 < n → slot_of (pos a) n ≡ a % n
unfolding slot_of
slot_of-pos a n h = ground (arith, add-mod_right (a % n) n, mod-mod a n)

slot_of-negsuc : (a n : ℕ) → 0 < n → slot_of (negsuc a) n ≡ (n - suc a % n) % n
unfolding slot_of
slot_of-negsuc a n h = ground (arith, mod-lt (suc a) h)

pub slot_of-lt : (s : ℤ) (n : ℕ) → 0 < n → slot_of s n < n
slot_of-lt (pos a) n h = rw (slot_of-pos a n h) (mod-lt a h)
slot_of-lt (negsuc a) n h = rw (slot_of-negsuc a n h) (mod-lt (n - suc a % n) h)

-- A second and its slot differ by a multiple of the size.
pos_multiple : (a n : ℕ) → 0 < n → (q : ℕ) × (a ≡ slot_of (pos a) n + q * n)
pos_multiple a n h = (a / n, omega (arith, slot_of-pos a n h, div-add-mod' a n))

mod_self : (n : ℕ) → 0 < n → n % n ≡ 0
mod_self n h = let e : 0 + n ≡ n = omega arith in rw e at (add-mod_right 0 n) ∙ mod-eq_of_lt h

-- Counted back from the end of the ring, the first slot stands for the end.
back_from_end : (q r n : ℕ) → r < n → (p : ℕ) × ((n - r) % n + (q * n + r) ≡ p * n)
back_from_end q zero n h =
    let whole : n - 0 ≡ n = omega arith in (q, rw (whole, mod_self n h) (omega arith))
back_from_end q (suc r) n h =
    (suc q, omega (arith, suc-mul q n, mod-eq_of_lt {n = n - suc r} {m = n} (omega arith)))

negsuc_multiple : (a n : ℕ) → 0 < n → (q : ℕ) × (slot_of (negsuc a) n + suc a ≡ q * n)
negsuc_multiple a n h =
    let (q, e) = back_from_end (suc a / n) (suc a % n) n (mod-lt (suc a) h) in
    (q, omega (arith, slot_of-negsuc a n h, div-add-mod' (suc a) n, e))

no_multiple_between : (p q n : ℕ) → p * n < q * n → p * n + n ≤ q * n
no_multiple_between p q n h = elim (dec_le q p) [
  | yes le ↦ absurd (omega (arith, mul-le-mul_right n le))
  | no gt ↦
      let above : suc p ≤ q = omega arith in omega (arith, mul-le-mul_right n above, suc-mul p n)
]

-- `t < s + n`.
abbrev pub Within : ℕ → ℤ → ℤ → Type 0
Within n s t = pos_part t + neg_part s < pos_part s + neg_part t + n

-- Two different seconds less than the size apart have different slots.
pub slot_of-ne : (s t : ℤ) (n : ℕ) → 0 < n → s <ℤ t → Within n s t → slot_of s n ≢ slot_of t n
slot_of-ne (pos a) (pos b) n h before near e =
    let (p, ea) = pos_multiple a n h in
    let (q, eb) = pos_multiple b n h in
    omega (arith, ea, eb, no_multiple_between p q n (omega (arith, ea, eb)))
slot_of-ne (negsuc a) (pos b) n h before near e =
    let (p, ea) = negsuc_multiple a n h in
    let (q, eb) = pos_multiple b n h in
    omega (arith, ea, eb, no_multiple_between 0 (p + q) n (omega (arith, ea, eb)))
slot_of-ne (negsuc a) (negsuc b) n h before near e =
    let (p, ea) = negsuc_multiple a n h in
    let (q, eb) = negsuc_multiple b n h in
    omega (arith, ea, eb, no_multiple_between q p n (omega (arith, ea, eb)))
slot_of-ne (pos a) (negsuc b) n h before near e = absurd (omega arith)
