-- ===== src/Edges/Cells.antt =====
-- The cells that the slots of the batches share, and lists of slots without repetition.
use native.Mathlib.Nat.{mul-le-mul_right, suc-mul}
use native.Mathlib.Decide.{dec_lt}
use flowscape.Base.{
  ℕ, zero, suc, ◌+◌, ◌*◌, ◌<◌, Bool, false, ◌&&◌, ◌||◌, ◌≡◌, List, [], ◌∷◌, eqb, ltb, arith,
  if◌then◌else◌,
}
use flowscape.Edges.Types.{count_up}

before : (c b b' i i' : ℕ) → i < c → b < b' → b * c + i < b' * c + i'
before c b b' i i' small less =
    omega (arith, suc-mul b c, mul-le-mul_right {m = suc b} {n = b'} c (omega arith))

-- Two cells are one only for the same slot of the same batch.
pub eqb-cell :
    (c b b' i i' : ℕ) → i < c → i' < c → eqb (b * c + i) (b' * c + i') ≡ eqb b b' && eqb i i'
eqb-cell c b b' i i' small small' = elim (dec_lt b b') [
  | yes less ↦ let k = before c b b' i i' small less in ground arith
  | no not_less ↦ elim (dec_lt b' b) [
    | yes more ↦ let k = before c b' b i' i small' more in ground arith
    | no not_more ↦ let same : b ≡ b' = omega arith in rw same (ground arith)
  ]
]

pub cell-lt : (c w b i : ℕ) → i < c → b < w → b * c + i < w * c
cell-lt c w b i small less = omega (arith, before c b w i 0 small less)

unfoldable pub listed : ℕ → List ℕ → Bool
listed i [] = false
listed i (j ∷ js) = eqb j i || listed i js

abbrev pub Distinct : List ℕ → Type 0
Distinct [] = Unit {0}
Distinct (i ∷ is) = (listed i is ≡ false) × Distinct is

pub listed-count_up :
    (i a n : ℕ) → listed i (count_up a n) ≡ (if ltb i a then false else ltb i (a + n))
unfolding listed count_up
listed-count_up i a zero = ground arith
listed-count_up i a (suc n) = ground (arith, listed-count_up i (suc a) n)

pub count_up-Distinct : (a n : ℕ) → Distinct (count_up a n)
unfolding count_up
count_up-Distinct a zero = tt
count_up-Distinct a (suc n) =
    (rw (listed-count_up a (suc a) n) (ground arith), count_up-Distinct (suc a) n)
