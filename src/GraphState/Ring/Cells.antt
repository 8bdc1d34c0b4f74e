-- ===== src/GraphState/Ring/Cells.antt =====
-- Reads of the ring after writes: the counter of one verdict in one slot.
use native.Mathlib.Decide.{ℕ_discrete}
use flowscape.Base.{
  ◌⊎◌, inl, inr, sym, ◌∙◌, refl, ℕ, ◌+◌, ◌*◌, ◌<◌, ◌≡◌, ◌≢◌, List, arith, length, get_or,
  length-set, get_or-set_self, get_or-set_ne, eq_of_get_or,
}
use flowscape.Protocol.{Verdict, forwarded, dropped, audit, error}
use flowscape.GraphState.Types.{Counts, pick}
use flowscape.GraphState.Ring.{uint32, store, bump, store_row, bump_row}

-- The place of the counter of `v` in slot `i`.
abbrev pub cell : ℕ → Verdict → ℕ
cell i forwarded = i * 4
cell i dropped = i * 4 + 1
cell i audit = i * 4 + 2
cell i error = i * 4 + 3

length-store : (r : List ℕ) (k v : ℕ) → length (store r k v) ≡ length r
unfolding store
length-store r k v = length-set r k (uint32 v)

get_or-store_self : (r : List ℕ) (k v : ℕ) → k < length r → get_or (store r k v) k 0 ≡ uint32 v
unfolding store
get_or-store_self r k v h = get_or-set_self r k (uint32 v) 0 h

get_or-store_ne : (r : List ℕ) (k j v : ℕ) → k ≢ j → get_or (store r k v) j 0 ≡ get_or r j 0
unfolding store
get_or-store_ne r k j v h = get_or-set_ne r k j (uint32 v) 0 h

length-bump : (r : List ℕ) (k v : ℕ) → length (bump r k v) ≡ length r
unfolding bump
length-bump r k v = length-store r k (get_or r k 0 + v)

get_or-bump_self :
    (r : List ℕ) (k v : ℕ) → k < length r → get_or (bump r k v) k 0 ≡ uint32 (get_or r k 0 + v)
unfolding bump
get_or-bump_self r k v h = get_or-store_self r k (get_or r k 0 + v) h

get_or-bump_ne : (r : List ℕ) (k j v : ℕ) → k ≢ j → get_or (bump r k v) j 0 ≡ get_or r j 0
unfolding bump
get_or-bump_ne r k j v h = get_or-store_ne r k j (get_or r k 0 + v) h

ruleset stores = (length-store, get_or-store_self, get_or-store_ne)

ruleset bumps = (length-bump, get_or-bump_self, get_or-bump_ne)

pub length-store_row : (r : List ℕ) (i f d a e : ℕ) → length (store_row r i f d a e) ≡ length r
unfolding store_row
length-store_row r i f d a e = simp length-store

pub length-bump_row : (r : List ℕ) (i f d a e : ℕ) → length (bump_row r i f d a e) ≡ length r
unfolding bump_row
length-bump_row r i f d a e = simp length-bump

pub store_row_self :
    (r : List ℕ) (i : ℕ) (c : Counts) (v : Verdict)
    → i * 4 + 3 < length r
    → get_or (store_row r i c.f c.d c.a c.e) (cell i v) 0 ≡ uint32 (pick v c)
unfolding store_row pick
store_row_self r i c forwarded h = grind (arith, stores)
store_row_self r i c dropped h = grind (arith, stores)
store_row_self r i c audit h = grind (arith, stores)
store_row_self r i c error h = grind (arith, stores)

pub store_row_ne :
    (r : List ℕ) (i j : ℕ) (c : Counts) (v : Verdict)
    → i ≢ j
    → get_or (store_row r i c.f c.d c.a c.e) (cell j v) 0 ≡ get_or r (cell j v) 0
unfolding store_row
store_row_ne r i j c forwarded h = grind (arith, stores)
store_row_ne r i j c dropped h = grind (arith, stores)
store_row_ne r i j c audit h = grind (arith, stores)
store_row_ne r i j c error h = grind (arith, stores)

pub bump_row_self :
    (r : List ℕ) (i : ℕ) (c : Counts) (v : Verdict)
    → i * 4 + 3 < length r
    → get_or (bump_row r i c.f c.d c.a c.e) (cell i v) 0 ≡ uint32 (get_or r (cell i v) 0 + pick v c)
unfolding bump_row pick
bump_row_self r i c forwarded h = grind (arith, bumps)
bump_row_self r i c dropped h = grind (arith, bumps)
bump_row_self r i c audit h = grind (arith, bumps)
bump_row_self r i c error h = grind (arith, bumps)

pub bump_row_ne :
    (r : List ℕ) (i j : ℕ) (c : Counts) (v : Verdict)
    → i ≢ j
    → get_or (bump_row r i c.f c.d c.a c.e) (cell j v) 0 ≡ get_or r (cell j v) 0
unfolding bump_row
bump_row_ne r i j c forwarded h = grind (arith, bumps)
bump_row_ne r i j c dropped h = grind (arith, bumps)
bump_row_ne r i j c audit h = grind (arith, bumps)
bump_row_ne r i j c error h = grind (arith, bumps)

-- A place is a counter of the slot, or none of it.
row_cases : (i j : ℕ) → ((v : Verdict) × (cell i v ≡ j)) ⊎ ((v : Verdict) → cell i v ≢ j)
row_cases i j = elim (ℕ_discrete (i * 4) j) [
  | yes e ↦ inl (forwarded, e)
  | no n0 ↦ elim (ℕ_discrete (i * 4 + 1) j) [
    | yes e ↦ inl (dropped, e)
    | no n1 ↦ elim (ℕ_discrete (i * 4 + 2) j) [
      | yes e ↦ inl (audit, e)
      | no n2 ↦ elim (ℕ_discrete (i * 4 + 3) j) [
        | yes e ↦ inl (error, e)
        | no n3 ↦ inr (elim [ forwarded ↦ n0 | dropped ↦ n1 | audit ↦ n2 | error ↦ n3 ])
      ]
    ]
  ]
]

store_row_out :
    (r : List ℕ) (i j f d a e : ℕ)
    → ((v : Verdict) → cell i v ≢ j)
    → get_or (store_row r i f d a e) j 0 ≡ get_or r j 0
unfolding store_row
store_row_out r i j f d a e h =
    get_or-store_ne _ (i * 4 + 3) j e (h error)
    ∙ get_or-store_ne _ (i * 4 + 2) j a (h audit)
    ∙ get_or-store_ne _ (i * 4 + 1) j d (h dropped)
    ∙ get_or-store_ne r (i * 4) j f (h forwarded)

bump_row_out :
    (r : List ℕ) (i j f d a e : ℕ)
    → ((v : Verdict) → cell i v ≢ j)
    → get_or (bump_row r i f d a e) j 0 ≡ get_or r j 0
unfolding bump_row
bump_row_out r i j f d a e h =
    get_or-bump_ne _ (i * 4 + 3) j e (h error)
    ∙ get_or-bump_ne _ (i * 4 + 2) j a (h audit)
    ∙ get_or-bump_ne _ (i * 4 + 1) j d (h dropped)
    ∙ get_or-bump_ne r (i * 4) j f (h forwarded)

abbrev pub no_counts : Counts
no_counts = record { f = 0; d = 0; a = 0; e = 0 }

pub pick-no_counts : (v : Verdict) → pick v no_counts ≡ 0
unfolding pick
pick-no_counts forwarded = refl
pick-no_counts dropped = refl
pick-no_counts audit = refl
pick-no_counts error = refl

module _ (r : List ℕ) (i : ℕ) (c : Counts) (h : i * 4 + 3 < length r) where
  same_counter :
      (j : ℕ)
      → get_or (bump_row (store_row r i 0 0 0 0) i c.f c.d c.a c.e) j 0
        ≡ get_or (store_row r i c.f c.d c.a c.e) j 0
  same_counter j = elim (row_cases i j) [
    | inl (v, e) ↦ rw (← e) (
        omega (
          arith,
          bump_row_self (store_row r i 0 0 0 0) i c v (omega (arith, length-store_row r i 0 0 0 0)),
          store_row_self r i no_counts v h,
          store_row_self r i c v h,
          pick-no_counts v,
        ))
    | inr out ↦
        bump_row_out _ i j c.f c.d c.a c.e out
        ∙ store_row_out r i j 0 0 0 0 out
        ∙ sym (store_row_out r i j c.f c.d c.a c.e out)
  ]

  -- Counting up from a cleared row is the same as storing the row.
  pub bump-store_row :
      bump_row (store_row r i 0 0 0 0) i c.f c.d c.a c.e ≡ store_row r i c.f c.d c.a c.e
  bump-store_row =
      eq_of_get_or _ _ 0
        (omega (
          arith,
          length-bump_row (store_row r i 0 0 0 0) i c.f c.d c.a c.e,
          length-store_row r i 0 0 0 0,
          length-store_row r i c.f c.d c.a c.e,
        ))
        same_counter
