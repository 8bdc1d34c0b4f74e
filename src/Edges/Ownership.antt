-- ===== src/Edges/Ownership.antt =====
-- Ids and slots belong to each other: what every operation of `Edges` keeps.
use flowscape.Base.{
  ℕ, zero, suc, ◌≤◌, ◌⊎◌, inl, inr, ◌+◌, ◌*◌, ◌<◌, String, Bool, true, false, ◌≡◌, refl, ◌∙◌, sym,
  ap, [], Option, none, some, length, replicate, get_or-replicate, length-replicate, get_or, arith,
  if◌then◌else◌,
}
use flowscape.Base.Dict
use flowscape.Edges.Types.{widths, EdgeSlot, Edges, batch_of, owner, count_up, no_batch, Batch}
use flowscape.Edges.Operations.{init}
use flowscape.Edges.Cells.{listed, Distinct, listed-count_up, count_up-Distinct}

abbrev pub is_none {ℓ} : {A : Type ℓ} → Option A → Bool
is_none none = true
is_none (some x) = false

pub free_if : (t : Bool) (x y : Batch) → (if t then x else y).free ≡ (if t then x.free else y.free)
free_if true x y = refl
free_if false x y = refl

module _ {A : Type 0} (capacity : ℕ) where
  -- The slot that an id has.
  pub record IsSlot (e : Edges A) (id : String) (s : EdgeSlot A) : Type 0 where
    pub named : s.id ≡ id
    pub width : s.batch < widths
    pub fits : s.index < capacity
    pub cell : s.cp ≡ s.batch * capacity + s.index
    pub owned : owner e s.cp ≡ some id

  -- Each id has a cell that holds it and nobody else's; a slot is free exactly when its cell holds
  -- nothing, and is free once.
  pub record IsValid (e : Edges A) : Type 0 where
    pub batches_size : length e.batches ≡ widths
    pub cells_size : length e.by_slot ≡ widths * capacity
    pub slot : (id : String) (s : EdgeSlot A) → Dict.get id e.slots ≡ some s → IsSlot e id s
    pub held :
        (cp : ℕ) (id : String)
        → owner e cp ≡ some id
        → (s : EdgeSlot A) × (Dict.get id e.slots ≡ some s) × (s.cp ≡ cp)
    pub free :
        (b i : ℕ)
        → b < widths
        → i < capacity
        → listed i (batch_of e b).free ≡ is_none (owner e (b * capacity + i))
    pub in_range : (b i : ℕ) → listed i (batch_of e b).free ≡ true → i < capacity
    pub distinct : (b : ℕ) → Distinct (batch_of e b).free

abbrev fresh : ℕ → Batch
fresh capacity = record { free = count_up 0 capacity; pos_dirty = false; col_dirty = false }

-- Past the last batch there is none.
fresh_batch :
    (capacity b : ℕ)
    → ((b < widths) × (get_or (replicate widths (fresh capacity)) b no_batch ≡ fresh capacity))
      ⊎ ((widths ≤ b) × (get_or (replicate widths (fresh capacity)) b no_batch ≡ no_batch))
fresh_batch capacity zero = inl (omega arith, refl)
fresh_batch capacity (suc zero) = inl (omega arith, refl)
fresh_batch capacity (suc (suc zero)) = inl (omega arith, refl)
fresh_batch capacity (suc (suc (suc b))) = inr (omega arith, refl)

listed-nil : (i : ℕ) → listed i [] ≡ false
unfolding listed
listed-nil i = refl

module _ {A : Type 0} (capacity : ℕ) (full : A) where
  fresh-free :
      (b i : ℕ)
      → b < widths
      → i < capacity
      → listed i (batch_of (init capacity full) b).free
        ≡ is_none (owner (init capacity full) (b * capacity + i))
  unfolding init
  fresh-free b i w f = elim (fresh_batch capacity b) [
    | inl (w', e) ↦
        rw (e, get_or-replicate {A = Option String} (widths * capacity) (b * capacity + i) none)
          (rw (listed-count_up i 0 capacity) (ground arith))
    | inr (w', e) ↦ absurd (omega arith)
  ]

  fresh-in_range : (b i : ℕ) → listed i (batch_of (init capacity full) b).free ≡ true → i < capacity
  unfolding init
  fresh-in_range b i h = elim (fresh_batch capacity b) [
    | inl (w', e) ↦
        let k = sym (listed-count_up i 0 capacity) ∙ sym (ap (λ x. listed i x.free) e) ∙ h in
        ground arith
    | inr (w', e) ↦
        let k = sym (listed-nil i) ∙ sym (ap (λ x. listed i x.free) e) ∙ h in absurd (cc)
  ]

  fresh-Distinct : (b : ℕ) → Distinct (batch_of (init capacity full) b).free
  unfolding init
  fresh-Distinct b = elim (fresh_batch capacity b) [
    | inl (w', e) ↦ rw e (count_up-Distinct 0 capacity)
    | inr (w', e) ↦ rw e tt
  ]

  -- A new renderer: every slot is free.
  pub init-IsValid : IsValid capacity (init capacity full)
  unfolding init Dict.get
  init-IsValid = record {
    batches_size = refl;
    cells_size = length-replicate (widths * capacity) none;
    slot = λ id s e. absurd (cc);
    held = λ cp id e.
        let n = get_or-replicate {A = Option String} (widths * capacity) cp none in absurd (cc);
    free = λ b i w f. fresh-free b i w f;
    in_range = λ b i h. fresh-in_range b i h;
    distinct = λ b. fresh-Distinct b;
  }
