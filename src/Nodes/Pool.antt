-- ===== src/Nodes/Pool.antt =====
-- A map of slots and the indices that they take from a free list.
use native.Mathlib.Decide.{ℕ_discrete}
use mathlib.Core.Option.{some-injective}
use flowscape.Base.{
  ℕ, ◌<◌, String, true, ◌≡◌, refl, ◌∙◌, sym, ap, subst, List, [], ◌∷◌, Option, none, some, arith,
  length, length-set, get_or, get_or-set, set, replicate, length-replicate, get_or-replicate, eqb,
  ===_cases, ===_iff, Option-cases, inl, inr, if◌then◌else◌,
}
use flowscape.Base.Dict
use flowscape.Base.Dict.{Dict}
use flowscape.Edges.Types.{count_up}
use flowscape.Edges.Cells.{listed, Distinct, listed-count_up, count_up-Distinct}
use flowscape.Edges.Ownership.{is_none}

-- `owners` says for each index whose it is.
pub record Pool (S : Type 0) : Type 0 where
  pub slots : Dict S
  pub owners : List (Option String)
  pub free : List ℕ

abbrev pub owner : {S : Type 0} → Pool S → ℕ → Option String
owner p i = get_or p.owners i none

module _ {S : Type 0} (id_of : S → String) (index_of : S → ℕ) (capacity : ℕ) where
  pub record IsSlot (p : Pool S) (id : String) (s : S) : Type 0 where
    pub named : id_of s ≡ id
    pub fits : index_of s < capacity
    pub owned : owner p (index_of s) ≡ some id

  -- Each id has an index that is its own; an index is free exactly when it is nobody's, and is free
  -- once.
  pub record IsValid (p : Pool S) : Type 0 where
    pub size : length p.owners ≡ capacity
    pub slot : (id : String) (s : S) → Dict.get id p.slots ≡ some s → IsSlot p id s
    pub held :
        (i : ℕ) (id : String)
        → owner p i ≡ some id
        → (s : S) × (Dict.get id p.slots ≡ some s) × (index_of s ≡ i)
    pub free : (i : ℕ) → i < capacity → listed i p.free ≡ is_none (owner p i)
    pub in_range : (i : ℕ) → listed i p.free ≡ true → i < capacity
    pub distinct : Distinct p.free

  pub empty-IsValid :
      IsValid (record { slots = []; owners = replicate capacity none; free = count_up 0 capacity })
  unfolding Dict.get
  empty-IsValid = record {
    size = length-replicate capacity none;
    slot = λ id s e. absurd (cc);
    held = λ i id e. let n = get_or-replicate {A = Option String} capacity i none in absurd (cc);
    free = λ i f.
        rw (get_or-replicate {A = Option String} capacity i none)
          (rw (listed-count_up i 0 capacity) (ground arith));
    in_range = λ i h. let k = sym (listed-count_up i 0 capacity) ∙ h in ground arith;
    distinct = count_up-Distinct 0 capacity;
  }

  module _ (p : Pool S) (v : IsValid p) where
    -- The first free index is taken for a new id.
    module _ (id : String) (s : S) (rest : List ℕ) (new : Dict.get id p.slots ≡ none)
        (named : id_of s ≡ id) (top : p.free ≡ index_of s ∷ rest) where
      abbrev pub taken : Pool S
      taken = record {
        slots = Dict.put id s p.slots;
        owners = set p.owners (index_of s) (some id);
        free = rest;
      }

      first : listed (index_of s) p.free ≡ true
      unfolding listed
      first = rw top (ground arith)

      fits : index_of s < capacity
      fits = v.in_range (index_of s) first

      unheld : owner p (index_of s) ≡ none
      unheld =
          let k = sym (v.free (index_of s) fits) ∙ first in
          elim (Option-cases (owner p (index_of s))) [
            | inl n ↦ n
            | inr (x, n) ↦ let q = sym (ap is_none n) ∙ k in absurd (cc)
          ]

      owner-taken : (i : ℕ) → owner taken i ≡ (if eqb (index_of s) i then some id else owner p i)
      owner-taken i =
          get_or-set p.owners (index_of s) i (some id) none (omega (arith, v.size, fits))

      owner_kept : (i : ℕ) (j : String) → owner p i ≡ some j → owner taken i ≡ some j
      owner_kept i j h = elim (ℕ_discrete (index_of s) i) [
        | yes here ↦ let k = sym unheld ∙ ap (owner p) here ∙ h in absurd (cc)
        | no there ↦ rw (owner-taken i) (ground arith)
      ]

      IsSlot-taken : (j : String) (t : S) → Dict.get j taken.slots ≡ some t → IsSlot taken j t
      IsSlot-taken j t found = elim (===_cases id j) [
        | inl (e, q) ↦
            let k : some s ≡ some t = rw (Dict.get-put id j s p.slots, q) at found in
            subst (IsSlot taken j) (some-injective s t k) (record {
              named = named ∙ e;
              fits = fits;
              owned = owner-taken (index_of s) ∙ ground (arith, ap {B = Option String} some e);
            })
        | inr (e, q) ↦
            let old = v.slot j t (rw (Dict.get-put id j s p.slots, q) at found) in
            record {
              named = old.named;
              fits = old.fits;
              owned = owner_kept (index_of t) j old.owned;
            }
      ]

      held-taken :
          (i : ℕ) (j : String)
          → owner taken i ≡ some j
          → (t : S) × (Dict.get j taken.slots ≡ some t) × (index_of t ≡ i)
      held-taken i j h = elim (ℕ_discrete (index_of s) i) [
        | yes here ↦
            let q : id ≡ j = some-injective id j (sym (owner-taken i ∙ ground arith) ∙ h) in
            (s, rw (Dict.get-put id j s p.slots, (===_iff id j).1 q) refl, here)
        | no there ↦
            let (t, found, at) = v.held i j (sym (owner-taken i ∙ ground arith) ∙ h) in
            (t, slot_kept j t found, at)
      ]
        where
          slot_kept :
              (j : String) (t : S) → Dict.get j p.slots ≡ some t → Dict.get j taken.slots ≡ some t
          slot_kept j t found = elim (===_cases id j) [
            | inl (e, q) ↦ let k = sym new ∙ ap (λ x. Dict.get x p.slots) e ∙ found in absurd (cc)
            | inr (e, q) ↦ rw (Dict.get-put id j s p.slots, q) found
          ]

      pub taken-IsValid : IsValid taken
      unfolding listed
      taken-IsValid = record {
        size = length-set p.owners (index_of s) (some id) ∙ v.size;
        slot = IsSlot-taken;
        held = held-taken;
        free = λ i f.
            let d = subst Distinct top v.distinct in
            let old = sym (ap (listed i) top) ∙ v.free i f in rw (owner-taken i) (ground arith);
        in_range = λ i h. v.in_range i (ap (listed i) top ∙ ground arith);
        distinct = (subst Distinct top v.distinct).1;
      }
