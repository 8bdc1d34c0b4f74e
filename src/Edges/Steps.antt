-- ===== src/Edges/Steps.antt =====
-- The operations of `Edges`: each keeps ids and slots together.
use mathlib.Core.Option
use mathlib.Core.Option.{some-injective}
use flowscape.Base.{
  ℕ, ◌<◌, String, Bool, false, ◌≡◌, refl, ◌∙◌, sym, ap, subst, List, [], ◌∷◌, none, some, arith,
  eqb, ◌===◌, Option-cases, ◌⊎◌, inl, inr, Bool-cases,
}
use flowscape.Base.Dict
use flowscape.Base.Doubles.{Double}
use flowscape.GraphState.Types.{EdgeState}
use flowscape.Edges.Types.{widths, wanted, EdgeSlot, Edges, batch_of, owner}
use flowscape.Edges.Operations.{occupy, place, vacate, carry, add, remove, set_rate}
use flowscape.Edges.Ownership.{IsSlot, IsValid}
use flowscape.Edges.Placing.{occupy-IsValid}
use flowscape.Edges.Vacating.{vacate-IsValid, slot-gone}

pub List-cases : (xs : List ℕ) → (xs ≡ []) ⊎ ((i : ℕ) × (is : List ℕ) × (xs ≡ i ∷ is))
List-cases [] = inl refl
List-cases (i ∷ is) = inr (i, is, refl)

pub wanted-lt : (r : Double) → wanted r < widths
wanted-lt r = ground arith

-- What a change of a slot object leaves alone.
pub record IsInPlace {A : Type 0} (f : EdgeSlot A → EdgeSlot A) : Type 0 where
  pub id_same : (s : EdgeSlot A) → (f s).id ≡ s.id
  pub batch_same : (s : EdgeSlot A) → (f s).batch ≡ s.batch
  pub index_same : (s : EdgeSlot A) → (f s).index ≡ s.index
  pub cp_same : (s : EdgeSlot A) → (f s).cp ≡ s.cp

module _ {A : Type 0} (capacity : ℕ) (full : A) (e : Edges A) (v : IsValid capacity e) where
  pub place-full :
      (id : String) (b : ℕ) (same : Bool)
      → (batch_of e b).free ≡ []
      → place capacity full e id b same ≡ none
  unfolding place
  place-full id b same empty = rw (empty, place) refl

  pub place-free :
      (id : String) (b : ℕ) (same : Bool) (i : ℕ) (is : List ℕ)
      → (batch_of e b).free ≡ i ∷ is
      → place capacity full e id b same ≡ some (occupy capacity full e id b same i is)
  unfolding place
  place-free id b same i is top = rw (top, place) refl

  place-IsValid :
      (id : String) (b : ℕ) (same : Bool)
      → Dict.get id e.slots ≡ none
      → b < widths
      → (place capacity full e id b same ≡ none)
        ⊎ ((e' : Edges A) × (place capacity full e id b same ≡ some e') × IsValid capacity e')
  place-IsValid id b same new w = elim (List-cases (batch_of e b).free) [
    | inl empty ↦ inl (place-full id b same empty)
    | inr (i, is, top) ↦ inr (
      occupy capacity full e id b same i is,
      place-free id b same i is top,
      occupy-IsValid capacity full e v id b same i is new w top,
    )
  ]

  module _ (f : EdgeSlot A → EdgeSlot A) (stays : IsInPlace f) (id : String) where
    abbrev changed : Edges A
    changed = record e { slots = Dict.modify id f e.slots }

    -- A slot object that changed stands where it stood.
    slots-changed :
        (j : String) (s : EdgeSlot A)
        → Dict.get j e.slots ≡ some s
        → (t : EdgeSlot A) × (Dict.get j changed.slots ≡ some t) × (t.cp ≡ s.cp)
    slots-changed j s found = elim (Bool-cases (id === j)) [
      | inl q ↦ (f s, rw (Dict.get-modify id j f e.slots, q, found) refl, stays.cp_same s)
      | inr q ↦ (s, rw (Dict.get-modify id j f e.slots, q) found, refl)
    ]

    IsSlot-changed :
        (j : String) (t : EdgeSlot A)
        → Dict.get j changed.slots ≡ some t
        → IsSlot capacity changed j t
    IsSlot-changed j t found = elim (Bool-cases (id === j)) [
      | inl q ↦ elim (Option-cases (Dict.get j e.slots)) [
        | inl n ↦
            let k : Option.map f (Dict.get j e.slots) ≡ some t =
              rw (Dict.get-modify id j f e.slots, q) at found in
            let k' = sym (ap (Option.map f) n) ∙ k in absurd (cc)
        | inr (s, o) ↦
            let k : Option.map f (Dict.get j e.slots) ≡ some t =
              rw (Dict.get-modify id j f e.slots, q) at found in
            let k' : f s ≡ t = some-injective (f s) t (sym (ap (Option.map f) o) ∙ k) in
            let old = v.slot j s o in
            subst (IsSlot capacity changed j) k' (record {
              named = stays.id_same s ∙ old.named;
              width = subst (λ x. x < widths) (sym (stays.batch_same s)) old.width;
              fits = subst (λ x. x < capacity) (sym (stays.index_same s)) old.fits;
              cell = rw (stays.cp_same s, stays.batch_same s, stays.index_same s) old.cell;
              owned = ap (owner e) (stays.cp_same s) ∙ old.owned;
            })
      ]
      | inr q ↦
          let old = v.slot j t (rw (Dict.get-modify id j f e.slots, q) at found) in
          record {
            named = old.named;
            width = old.width;
            fits = old.fits;
            cell = old.cell;
            owned = old.owned;
          }
    ]

    pub changed-IsValid : IsValid capacity changed
    changed-IsValid = record {
      batches_size = v.batches_size;
      cells_size = v.cells_size;
      slot = IsSlot-changed;
      held = λ cp j h.
          let (s, found, at) = v.held cp j h in
          let (t, found', at') = slots-changed j s found in (t, found', at' ∙ at);
      free = v.free;
      in_range = v.in_range;
      distinct = v.distinct;
    }

absent :
    {A : Type 0} (id : String) (e : Edges A)
    → Dict.has id e.slots ≡ false
    → Dict.get id e.slots ≡ none
absent id e h = elim (Option-cases (Dict.get id e.slots)) [
  | inl n ↦ n
  | inr (s, n) ↦ let k = sym h ∙ Dict.has-get id e.slots ∙ ap Dict.is_some n in absurd (cc)
]

module _ {A : Type 0} (capacity : ℕ) (full : A) (e : Edges A) (v : IsValid capacity e) where
  -- To add an arc keeps ids and slots together, whether or not a slot is free.
  pub add-IsValid :
      (edge : EdgeState) (same : Bool) → IsValid capacity (add capacity full e edge same)
  unfolding add
  add-IsValid edge same = elim (Bool-cases (Dict.has edge.id e.slots)) [
    | inl there ↦ rw there v
    | inr new ↦
        rw new
          (elim (place-IsValid capacity full e v edge.id 0 same (absent edge.id e new)
            (omega arith)) [ inl n ↦ rw n v | inr (e', n, k) ↦ rw n k ])
  ]

  pub remove-IsValid : (id : String) → IsValid capacity (remove capacity full e id)
  unfolding remove
  remove-IsValid id = elim (Option-cases (Dict.get id e.slots)) [
    | inl n ↦ rw (n, remove) v
    | inr (s, n) ↦ rw (n, remove) (vacate-IsValid capacity full e v id s n)
  ]

  pub set_rate-IsValid :
      (id : String) (rate : Double) → IsValid capacity (set_rate capacity full e id rate)
  unfolding set_rate
  set_rate-IsValid id rate = elim (Option-cases (Dict.get id e.slots)) [
    | inl n ↦ rw (n, set_rate) v
    | inr (s, n) ↦
        rw (n, set_rate)
          (elim (Bool-cases (eqb (wanted rate) s.batch)) [
            | inl q ↦
                rw q (changed-IsValid capacity full e v (λ t. record t { rate = rate }) in_place id)
            | inr q ↦
                let k = vacate-IsValid capacity full e v id s n in
                rw q
                  (elim (place-IsValid capacity full (vacate capacity full e id s) k id
                    (wanted rate) s.same (slot-gone capacity full e v id s n) (wanted-lt rate)) [
                      | inl m ↦ rw m k
                      | inr (e', m, k') ↦ rw m (
                          changed-IsValid capacity full e' k' (carry capacity full s rate)
                            (carry_in_place s) id)
                    ])
          ])
  ]
    where
      in_place : IsInPlace {A = A} (λ t. record t { rate = rate })
      in_place = record {
        id_same = λ t. refl;
        batch_same = λ t. refl;
        index_same = λ t. refl;
        cp_same = λ t. refl;
      }

      carry_in_place : (s : EdgeSlot A) → IsInPlace (carry capacity full s rate)
      carry_in_place s = record {
        id_same = λ t. refl;
        batch_same = λ t. refl;
        index_same = λ t. refl;
        cp_same = λ t. refl;
      }
