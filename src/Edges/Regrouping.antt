-- ===== src/Edges/Regrouping.antt =====
-- The platforms regroup: the slots stay where they are.
use mathlib.Core.Option
use mathlib.Core.Option.{some-injective}
use flowscape.Base.{ℕ, String, Bool, ◌≡◌, ◌∙◌, sym, ap, subst, Option-cases, inl, inr}
use flowscape.Base.Dict
use flowscape.Base.Dict.{Dict}
use flowscape.GraphState.Types.{EdgeState}
use flowscape.Edges.Types.{EdgeSlot, Edges}
use flowscape.Edges.Operations.{set_same, stays_low}
use flowscape.Edges.Ownership.{IsSlot, IsValid}

module _ {A : Type 0} (capacity : ℕ) (full : A) where
  pub set_same-IsValid :
      (e : Edges A) (same : String → String → Bool) (edges : Dict EdgeState)
      → IsValid capacity e
      → IsValid capacity (set_same capacity full e same edges)
  unfolding set_same
  set_same-IsValid e same edges v = record {
    batches_size = v.batches_size;
    cells_size = v.cells_size;
    slot = λ id s found. elim (Option-cases (Dict.get id e.slots)) [
      | inl n ↦
          let k =
            sym (ap (Option.map regroup) n)
            ∙ sym (Dict.get-map_values regroup id e.slots)
            ∙ found in
          absurd (cc)
      | inr (t, n) ↦
          let same_slot : regroup t ≡ s = some-injective (regroup t) s (
            sym (ap (Option.map regroup) n)
            ∙ sym (Dict.get-map_values regroup id e.slots)
            ∙ found) in
          subst (IsSlot capacity (set_same capacity full e same edges) id) same_slot (
            let k = v.slot id t n in
            record {
              named = k.named;
              width = k.width;
              fits = k.fits;
              cell = k.cell;
              owned = k.owned;
            })
    ];
    held = λ cp id h.
        let (s, found, at) = v.held cp id h in
        (regroup s, Dict.get-map_values regroup id e.slots ∙ ap (Option.map regroup) found, at);
    free = v.free;
    in_range = v.in_range;
    distinct = v.distinct;
  }
    where
      regroup : EdgeSlot A → EdgeSlot A
      regroup s = record s { same = stays_low capacity full same s.same (Dict.get s.id edges) }
