-- ===== src/Nodes/Release.antt =====
-- A slot is given back to a pool, or its object changes in place.
use native.Mathlib.Decide.{ℕ_discrete}
use mathlib.Core.Option
use mathlib.Core.Option.{some-injective}
use flowscape.Base.{
  ℕ, ◌<◌, String, ◌≡◌, ◌≢◌, refl, ◌∙◌, sym, ap, subst, ◌∷◌, Option, none, some, arith, length-set,
  get_or-set, set, eqb, ◌===◌, ===_cases, Bool-cases, Option-cases, inl, inr, if◌then◌else◌,
}
use flowscape.Base.Dict
use flowscape.Edges.Cells.{listed}
use flowscape.Edges.Ownership.{is_none}
use flowscape.Nodes.Pool.{Pool, owner, IsSlot, IsValid}

module _ {S : Type 0} (id_of : S → String) (index_of : S → ℕ) (capacity : ℕ) (p : Pool S)
    (v : IsValid id_of index_of capacity p) where
  module _ (id : String) (s : S) (there : Dict.get id p.slots ≡ some s) where
    abbrev pub freed : Pool S
    freed = record {
      slots = Dict.delete id p.slots;
      owners = set p.owners (index_of s) none;
      free = index_of s ∷ p.free;
    }

    mine : IsSlot id_of index_of capacity p id s
    mine = v.slot id s there

    owner-freed : (i : ℕ) → owner freed i ≡ (if eqb (index_of s) i then none else owner p i)
    owner-freed i = get_or-set p.owners (index_of s) i none none (omega (arith, v.size, mine.fits))

    owner_there : (i : ℕ) → index_of s ≢ i → owner freed i ≡ owner p i
    owner_there i away = rw (owner-freed i) (ground arith)

    owner_here : owner freed (index_of s) ≡ none
    owner_here = rw (owner-freed (index_of s)) (ground arith)

    IsSlot-freed :
        (j : String) (t : S)
        → Dict.get j freed.slots ≡ some t
        → IsSlot id_of index_of capacity freed j t
    IsSlot-freed j t found = elim (===_cases id j) [
      | inl (e, q) ↦
          let k : ◌≡◌ {A = Option S} none (some t) =
            rw (Dict.get-delete id j p.slots, q) at found in
          absurd (cc)
      | inr (e, q) ↦
          let old = v.slot j t (rw (Dict.get-delete id j p.slots, q) at found) in
          let away : index_of s ≢ index_of t =
            λ at. e (some-injective id j (sym mine.owned ∙ ap (owner p) at ∙ old.owned)) in
          record {
            named = old.named;
            fits = old.fits;
            owned = owner_there (index_of t) away ∙ old.owned;
          }
    ]

    held-freed :
        (i : ℕ) (j : String)
        → owner freed i ≡ some j
        → (t : S) × (Dict.get j freed.slots ≡ some t) × (index_of t ≡ i)
    held-freed i j h = elim (ℕ_discrete (index_of s) i) [
      | yes here ↦ let k = sym owner_here ∙ ap (owner freed) here ∙ h in absurd (cc)
      | no away ↦
          let (t, found, at) = v.held i j (sym (owner_there i away) ∙ h) in
          elim (===_cases id j) [
            | inl (e, q) ↦ absurd (
                away (
                  ap index_of
                    (some-injective s t (sym there ∙ ap (λ x. Dict.get x p.slots) e ∙ found))
                  ∙ at))
            | inr (e, q) ↦ (t, rw (Dict.get-delete id j p.slots, q) found, at)
          ]
    ]

    pub freed-IsValid : IsValid id_of index_of capacity freed
    unfolding listed
    freed-IsValid = record {
      size = length-set p.owners (index_of s) none ∙ v.size;
      slot = IsSlot-freed;
      held = held-freed;
      free = λ i f. let old = v.free i f in rw (owner-freed i) (ground arith);
      in_range = λ i h. let old = v.in_range i in let f = mine.fits in ground arith;
      distinct = (v.free (index_of s) mine.fits ∙ ap is_none mine.owned, v.distinct);
    }

  -- Slots that keep their ids and indices serve as well.
  pub same-IsValid :
      (slots : Dict.Dict S)
      → ((j : String) (t : S)
          → Dict.get j slots ≡ some t
          → (s : S) × (Dict.get j p.slots ≡ some s)
            × (id_of t ≡ id_of s)
            × (index_of t ≡ index_of s))
      → ((j : String) (s : S)
          → Dict.get j p.slots ≡ some s
          → (t : S) × (Dict.get j slots ≡ some t) × (index_of t ≡ index_of s))
      → IsValid id_of index_of capacity (record p { slots = slots })
  same-IsValid slots back forth = record {
    size = v.size;
    slot = λ j t found.
        let (s, old, named, at) = back j t found in
        let k = v.slot j s old in
        record {
          named = named ∙ k.named;
          fits = subst (λ i. i < capacity) (sym at) k.fits;
          owned = ap (owner p) at ∙ k.owned;
        };
    held = λ i j h.
        let (s, found, at) = v.held i j h in
        let (t, found', at') = forth j s found in (t, found', at' ∙ at);
    free = v.free;
    in_range = v.in_range;
    distinct = v.distinct;
  }

  module _ (f : S → S) (named : (s : S) → id_of (f s) ≡ id_of s)
      (placed : (s : S) → index_of (f s) ≡ index_of s) where
    -- A change of every slot object.
    pub map_values-IsValid :
        IsValid id_of index_of capacity (record p { slots = Dict.map_values f p.slots })
    map_values-IsValid =
        same-IsValid (Dict.map_values f p.slots)
          (λ j t found. elim (Option-cases (Dict.get j p.slots)) [
            | inl n ↦
                let k = sym (ap (Option.map f) n) ∙ sym (Dict.get-map_values f j p.slots) ∙ found in
                absurd (cc)
            | inr (s, n) ↦
                let k =
                  some-injective (f s) t
                    (sym (ap (Option.map f) n) ∙ sym (Dict.get-map_values f j p.slots) ∙ found) in
                (s, n, sym (ap id_of k) ∙ named s, sym (ap index_of k) ∙ placed s)
          ])
          (λ j s found. (f s, Dict.get-map_values f j p.slots ∙ ap (Option.map f) found, placed s))

    -- A change of one.
    pub modify-IsValid :
        (id : String)
        → IsValid id_of index_of capacity (record p { slots = Dict.modify id f p.slots })
    modify-IsValid id = same-IsValid (Dict.modify id f p.slots) back forth
      where
        back :
            (j : String) (t : S)
            → Dict.get j (Dict.modify id f p.slots) ≡ some t
            → (s : S) × (Dict.get j p.slots ≡ some s)
              × (id_of t ≡ id_of s)
              × (index_of t ≡ index_of s)
        back j t found = elim (Bool-cases (id === j)) [
          | inl q ↦ elim (Option-cases (Dict.get j p.slots)) [
            | inl n ↦
                let k : Option.map f (Dict.get j p.slots) ≡ some t =
                  rw (Dict.get-modify id j f p.slots, q) at found in
                let k' = sym (ap (Option.map f) n) ∙ k in absurd (cc)
            | inr (s, n) ↦
                let k : Option.map f (Dict.get j p.slots) ≡ some t =
                  rw (Dict.get-modify id j f p.slots, q) at found in
                let same = some-injective (f s) t (sym (ap (Option.map f) n) ∙ k) in
                (s, n, sym (ap id_of same) ∙ named s, sym (ap index_of same) ∙ placed s)
          ]
          | inr q ↦ (t, rw (Dict.get-modify id j f p.slots, q) at found, refl, refl)
        ]

        forth :
            (j : String) (s : S)
            → Dict.get j p.slots ≡ some s
            → (t : S) × (Dict.get j (Dict.modify id f p.slots) ≡ some t) × (index_of t ≡ index_of s)
        forth j s found = elim (Bool-cases (id === j)) [
          | inl q ↦ (f s, rw (Dict.get-modify id j f p.slots, q, found) refl, placed s)
          | inr q ↦ (s, rw (Dict.get-modify id j f p.slots, q) found, refl)
        ]
