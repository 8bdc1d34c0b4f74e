-- ===== src/Edges/Setters.antt =====
-- What the setters leave in the slot of an arc.
use native.Mathlib.Decide.{ℕ_discrete}
use flowscape.Base.{
  ℕ, String, Bool, true, false, ◌≡◌, ◌≢◌, ◌⊎◌, refl, ◌∙◌, sym, ap, [], some, inl, inr, arith, eqb,
  Bool-cases, ===_refl, get_or-set, if◌then◌else◌,
}
use flowscape.Base.Dict
use flowscape.Base.Doubles.{Double}
use flowscape.Transport.WsClient.{same}
use flowscape.GraphState.Types.{Counts}
use flowscape.Edges.Types.{EdgeSlot, Edges, wanted, batch_of, no_batch}
use flowscape.Edges.Operations.{set_rate, set_color, set_hidden}
use flowscape.Edges.Ownership.{IsValid, free_if}
use flowscape.Edges.Lookups.{set_rate-moved}

same_eq : (a b : Bool) → same a b ≡ true → a ≡ b
same_eq true true h = refl
same_eq true false h = absurd (cc)
same_eq false true h = absurd (cc)
same_eq false false h = refl

module _ {A : Type 0} (capacity : ℕ) (full : A) (e : Edges A) (v : IsValid capacity e) (id : String)
    (slot : EdgeSlot A) (there : Dict.get id e.slots ≡ some slot) where
  modified : (f : EdgeSlot A → EdgeSlot A) → Dict.get id (Dict.modify id f e.slots) ≡ some (f slot)
  modified f = rw (Dict.get-modify id id f e.slots, ===_refl id, there) refl

  pub set_hidden-slot :
      (h : Bool)
      → (s : EdgeSlot A) × (Dict.get id (set_hidden capacity full e id h).slots ≡ some s)
        × (s.hidden ≡ h)
        × (s.batch ≡ slot.batch)
  unfolding set_hidden
  set_hidden-slot h = elim (Bool-cases (same slot.hidden h)) [
    | inl q ↦ (slot, rw (there, set_hidden) (rw q there), same_eq slot.hidden h q, refl)
    | inr q ↦ (
      record slot { hidden = h },
      rw (there, set_hidden) (rw q (modified (λ s. record s { hidden = h }))),
      refl,
      refl,
    )
  ]

  if_same :
      (b : ℕ)
      → (if eqb slot.batch b then (batch_of e slot.batch).free else (batch_of e b).free)
        ≡ (batch_of e b).free
  if_same b = ground arith

  pub set_hidden-free :
      (h : Bool) (b : ℕ) → (batch_of (set_hidden capacity full e id h) b).free ≡ (batch_of e b).free
  unfolding set_hidden
  set_hidden-free h b =
      rw (there, set_hidden)
        (elim (Bool-cases (same slot.hidden h)) [
          | inl q ↦ rw q refl
          | inr q ↦ rw q (
              ap (λ x. x.free)
                (get_or-set e.batches slot.batch b _ no_batch
                  (omega (arith, v.batches_size, (v.slot id slot there).width)))
              ∙ free_if (eqb slot.batch b) _ _
              ∙ if_same b)
        ])

  pub set_rate-slot :
      (rate : Double)
      → (wanted rate ≡ slot.batch) ⊎ ((batch_of e (wanted rate)).free ≢ [])
      → (s : EdgeSlot A) × (Dict.get id (set_rate capacity full e id rate).slots ≡ some s)
        × (s.batch ≡ wanted rate)
        × (s.hidden ≡ slot.hidden)
        × (s.rate ≡ rate)
  unfolding set_rate
  set_rate-slot rate room = elim (ℕ_discrete (wanted rate) slot.batch) [
    | yes stays ↦
        let q : eqb (wanted rate) slot.batch ≡ true = ground arith in
        (
          record slot { rate = rate },
          rw (there, set_rate) (rw q (modified (λ s. record s { rate = rate }))),
          sym stays,
          refl,
          refl,
        )
    | no moves ↦ elim room [
      | inl stays ↦ absurd (moves stays)
      | inr free ↦
          let (s, found, b, r, c, a, h, m) =
            set_rate-moved capacity full e v id slot there rate moves free in
          (s, found, b, h, r)
    ]
  ]

  pub set_color-slot :
      (counts : Counts) (alpha : A)
      → (s : EdgeSlot A) × (Dict.get id (set_color capacity full e id counts alpha).slots ≡ some s)
        × (s.colour ≡ some counts)
        × (s.alpha ≡ alpha)
        × (s.batch ≡ slot.batch)
        × (s.hidden ≡ slot.hidden)
        × (s.rate ≡ slot.rate)
  unfolding set_color
  set_color-slot counts alpha = (
    record slot { colour = some counts; alpha = alpha },
    rw (there, set_color) (modified (λ s. record s { colour = some counts; alpha = alpha })),
    refl,
    refl,
    refl,
    refl,
    refl,
  )
