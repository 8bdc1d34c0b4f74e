-- ===== src/Edges/Calls.antt =====
-- Whatever the frame loop asks of the arcs, ids and slots stay together.
use flowscape.Base.{
  ℕ, zero, suc, ◌<◌, String, Bool, true, ◌≡◌, refl, ◌∙◌, sym, ap, List, [], ◌∷◌, map, foldl,
  foldl_keeps, Option, none, some, arith, length, length-set, get_or, get_or-set, eqb,
  if◌then◌else◌, Option-cases, Bool-cases, inl, inr,
}
use flowscape.Base.Dict
use flowscape.Transport.WsClient.{same}
use flowscape.GraphState.Types.{Counts}
use flowscape.Edges.Types.{Batch, no_batch, widths, Edges, batch_of, with_batch}
use flowscape.Edges.Operations.{init, set_color, set_hidden, emphasise_node, perform}
use flowscape.Edges.Types.{Call, adds, removes, rates, colours, hides, emphasises, regroups}
use flowscape.Edges.Ownership.{IsValid, free_if, init-IsValid}
use flowscape.Edges.Cells.{listed}
use flowscape.Edges.Regrouping.{set_same-IsValid}
use flowscape.Edges.Steps.{changed-IsValid, add-IsValid, remove-IsValid, set_rate-IsValid}

get_or-mark :
    (f : Batch → Batch) (bs : List Batch) (b : ℕ)
    → ((x : Batch) → (f x).free ≡ x.free)
    → (get_or (map f bs) b no_batch).free ≡ (get_or bs b no_batch).free
get_or-mark f [] b keeps = refl
get_or-mark f (x ∷ bs) zero keeps = keeps x
get_or-mark f (x ∷ bs) (suc b) keeps = get_or-mark f bs b keeps

length-map : (f : Batch → Batch) (bs : List Batch) → length (map f bs) ≡ length bs
length-map f [] = refl
length-map f (x ∷ bs) = ap suc (length-map f bs)

module _ {A : Type 0} (capacity : ℕ) (full : A) where
  -- Batches that have the same free slots serve as well, and so does another emphasis.
  marked-IsValid :
      (e e' : Edges A)
      → IsValid capacity e
      → e'.slots ≡ e.slots
      → e'.by_slot ≡ e.by_slot
      → length e'.batches ≡ length e.batches
      → ((b : ℕ) → (batch_of e' b).free ≡ (batch_of e b).free)
      → IsValid capacity e'
  marked-IsValid e e' v slots cells size frees = record {
    batches_size = size ∙ v.batches_size;
    cells_size = ap length cells ∙ v.cells_size;
    slot = λ id s found.
        let k = v.slot id s (sym (ap (Dict.get id) slots) ∙ found) in
        record {
          named = k.named;
          width = k.width;
          fits = k.fits;
          cell = k.cell;
          owned = ap (λ xs. get_or xs s.cp none) cells ∙ k.owned;
        };
    held = λ cp id h.
        let (s, found, at) = v.held cp id (sym (ap (λ xs. get_or xs cp none) cells) ∙ h) in
        (s, ap (Dict.get id) slots ∙ found, at);
    free = λ b i w f. rw (frees b, cells) (v.free b i w f);
    in_range = λ b i h. v.in_range b i (sym (ap (listed i) (frees b)) ∙ h);
    distinct = λ b. rw (frees b) (v.distinct b);
  }

  pub mark-IsValid :
      (e : Edges A) (b : ℕ)
      → IsValid capacity e
      → b < widths
      → IsValid capacity
          (record e { batches = with_batch e b (record (batch_of e b) { col_dirty = true }) })
  mark-IsValid e b v w =
      marked-IsValid e
        (record e { batches = with_batch e b (record (batch_of e b) { col_dirty = true }) }) v refl
        refl (length-set e.batches b _) frees
    where
      if_same :
          (b b' : ℕ)
          → (if eqb b b' then (batch_of e b).free else (batch_of e b').free) ≡ (batch_of e b').free
      if_same b b' = ground arith

      frees :
          (b' : ℕ)
          → (get_or (with_batch e b (record (batch_of e b) { col_dirty = true })) b' no_batch).free
            ≡ (batch_of e b').free
      frees b' =
          ap (λ x. x.free) (get_or-set e.batches b b' _ no_batch (omega (arith, v.batches_size)))
          ∙ free_if (eqb b b') _ _
          ∙ if_same b b'

  set_color-IsValid :
      (e : Edges A) (id : String) (counts : Counts) (alpha : A)
      → IsValid capacity e
      → IsValid capacity (set_color capacity full e id counts alpha)
  unfolding set_color
  set_color-IsValid e id counts alpha v = elim (Option-cases (Dict.get id e.slots)) [
    | inl n ↦ rw (n, set_color) v
    | inr (s, n) ↦
        rw (n, set_color)
          (changed-IsValid capacity full _ (mark-IsValid e s.batch v (v.slot id s n).width)
            (λ t. record t { colour = some counts; alpha = alpha })
            (record {
              id_same = λ t. refl;
              batch_same = λ t. refl;
              index_same = λ t. refl;
              cp_same = λ t. refl;
            })
            id)
  ]

  pub set_hidden-IsValid :
      (e : Edges A) (id : String) (h : Bool)
      → IsValid capacity e
      → IsValid capacity (set_hidden capacity full e id h)
  unfolding set_hidden
  set_hidden-IsValid e id h v = elim (Option-cases (Dict.get id e.slots)) [
    | inl n ↦ rw (n, set_hidden) v
    | inr (s, n) ↦
        rw (n, set_hidden)
          (elim (Bool-cases (same s.hidden h)) [
            | inl q ↦ rw q v
            | inr q ↦ rw q (
                changed-IsValid capacity full _ (mark-IsValid e s.batch v (v.slot id s n).width)
                  (λ t. record t { hidden = h })
                  (record {
                    id_same = λ t. refl;
                    batch_same = λ t. refl;
                    index_same = λ t. refl;
                    cp_same = λ t. refl;
                  })
                  id)
          ])
  ]

  emphasise_node-IsValid :
      (e : Edges A) (id : Option String)
      → IsValid capacity e
      → IsValid capacity (emphasise_node capacity full e id)
  unfolding emphasise_node
  emphasise_node-IsValid e id v =
      marked-IsValid e (emphasise_node capacity full e id) v refl refl
        (length-map (λ batch. record batch { col_dirty = true }) e.batches)
        (λ b. get_or-mark (λ batch. record batch { col_dirty = true }) e.batches b (λ x. refl))

  pub perform-IsValid :
      (e : Edges A) (c : Call A) → IsValid capacity e → IsValid capacity (perform capacity full e c)
  unfolding perform
  perform-IsValid e (adds edge s) v = add-IsValid capacity full e v edge s
  perform-IsValid e (removes id) v = remove-IsValid capacity full e v id
  perform-IsValid e (rates id rate) v = set_rate-IsValid capacity full e v id rate
  perform-IsValid e (colours id counts alpha) v = set_color-IsValid e id counts alpha v
  perform-IsValid e (hides id h) v = set_hidden-IsValid e id h v
  perform-IsValid e (emphasises id) v = emphasise_node-IsValid e id v
  perform-IsValid e (regroups same edges) v = set_same-IsValid capacity full e same edges v

  -- Whatever calls the frame loop makes, in whatever order: each arc has a slot of its own, whose
  -- cell holds its id, and a slot is free exactly when its cell holds nothing, and free once.
  pub calls-IsValid :
      (cs : List (Call A))
      → IsValid capacity (foldl (perform capacity full) (init capacity full) cs)
  calls-IsValid cs =
      foldl_keeps (IsValid capacity) (perform capacity full) perform-IsValid cs (init capacity full)
        (init-IsValid capacity full)
