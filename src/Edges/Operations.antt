-- ===== src/Edges/Operations.antt =====
-- The methods of the class `Edges` of web/src/edges.ts.
use flowscape.Base.{
  ℕ, ◌+◌, ◌*◌, ◌/◌, String, Bool, true, false, List, [], ◌∷◌, map, foldl, Option, none, some, set,
  eqb, replicate, if◌then◌else◌,
}
use flowscape.Base.Dict
use flowscape.Base.Doubles.{Double}
use flowscape.Base.Dict.{Dict}
use flowscape.Transport.WsClient.{same}
use flowscape.GraphState.Types.{Counts, EdgeState}
use flowscape.Edges.Types.{
  segments, widths, Batch, EdgeSlot, Edges, batch_of, owner, with_batch, wanted, count_up, Call,
  adds, removes, rates, colours, hides, emphasises, regroups,
}

-- `capacity` is `CAPACITY`, 2048 in the source, and `full` the opacity of a new slot, 1.
module _ {A : Type 0} (capacity : ℕ) (full : A) where
  -- The constructor.
  unfoldable pub init : Edges A
  unfolding count_up
  init = record {
    batches =
        replicate widths
          (record { free = count_up 0 capacity; pos_dirty = false; col_dirty = false });
    slots = [];
    cp_valid = replicate (widths * capacity) false;
    by_slot = replicate (widths * capacity) none;
    selected = none;
    hovered = none;
    emphasised_node = none;
  }

  -- `place`, past the test for a free slot: `index` is taken and `rest` left.
  unfoldable pub occupy : Edges A → String → ℕ → Bool → ℕ → List ℕ → Edges A
  occupy e id batch same index rest =
      let cp = batch * capacity + index in
      record e {
        batches = with_batch e batch (record (batch_of e batch) { free = rest });
        slots =
            Dict.put id
              (record {
                id = id;
                batch = batch;
                index = index;
                cp = cp;
                same = same;
                colour = none;
                alpha = full;
                hidden = false;
                rate = record { units = 0 };
              })
              e.slots;
        by_slot = set e.by_slot cp (some id);
      }

  -- None when the batch is full.
  unfoldable pub place : Edges A → String → ℕ → Bool → Option (Edges A)
  unfolding occupy
  place e id batch same = elim (batch_of e batch).free [
    | [] ↦ none
    | index ∷ rest ↦ some (occupy e id batch same index rest)
  ]

  abbrev pub or_same : Edges A → Option (Edges A) → Edges A
  or_same e none = e
  or_same e (some e') = e'

  unfoldable pub add : Edges A → EdgeState → Bool → Edges A
  add e edge same_namespace =
      if Dict.has edge.id e.slots then e else or_same e (place e edge.id 0 same_namespace)

  unfoldable pub clear : Edges A → EdgeSlot A → Edges A
  clear e slot =
      let batch = batch_of e slot.batch in
      record e {
        batches =
            with_batch e slot.batch
              (record { free = slot.index ∷ batch.free; pos_dirty = true; col_dirty = true });
        cp_valid = set e.cp_valid slot.cp false;
        by_slot = set e.by_slot slot.cp none;
      }

  -- `this.slots.delete(id); this.clear(slot)`
  abbrev pub vacate : Edges A → String → EdgeSlot A → Edges A
  vacate e id slot = clear (record e { slots = Dict.delete id e.slots }) slot

  unfoldable pub remove : Edges A → String → Edges A
  remove e id = elim (Dict.get id e.slots) [ none ↦ e | some slot ↦ vacate e id slot ]

  -- `this.bySlot[batch * CAPACITY + Math.floor(segmentIndex / SEGMENTS)]?.id ?? null`
  unfoldable pub id_at : Edges A → ℕ → ℕ → Option String
  id_at e batch segment_index = owner e (batch * capacity + segment_index / segments)

  -- What the moved slot takes over.
  abbrev pub carry : EdgeSlot A → Double → EdgeSlot A → EdgeSlot A
  carry old rate moved = record moved {
    colour = old.colour;
    alpha = old.alpha;
    hidden = old.hidden;
    rate = rate;
  }

  abbrev pub or_dropped : String → EdgeSlot A → Double → Edges A → Option (Edges A) → Edges A
  or_dropped id old rate vacated none = vacated
  or_dropped id old rate vacated (some e) = record e {
    slots = Dict.modify id (carry old rate) e.slots;
  }

  unfoldable pub set_rate : Edges A → String → Double → Edges A
  set_rate e id rate = elim (Dict.get id e.slots) [
    | none ↦ e
    | some slot ↦
        if eqb (wanted rate) slot.batch
        then record e { slots = Dict.modify id (λ s. record s { rate = rate }) e.slots }
        else (let vacated = vacate e id slot in
            or_dropped id slot rate vacated (place vacated id (wanted rate) slot.same))
  ]

  -- `slot.color` and `slot.alpha` are set, and the batch is marked.
  unfoldable pub set_color : Edges A → String → Counts → A → Edges A
  set_color e id counts alpha = elim (Dict.get id e.slots) [
    | none ↦ e
    | some slot ↦ record e {
      slots = Dict.modify id (λ s. record s { colour = some counts; alpha = alpha }) e.slots;
      batches = with_batch e slot.batch (record (batch_of e slot.batch) { col_dirty = true });
    }
  ]

  unfoldable pub set_hidden : Edges A → String → Bool → Edges A
  set_hidden e id h = elim (Dict.get id e.slots) [
    | none ↦ e
    | some slot ↦ if same slot.hidden h then e else record e {
      slots = Dict.modify id (λ s. record s { hidden = h }) e.slots;
      batches = with_batch e slot.batch (record (batch_of e slot.batch) { col_dirty = true });
    }
  ]

  unfoldable pub emphasise_node : Edges A → Option String → Edges A
  emphasise_node e id = record e {
    emphasised_node = id;
    batches = map {A = Batch} (λ batch. record batch { col_dirty = true }) e.batches;
  }

  -- Whether an arc stays low; one whose edge is gone is as it was.
  abbrev pub stays_low : (String → String → Bool) → Bool → Option EdgeState → Bool
  stays_low same old none = old
  stays_low same old (some e) = same e.src e.dst

  abbrev pub invalidate : Dict EdgeState → List Bool → EdgeSlot A → List Bool
  invalidate edges cp_valid slot =
      if Dict.has slot.id edges then set cp_valid slot.cp false else cp_valid

  unfoldable pub set_same : Edges A → (String → String → Bool) → Dict EdgeState → Edges A
  set_same e same edges = record e {
    slots =
        Dict.map_values (λ s. record s { same = stays_low same s.same (Dict.get s.id edges) })
          e.slots;
    cp_valid = foldl (invalidate edges) e.cp_valid (Dict.values e.slots);
  }

  unfoldable pub perform : Edges A → Call A → Edges A
  perform e (adds edge same_namespace) = add e edge same_namespace
  perform e (removes id) = remove e id
  perform e (rates id rate) = set_rate e id rate
  perform e (colours id counts alpha) = set_color e id counts alpha
  perform e (hides id h) = set_hidden e id h
  perform e (emphasises id) = emphasise_node e id
  perform e (regroups same edges) = set_same e same edges
