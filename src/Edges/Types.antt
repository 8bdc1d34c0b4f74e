-- ===== src/Edges/Types.antt =====
-- The slots and batches of web/src/edges.ts.
use flowscape.Base.{
  ℕ, zero, suc, ◌*◌, String, Bool, false, List, [], ◌∷◌, Option, none, get_or, set, ltb,
  if◌then◌else◌,
}
use flowscape.Base.Dict.{Dict}
use flowscape.Base.Doubles.{Double, one}
use flowscape.GraphState.Types.{Counts, EdgeState}

-- `SEGMENTS` and the number of `WIDTHS`.
abbrev pub segments : ℕ
segments = 14

abbrev pub widths : ℕ
widths = 3

-- `free` has the slot that `pop` takes first.
pub record Batch : Type 0 where
  pub free : List ℕ
  pub pos_dirty : Bool
  pub col_dirty : Bool

-- `colour` has the counts that `verdictColor` blends, and none for the colour of a new slot.
-- `A` is the type of the opacities.
pub record EdgeSlot (A : Type 0) : Type 0 where
  pub id : String
  pub batch : ℕ
  pub index : ℕ
  pub cp : ℕ
  pub same : Bool
  pub colour : Option Counts
  pub alpha : A
  pub hidden : Bool
  pub rate : Double

-- `by_slot` has the id of the slot object that `bySlot` holds; an id never changes.
pub record Edges (A : Type 0) : Type 0 where
  pub batches : List Batch
  pub slots : Dict (EdgeSlot A)
  pub cp_valid : List Bool
  pub by_slot : List (Option String)
  pub selected : Option String
  pub hovered : Option String
  pub emphasised_node : Option String

abbrev pub no_batch : Batch
no_batch = record { free = []; pos_dirty = false; col_dirty = false }

-- `for (let i = CAPACITY - 1; i >= 0; i--) free.push(i)`: `n` slots from `i` on.
unfoldable pub count_up : ℕ → ℕ → List ℕ
count_up i zero = []
count_up i (suc n) = i ∷ count_up (suc i) n

abbrev pub batch_of : {A : Type 0} → Edges A → ℕ → Batch
batch_of e b = get_or e.batches b no_batch

abbrev pub owner : {A : Type 0} → Edges A → ℕ → Option String
owner e cp = get_or e.by_slot cp none

-- `this.batches[b]!` changed in place.
abbrev pub with_batch : {A : Type 0} → Edges A → ℕ → Batch → List Batch
with_batch e b batch = set e.batches b batch

-- `rate < 1 ? 0 : rate < 20 ? 1 : 2`
abbrev pub wanted : Double → ℕ
wanted r = if ltb r.units one then 0 else (if ltb r.units (20 * one) then 1 else 2)

-- What the frame loop asks of the arcs, in any order.
pub data Call (A : Type 0) : Type 0 where
  adds : EdgeState → Bool → Call A
  removes : String → Call A
  rates : String → Double → Call A
  colours : String → Counts → A → Call A
  hides : String → Bool → Call A
  emphasises : Option String → Call A
  regroups : (String → String → Bool) → Dict EdgeState → Call A
