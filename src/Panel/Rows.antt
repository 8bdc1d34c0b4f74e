-- ===== src/Panel/Rows.antt =====
-- `edgeList` of web/src/panel.ts: the rows of a node's conversations, past the HTML of a row.
use flowscape.Base.{
  ℕ, String, Bool, List, [], ◌∷◌, Option, none, some, leb, eqb, ◌===◌, if◌then◌else◌,
}
use flowscape.Base.Int.{ℤ}
use flowscape.Base.Doubles.{Double}
use flowscape.Base.Dict
use flowscape.Base.Dict.{Dict}
use flowscape.GraphState.Types.{Counts, NodeState, EdgeState, GraphState}
use flowscape.GraphState.Ring.{rate, per_second}
use flowscape.Layout.Sorting.{sort_by}

-- What a row shows; `dominant` is the verdict that colours it.
pub record Row : Type 0 where
  pub id : String
  pub out : Bool
  pub who : String
  pub proto : String
  pub port : ℕ
  pub rate : Double
  pub dominant : ℕ

-- `n ? n.name : id`
abbrev pub short : Option NodeState → String → String
short none id = id
short (some n) id = n.name

-- `r[1] > 0 ? 1 : r[2] > 0 ? 2 : r[3] > 0 ? 3 : 0`
abbrev pub dominant_of : Counts → ℕ
dominant_of c = if eqb c.d 0 then (if eqb c.a 0 then (if eqb c.e 0 then 0 else 3) else 2) else 1

module _ (g : GraphState) (n : NodeState) (now_sec : ℤ) (window_sec : ℕ) where
  abbrev pub row_of : String → EdgeState → Row
  row_of id e =
      let r = rate g.retention e window_sec now_sec in
      let out = e.src === n.id in
      let other = if out then e.dst else e.src in
      record {
        id = id;
        out = out;
        who = short (Dict.get other g.nodes) other;
        proto = e.proto;
        port = e.port;
        rate = per_second r;
        dominant = dominant_of r.events;
      }

  -- An id whose edge the graph has no longer is passed over.
  abbrev pub push_row : String → Option EdgeState → List Row → List Row
  push_row id none rows = rows
  push_row id (some e) rows = row_of id e ∷ rows

  unfoldable pub rows_of : List String → List Row
  rows_of [] = []
  rows_of (id ∷ ids) = push_row id (Dict.get id g.edges) (rows_of ids)

  unfoldable pub edge_list : List Row
  unfolding rows_of
  edge_list = sort_by (λ a b. leb b.rate.units a.rate.units) (rows_of n.edges)
