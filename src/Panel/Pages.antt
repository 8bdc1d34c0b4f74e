-- ===== src/Panel/Pages.antt =====
-- `show`, `refresh` and `render` of web/src/panel.ts: what the panel shows, past the HTML that it is
-- written in and the drawing of the sparkline.
use flowscape.Base.{
  ℕ, String, Bool, true, false, List, [], ◌++◌, Option, none, some, leb, if◌then◌else◌,
}
use flowscape.Base.Int.{ℤ}
use flowscape.Base.Dict
use flowscape.Protocol.{L7}
use flowscape.GraphState.Types.{NodeState, EdgeState, GraphState}
use flowscape.GraphState.Ring.{Rate, rate, series}
use flowscape.Layout.Sorting.{sort_by}
use flowscape.Selection.Types.{Pick, node, edge, nothing}
use flowscape.Panel.Rows.{Row, short, edge_list}

-- The page of an edge; `rates` and `series` are filled in by `refresh`.
pub record EdgePage : Type 0 where
  pub edge : EdgeState
  pub src : String
  pub dst : String
  pub src_ns : String
  pub dst_ns : String
  pub drops : List (String × ℕ)
  pub requests : List (String × ℕ)
  pub rates : Option Rate
  pub series : List ℕ

-- The page of a node has its conversations from `refresh`.
pub data Content : Type 0 where
  blank : Content
  node_page : NodeState → List Row → Content
  edge_page : EdgePage → Content

pub record Panel : Type 0 where
  pub current : Pick
  pub hidden : Bool
  pub content : Content

unfoldable pub init : Panel
init = record { current = nothing; hidden = true; content = blank }

-- `Object.entries(x ?? {}).sort((a, b) => b[1] - a[1])`
abbrev pub entries_of : Option (List (String × ℕ)) → List (String × ℕ)
entries_of none = []
entries_of (some xs) = xs

abbrev pub most_first : Option (List (String × ℕ)) → List (String × ℕ)
most_first xs = sort_by (λ a b. leb b.1 a.1) (entries_of xs)

abbrev pub requests_of : Option L7 → List (String × ℕ)
requests_of none = []
requests_of (some l) = most_first l.http ++ most_first l.dns

-- `n?.ns ?? "?"`
abbrev pub ns_of : Option NodeState → String
ns_of none = "?"
ns_of (some n) = n.ns

abbrev pub page_of : GraphState → EdgeState → EdgePage
page_of g e = record {
  edge = e;
  src = short (Dict.get e.src g.nodes) e.src;
  dst = short (Dict.get e.dst g.nodes) e.dst;
  src_ns = ns_of (Dict.get e.src g.nodes);
  dst_ns = ns_of (Dict.get e.dst g.nodes);
  drops = most_first e.drops;
  requests = requests_of e.l7;
  rates = none;
  series = [];
}

-- `show(null)`
unfoldable pub close : Panel → Panel
close p = record p { current = nothing; hidden = true }

-- `render`, of what is current.
abbrev render_node : GraphState → Panel → Option NodeState → Panel
render_node g p none = close p
render_node g p (some n) = record p { content = node_page n [] }

abbrev render_edge : GraphState → Panel → Option EdgeState → Panel
render_edge g p none = close p
render_edge g p (some e) = record p { content = edge_page (page_of g e) }

abbrev pub render : GraphState → Panel → Pick → Panel
render g p nothing = p
render g p (node id) = render_node g p (Dict.get id g.nodes)
render g p (edge id) = render_edge g p (Dict.get id g.edges)

unfoldable pub show : GraphState → Panel → Pick → Panel
unfolding close
show g p nothing = close p
show g p (node id) = render g (record p { current = node id; hidden = false }) (node id)
show g p (edge id) = render g (record p { current = edge id; hidden = false }) (edge id)

-- `querySelector("#rates")!` and `querySelector("#edges")!`: only the page of an edge has the one, and
-- only the page of a node the other.
abbrev pub with_rates : Rate → List ℕ → Content → Content
with_rates r s (edge_page page) = edge_page (record page { rates = some r; series = s })
with_rates r s c = c

abbrev pub with_rows : List Row → Content → Content
with_rows rows (node_page n old) = node_page n rows
with_rows rows c = c

-- What the panel calls of web/src/main.ts: `onClose`, which its button calls, and `onNavigate`, which
-- its links call.
pub data Callback : Type 0 where
  closed : Callback
  navigated : Pick → Callback

module _ (g : GraphState) (now_sec : ℤ) (window_sec : ℕ) where
  -- With the callbacks that are called, in order.
  abbrev pub refresh_node : Panel → Option NodeState → Panel × List Callback
  refresh_node p none = (close p, [])
  refresh_node p (some n) =
      (record p { content = with_rows (edge_list g n now_sec window_sec) p.content }, [])

  abbrev pub refresh_edge : Panel → Option EdgeState → Panel × List Callback
  refresh_edge p none = (close p, [])
  refresh_edge p (some e) =
      let rates = rate g.retention e window_sec now_sec in
      let events = series g.retention e window_sec now_sec in
      (record p { content = with_rates rates events p.content }, [])

  abbrev pub refresh_pick : Panel → Pick → Panel × List Callback
  refresh_pick p nothing = (p, [])
  refresh_pick p (node id) = refresh_node p (Dict.get id g.nodes)
  refresh_pick p (edge id) = refresh_edge p (Dict.get id g.edges)

  unfoldable pub refresh : Panel → Panel × List Callback
  unfolding close
  refresh p = if p.hidden then (p, []) else refresh_pick p p.current
