-- ===== src/Panel/Shown.antt =====
-- What the panel shows is there.
use flowscape.Base.{ℕ, Bool, true, false, ◌≡◌, refl}
use flowscape.Base.Int.{ℤ}
use flowscape.Base.Dict
use flowscape.GraphState.Types.{GraphState}
use flowscape.Selection.Types.{Pick, node, edge, nothing}
use flowscape.Panel.Pages.{Content, blank, node_page, edge_page, Panel, close, show, refresh}

-- What is asked of the panel, with the graph at that moment: to show a selection, and every 250
-- milliseconds to refresh it.
pub data Call : Type 0 where
  shows : GraphState → Pick → Call
  refreshes : GraphState → ℤ → ℕ → Call

abbrev pub graph_of : Call → GraphState
graph_of (shows g p) = g
graph_of (refreshes g now_sec window_sec) = g

unfoldable pub perform : Panel → Call → Panel
perform p (shows g pick) = show g p pick
perform p (refreshes g now_sec window_sec) = (refresh g now_sec window_sec p).0

abbrev is_nothing : Pick → Bool
is_nothing nothing = true
is_nothing (node id) = false
is_nothing (edge id) = false

-- The page is the one of such a selection.
abbrev page_fits : Pick → Content → Bool
page_fits nothing c = true
page_fits (node id) (node_page n rows) = true
page_fits (node id) blank = false
page_fits (node id) (edge_page page) = false
page_fits (edge id) (edge_page page) = true
page_fits (edge id) blank = false
page_fits (edge id) (node_page n rows) = false

abbrev pub is_there : GraphState → Pick → Bool
is_there g nothing = true
is_there g (node id) = Dict.has id g.nodes
is_there g (edge id) = Dict.has id g.edges

unfoldable pub IsConsistent : Panel → Type 0
IsConsistent p = (p.hidden ≡ is_nothing p.current) × (page_fits p.current p.content ≡ true)

closed-IsConsistent : (p : Panel) → IsConsistent (close p)
unfolding close IsConsistent
closed-IsConsistent p = (refl, refl)

-- Consistent, and what is current is in the graph.
abbrev IsShown : GraphState → Panel → Type 0
IsShown g p = IsConsistent p × (is_there g p.current ≡ true)
