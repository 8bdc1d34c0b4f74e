-- ===== src/Tests/Details.antt =====
-- The theorems on web/src/panel.ts and web/src/theme.ts at a small graph.
use mathlib.Core.List.{Perm}
use flowscape.Base.{ℕ, String, true, false, ◌≡◌, refl, List, [], ◌∷◌, map, foldl, some, none, eqb}
use flowscape.Base.Int.{pos}
use flowscape.Base.Dict
use flowscape.GraphState.Types.{GraphState, EdgeState, NodeState}
use flowscape.GraphState.Types
use flowscape.GraphState.Ring.{set_bucket}
use flowscape.Selection.Types.{Pick, node, edge, nothing, Selection, moves, frames}
use flowscape.Panel.Escape.{esc, page_text, is_plain, page_text-esc}
use flowscape.Panel.Rows.{edge_list}
use flowscape.Panel.Sorted.{IsDescending, live_edges, pace, edge_list-ids}
use flowscape.Panel.Pages.{Panel, refresh, show}
use flowscape.Panel.Pages
use flowscape.Panel.Shown.{refreshes}
use flowscape.Panel.Gone as Gone
use flowscape.Panel.Gone.{View, Turn, points, go_on, IsParted, gone_stays_selected}
use flowscape.Theme.{Color}
use flowscape.Theme.Cached.{namespaces, machines, answers, answer, answers-fresh}
use flowscape.Tests.Places
use flowscape.Tests.Places.{counted}
use flowscape.Tests.Arcs.{arc}

-- `<a&b>`
abbrev tricky : List ℕ
tricky = 60 ∷ 97 ∷ 38 ∷ 98 ∷ 62 ∷ []

page_text-esc_example : (page_text (esc tricky) ≡ tricky) × (is_plain (esc tricky) ≡ true)
page_text-esc_example = page_text-esc tricky

abbrev web : NodeState
web = record (Places.node "web" "shop" "workload") { edges = "slow" ∷ "gone" ∷ "busy" ∷ [] }

abbrev traffic : String → ℕ → EdgeState
traffic id f =
    set_bucket 10 (record (arc id) { src = "web"; ring = 0 ∷ 0 ∷ 0 ∷ 0 ∷ []; epochs = pos 0 ∷ [] })
      (record { sec = pos 100; f = f; d = 0; a = 0; e = 0 })

abbrev graph : GraphState
graph = record (Types.init 10) {
  nodes = ("web", web) ∷ [];
  edges = ("slow", traffic "slow" 1) ∷ ("busy", traffic "busy" 5) ∷ [];
}

edge_list-ids_example :
    Perm (map (λ r. r.id) (edge_list graph web (pos 100) 1)) (live_edges graph web.edges)
    × IsDescending (pace graph web (pos 100) 1) (map (λ r. r.id) (edge_list graph web (pos 100) 1))
edge_list-ids_example = edge_list-ids graph web (pos 100) 1

abbrev empty_graph : GraphState
empty_graph = Types.init 10

abbrev pick : ℕ → Pick
pick x = edge "busy"

abbrev chosen : Selection ℕ
chosen = record {
  picking = record { pending = none; last = 0; hovered = nothing; down = none };
  marks = record {
    selected = node "web";
    nodes_selected = some "web";
    edges_selected = none;
    nodes_hovered = none;
    edges_hovered = none;
    emphasised_node = some "web";
  };
}

abbrev page : Panel
page = record { current = node "web"; hidden = false; content = Pages.node_page web [] }

abbrev view : View ℕ
view = record { selection = chosen; panel = page }

abbrev strolls : List (Turn ℕ)
strolls = points (moves 3) ∷ points (frames 80) ∷ Gone.refreshes empty_graph (pos 101) 5 ∷ []

gone_stays_selected_example :
    let v = go_on "web" pick eqb view (Gone.refreshes empty_graph (pos 101) 5) in
    (v.panel.current ≡ nothing)
    × IsParted "web" pick eqb v
    × IsParted "web" pick eqb (foldl (go_on "web" pick eqb) v strolls)
unfolding Dict.has Types.init flowscape.Panel.Gone.is_hover
gone_stays_selected_example =
    gone_stays_selected "web" pick eqb view empty_graph (pos 101) 5 strolls (refl, refl) refl refl
      refl refl

abbrev units : String → List ℕ
units s = 97 ∷ 98 ∷ []

abbrev hsl : ℕ → ℕ → ℕ → Color counted
hsl h s l = record { r = h; g = s; b = l }

abbrev grey : Color counted
grey = record { r = 0; g = 0; b = 0 }

answers-fresh_example :
    answers counted units hsl grey []
      (namespaces "shop" 1 1 ∷ machines "shop" ∷ namespaces "reserved" 1 1 ∷ [])
    ≡ map
        (λ c. (answer counted units hsl grey [] c).0)
        (namespaces "shop" 1 1 ∷ machines "shop" ∷ namespaces "reserved" 1 1 ∷ [])
answers-fresh_example =
    answers-fresh counted units hsl grey
      (namespaces "shop" 1 1 ∷ machines "shop" ∷ namespaces "reserved" 1 1 ∷ [])
