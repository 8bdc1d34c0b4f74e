-- ===== src/Panel/Gone.antt =====
-- A selection that the graph loses: the panel and the marks part.
use flowscape.Base.{
  arith, ℕ, String, Bool, true, false, ◌&&◌, ◌≡◌, ◌≢◌, ◌∙◌, sym, ap, subst, refl, List, [], ◌∷◌,
  foldl, none, some, ltb, ◌-◌, Bool-cases, Option-cases, inl, inr, if◌then◌else◌,
}
use flowscape.Base.Int.{ℤ}
use flowscape.Base.Dict
use flowscape.GraphState.Types.{GraphState}
use flowscape.Selection.Types.{
  Pick, node, nothing, Marks, Selection, Event, moves, leaves, presses, releases, frames, escapes,
  navigates,
}
use flowscape.Selection.Handlers.{handle, select, set_hovered, on_hover, update, same_pick}
use flowscape.Selection.InStep.{hover-emphasis}
use flowscape.Panel.Pages.{
  Panel, Callback, closed, navigated, show, refresh, refresh_pick, refresh_node, close,
}

-- The pointer goes about, and a button may go down, but nothing is clicked.
unfoldable pub is_hover : {P : Type 0} → Event P → Bool
is_hover (moves x) = true
is_hover leaves = true
is_hover (presses x) = true
is_hover (releases x) = false
is_hover (frames now) = true
is_hover escapes = false
is_hover (navigates p) = false

abbrev pub all_hover : {P : Type 0} → List (Event P) → Bool
all_hover [] = true
all_hover (ev ∷ evs) = is_hover ev && all_hover evs

-- The node is selected and has the emphasis.
abbrev pub IsOn : String → Marks → Type 0
IsOn id k = (k.selected ≡ node id) × (k.emphasised_node ≡ some id)

some_selected : (id : String) (k : Marks) → IsOn id k → k.selected ≢ nothing
some_selected id k on empty = let q : node id ≡ nothing = sym on.0 ∙ empty in absurd (cc)

on_hover-IsOn : (id : String) (p : Pick) (k : Marks) → IsOn id k → IsOn id (on_hover p k)
unfolding on_hover
on_hover-IsOn id p k on =
    (on.0, hover-emphasis p k.selected k.emphasised_node (some_selected id k on) ∙ on.1)

refresh-gone :
    (g : GraphState) (now_sec : ℤ) (window_sec : ℕ) (id : String) (p : Panel)
    → p.current ≡ node id
    → p.hidden ≡ false
    → Dict.has id g.nodes ≡ false
    → refresh g now_sec window_sec p ≡ (close p, [])
unfolding refresh
refresh-gone g now_sec window_sec id p at shown gone =
    ap (λ b. if b then (p, []) else refresh_pick g now_sec window_sec p p.current) shown
    ∙ ap (refresh_pick g now_sec window_sec p) at
    ∙ elim (Option-cases (Dict.get id g.nodes)) [
      | inl n ↦ ap (refresh_node g now_sec window_sec p) n
      | inr (n, q) ↦ let k = sym gone ∙ Dict.has-get id g.nodes ∙ ap Dict.is_some q in absurd (cc)
    ]

-- A panel that is closed stays so, and calls nothing.
refresh-closed :
    (g : GraphState) (now_sec : ℤ) (window_sec : ℕ) (p : Panel)
    → p.hidden ≡ true
    → refresh g now_sec window_sec p ≡ (p, [])
unfolding refresh
refresh-closed g now_sec window_sec p shut =
    ap (λ b. if b then (p, []) else refresh_pick g now_sec window_sec p p.current) shut

-- The selection and the panel of web/src/main.ts.
pub record View (P : Type 0) : Type 0 where
  pub selection : Selection P
  pub panel : Panel

-- `select`, with the panel.
unfoldable pub select_in : {P : Type 0} → GraphState → View P → Pick → View P
select_in g v p = record {
  selection = record v.selection { marks = select p v.selection.marks };
  panel = show g v.panel p;
}

-- `panel.onClose = () => select(null)` and `panel.onNavigate = (p) => select(p)`
abbrev pub call_back : {P : Type 0} → GraphState → View P → Callback → View P
call_back g v closed = select_in g v nothing
call_back g v (navigated p) = select_in g v p

-- `panel.refresh(sec, f.windowSec)`, with what it calls.
unfoldable pub refresh_view : {P : Type 0} → GraphState → ℤ → ℕ → View P → View P
unfolding select_in
refresh_view g now_sec window_sec v =
    let (p, calls) = refresh g now_sec window_sec v.panel in
    foldl (call_back g) (record v { panel = p }) calls

-- What goes on while nothing is clicked: the pointer moves, and the panel is refreshed.
pub data Turn (P : Type 0) : Type 0 where
  points : Event P → Turn P
  refreshes : GraphState → ℤ → ℕ → Turn P

abbrev pub only_hovers : {P : Type 0} → List (Turn P) → Bool
only_hovers [] = true
only_hovers (points ev ∷ ts) = is_hover ev && only_hovers ts
only_hovers (refreshes g now_sec window_sec ∷ ts) = only_hovers ts

module _ {P : Type 0} (id : String) where
  set_hovered-IsOn :
      (s : Selection P) (p : Pick) → IsOn id s.marks → IsOn id (set_hovered s p).marks
  unfolding set_hovered
  set_hovered-IsOn s p on = elim (Bool-cases (same_pick p s.picking.hovered)) [
    | inl q ↦ rw q on
    | inr q ↦ rw q (on_hover-IsOn id p s.marks on)
  ]

  module _ (pick : P → Pick) (near : P → P → Bool) where
    update-IsOn :
        (s : Selection P) (now : ℕ) → IsOn id s.marks → IsOn id (update pick near s now).marks
    unfolding update
    update-IsOn s now on = elim (Option-cases s.picking.pending) [
      | inl n ↦ rw (n, update) on
      | inr (x, n) ↦
          rw (n, update)
            (elim (Bool-cases (ltb (now - s.picking.last) 33)) [
              | inl q ↦ rw q on
              | inr q ↦ rw q (set_hovered-IsOn _ (pick x) on)
            ])
    ]

    handle-IsOn :
        (s : Selection P) (ev : Event P)
        → is_hover ev ≡ true
        → IsOn id s.marks
        → IsOn id (handle pick near s ev).marks
    unfolding handle is_hover
    handle-IsOn s (moves x) h on = on
    handle-IsOn s leaves h on =
        set_hovered-IsOn (record s { picking = record s.picking { pending = none } }) nothing on
    handle-IsOn s (presses x) h on = on
    handle-IsOn s (releases x) h on = absurd (cc)
    handle-IsOn s (frames now) h on = update-IsOn s now on
    handle-IsOn s escapes h on = absurd (cc)
    handle-IsOn s (navigates p) h on = absurd (cc)

    -- An event that selects nothing leaves the panel alone.
    unfoldable pub go_on : View P → Turn P → View P
    unfolding refresh_view
    go_on v (points ev) = record v { selection = handle pick near v.selection ev }
    go_on v (refreshes g now_sec window_sec) = refresh_view g now_sec window_sec v

    -- The panel is closed, and the node has its marks still.
    abbrev pub IsParted : View P → Type 0
    IsParted v = (v.panel.hidden ≡ true) × IsOn id v.selection.marks

    turns-IsParted :
        (ts : List (Turn P)) (v : View P)
        → only_hovers ts ≡ true
        → IsParted v
        → IsParted (foldl go_on v ts)
    unfolding go_on
    turns-IsParted [] v h k = k
    turns-IsParted (points ev ∷ ts) v h k =
        turns-IsParted ts (record v { selection = handle pick near v.selection ev }) (ground arith)
          (k.0, handle-IsOn v.selection ev (ground arith) k.1)
    turns-IsParted (refreshes g now_sec window_sec ∷ ts) v h k =
        turns-IsParted ts (go_on v (refreshes g now_sec window_sec)) h (
          subst (λ r. IsParted (foldl (call_back g) (record v { panel = r.0 }) r.1))
            (sym (refresh-closed g now_sec window_sec v.panel k.0)) k)

    -- When a node that is selected and shown leaves the graph, the next refresh closes the panel,
    -- but calls nothing of web/src/main.ts: the node remains selected and emphasised there, though it
    -- is gone, and the panel closed, however the pointer moves and the panel is refreshed until
    -- something is clicked, a link is followed or escape is pressed.
    pub gone_stays_selected :
        (v : View P) (g : GraphState) (now_sec : ℤ) (window_sec : ℕ) (ts : List (Turn P))
        → IsOn id v.selection.marks
        → v.panel.current ≡ node id
        → v.panel.hidden ≡ false
        → Dict.has id g.nodes ≡ false
        → only_hovers ts ≡ true
        → let v' = go_on v (refreshes g now_sec window_sec) in
          (v'.panel.current ≡ nothing) × IsParted v' × IsParted (foldl go_on v' ts)
    unfolding close go_on
    gone_stays_selected v g now_sec window_sec ts on at shown gone hover =
        let k = refresh-gone g now_sec window_sec id v.panel at shown gone in
        let run : Panel × List Callback → View P =
          λ r. foldl (call_back g) (record v { panel = r.0 }) r.1 in
        let parted : IsParted (go_on v (refreshes g now_sec window_sec)) =
          subst (λ r. IsParted (run r)) (sym k) (refl, on) in
        (
          ap (λ r. (run r).panel.current) k,
          parted,
          turns-IsParted ts (go_on v (refreshes g now_sec window_sec)) hover parted,
        )
