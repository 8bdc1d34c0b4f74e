-- ===== src/Filters/Operations.antt =====
-- What the controls of web/src/filters.ts do to the filters, and `hidden` of `refreshRates` in
-- web/src/main.ts.
use flowscape.Base.{
  ℕ, ◌-◌, ◌+◌, String, Bool, true, false, not, ◌&&◌, ◌||◌, List, [], ◌∷◌, length, eqb, ◌===◌,
  if◌then◌else◌,
}
use flowscape.Base.StringSet
use flowscape.Base.StringSet.{StringSet}
use flowscape.Protocol.{Verdict}
use flowscape.GraphState.Types.{Counts}
use flowscape.Filters.Types.{GroupBy, Shown, Filters, FiltersPanel, flip}

-- `if (set.has(x)) set.delete(x); else set.add(x)`
unfoldable pub toggle : String → StringSet → StringSet
toggle x set = if StringSet.has x set then StringSet.delete x set else StringSet.add x set

abbrev pub with_filters : FiltersPanel → Filters → FiltersPanel
with_filters p filters = record p { filters = filters }

unfoldable pub choose_group : FiltersPanel → GroupBy → FiltersPanel
choose_group p mode = with_filters p (record p.filters { group_by = mode })

unfoldable pub click_verdict : FiltersPanel → Verdict → FiltersPanel
click_verdict p v = with_filters p (record p.filters { verdicts = flip v p.filters.verdicts })

unfoldable pub click_protocol : FiltersPanel → String → FiltersPanel
click_protocol p x = with_filters p (record p.filters { protocols = toggle x p.filters.protocols })

unfoldable pub check_reserved : FiltersPanel → Bool → FiltersPanel
check_reserved p checked = with_filters p (record p.filters { hide_reserved = checked })

unfoldable pub choose_window : FiltersPanel → ℕ → FiltersPanel
choose_window p value = with_filters p (record p.filters { window_sec = value })

unfoldable pub toggle_pause : FiltersPanel → FiltersPanel
toggle_pause p = with_filters p (record p.filters { paused = not p.filters.paused })

unfoldable pub click_machine : FiltersPanel → String → FiltersPanel
click_machine p x = with_filters p (record p.filters { machines = toggle x p.filters.machines })

-- `namespaces.size === chips.size - 1 && !namespaces.has(ns)`, where `ns` has a chip.
abbrev pub is_only : FiltersPanel → String → Bool
is_only p ns =
    eqb (length p.filters.namespaces) (length p.chips - 1)
    && not (StringSet.has ns p.filters.namespaces)

-- `for (const other of this.chips.keys()) if (other !== ns) namespaces.add(other)`
unfoldable pub add_others : String → StringSet → StringSet → StringSet
add_others ns [] hidden = hidden
add_others ns (other ∷ chips) hidden =
    add_others ns chips (if other === ns then hidden else StringSet.add other hidden)

-- A click on the chip of a namespace; `solo` with the alt or the meta key.
unfoldable pub click_namespace : FiltersPanel → Bool → String → FiltersPanel
click_namespace p solo ns =
    let hidden = p.filters.namespaces in
    with_filters p (record p.filters {
      namespaces =
          if solo
          then (if is_only p ns then [] else add_others ns p.chips [])
          else toggle ns hidden;
    })

-- The chips that are wanted still.
unfoldable pub keep : StringSet → StringSet → StringSet
keep want [] = []
keep want (x ∷ chips) =
    let rest = keep want chips in if StringSet.has x want then x ∷ rest else rest

-- `syncNamespaces` and `syncMachines`, where `names` is `[...want].sort()`.
unfoldable pub sync_namespaces : FiltersPanel → List String → FiltersPanel
sync_namespaces p names = record p { chips = StringSet.add_all names (keep names p.chips) }

unfoldable pub sync_machines : FiltersPanel → List String → FiltersPanel
sync_machines p names = record p {
  machine_chips = StringSet.add_all names (keep names p.machine_chips);
}

-- What counts of an edge's rate: the verdicts that are shown.
abbrev pub visible : Shown → Counts → Counts
visible s c = record {
  f = if s.f then c.f else 0;
  d = if s.d then c.d else 0;
  a = if s.a then c.a else 0;
  e = if s.e then c.e else 0;
}

-- One end of an edge: its namespace and the machine that its node is drawn on, and whether it is the
-- anchor of a machine whose chip is off (`machineAnchorHidden`).
pub record End : Type 0 where
  pub ns : String
  pub machine : String
  pub anchor_off : Bool

-- `f.machines.size > 0`
abbrev pub any : StringSet → Bool
any [] = false
any (x ∷ xs) = true

unfoldable pub edge_hidden : Filters → End → End → String → Counts → Bool
edge_hidden f src dst proto counts =
    let v = visible f.verdicts counts in
    StringSet.has src.ns f.namespaces
    || StringSet.has dst.ns f.namespaces
    || StringSet.has src.machine f.machines
    || StringSet.has dst.machine f.machines
    || (any f.machines && (src.anchor_off || dst.anchor_off))
    || StringSet.has proto f.protocols
    || (f.hide_reserved && ((src.ns === "reserved") || (dst.ns === "reserved")))
    || eqb (v.f + v.d + v.a + v.e) 0
