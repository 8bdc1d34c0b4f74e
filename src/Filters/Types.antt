-- ===== src/Filters/Types.antt =====
-- The state of web/src/filters.ts.
use flowscape.Base.{ℕ, Bool, true, false, [], not}
use flowscape.Base.StringSet.{StringSet}
use flowscape.Protocol.{Verdict, forwarded, dropped, audit, error}

pub data GroupBy : Type 0 where
  by_namespace by_machine : GroupBy

-- `verdicts`, one flag for each.
pub record Shown : Type 0 where
  pub f : Bool
  pub d : Bool
  pub a : Bool
  pub e : Bool

-- `machines` and `namespaces` are those that are hidden, `protocols` those that are disabled.
pub record Filters : Type 0 where
  pub group_by : GroupBy
  pub machines : StringSet
  pub namespaces : StringSet
  pub verdicts : Shown
  pub protocols : StringSet
  pub hide_reserved : Bool
  pub window_sec : ℕ
  pub paused : Bool

-- `chips` and `machine_chips` are the keys of the maps of buttons.
pub record FiltersPanel : Type 0 where
  pub filters : Filters
  pub chips : StringSet
  pub machine_chips : StringSet

unfoldable pub init : ℕ → FiltersPanel
init window_sec = record {
  filters = record {
    group_by = by_namespace;
    machines = [];
    namespaces = [];
    verdicts = record { f = true; d = true; a = true; e = true };
    protocols = [];
    hide_reserved = false;
    window_sec = window_sec;
    paused = false;
  };
  chips = [];
  machine_chips = [];
}

-- The flag of a verdict turned.
abbrev pub flip : Verdict → Shown → Shown
flip forwarded s = record s { f = not s.f }
flip dropped s = record s { d = not s.d }
flip audit s = record s { a = not s.a }
flip error s = record s { e = not s.e }
