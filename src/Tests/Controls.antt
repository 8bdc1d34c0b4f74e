-- ===== src/Tests/Controls.antt =====
-- The theorems on the controls for three namespaces.
use flowscape.Base.{true, false, not, ◌&&◌, ◌≡◌, refl, [], ◌∷◌, ◌===◌, String, arith, if◌then◌else◌}
use flowscape.Base.StringSet
use flowscape.GraphState.Types.{Counts}
use flowscape.Filters.Types.{by_namespace, FiltersPanel}
use flowscape.Filters.Operations.{click_namespace, End}
use flowscape.Filters.Solo.{Once}
use flowscape.Filters.Alone.{shown_alone, click-shown_alone}

abbrev panel : FiltersPanel
panel = record {
  filters = record {
    group_by = by_namespace;
    machines = "m2" ∷ [];
    namespaces = "db" ∷ "old" ∷ "jobs" ∷ [];
    verdicts = record { f = true; d = true; a = true; e = true };
    protocols = [];
    hide_reserved = false;
    window_sec = 60;
    paused = false;
  };
  chips = "shop" ∷ "db" ∷ "jobs" ∷ [];
  machine_chips = "m1" ∷ "m2" ∷ [];
}

-- One namespace besides is shown.
abbrev two_shown : FiltersPanel
two_shown = record panel { filters = record panel.filters { namespaces = "db" ∷ [] } }

chips-Once : Once two_shown.chips
unfolding StringSet.has
chips-Once = (refl, (refl, (refl, tt)))

hidden-Once : Once two_shown.filters.namespaces
unfolding StringSet.has
hidden-Once = (refl, tt)

has_chip :
    (x : String)
    → StringSet.has x two_shown.filters.namespaces ≡ true
    → StringSet.has x two_shown.chips ≡ true
unfolding StringSet.has
has_chip x h = ground arith

shop_chip : StringSet.has "shop" two_shown.chips ≡ true
unfolding StringSet.has
shop_chip = refl

click-shown_alone_example :
    StringSet.has "db" (click_namespace two_shown true "shop").filters.namespaces ≡ (
      if shown_alone two_shown "shop"
      then false
      else StringSet.has "db" two_shown.chips && not ("shop" === "db"))
click-shown_alone_example =
    click-shown_alone two_shown "shop" chips-Once hidden-Once has_chip shop_chip "db"

abbrev here : End
here = record { ns = "shop"; machine = "m1"; anchor_off = false }

abbrev away : End
away = record { ns = "db"; machine = "m1"; anchor_off = false }

abbrev busy : Counts
busy = record { f = 9; d = 0; a = 0; e = 0 }
