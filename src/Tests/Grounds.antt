-- ===== src/Tests/Grounds.antt =====
-- The theorem on web/src/platforms.ts where the grouping of a platform has changed.
use mathlib.Core.Option
use flowscape.Base.{◌≡◌, refl, [], ◌∷◌}
use flowscape.Base.Dict
use flowscape.Base.Dict.{Dict}
use flowscape.Base.Keyed.{IsKeyed}
use flowscape.Base.Unique.{IsUnique}
use flowscape.Filters.Types.{by_namespace, by_machine}
use flowscape.Layout.Types as Places
use flowscape.Layout.Types.{Platform, Layout}
use flowscape.Platforms.{PlatformObjects, new_item, sync}
use flowscape.Platforms.Synced.{drawn, sync-drawn}
use flowscape.Tests.Places.{counted}

abbrev shop : Platform counted
shop = record {
  group = "shop";
  kind = by_namespace;
  center = record { x = 3; y = 0; z = 4 };
  radius = 5;
  angle = 0;
  nodes = [];
}

-- A machine that is named like the namespace stood there, and another one.
abbrev items : Dict (PlatformObjects counted)
items =
    ("shop", new_item counted (record shop { kind = by_machine }))
    ∷ ("m1", new_item counted (record shop { group = "m1"; kind = by_machine }))
    ∷ []

abbrev layout : Layout counted
layout = record (Places.init counted) { platforms = ("shop", shop) ∷ [] }

items-IsUnique : IsUnique items
unfolding Dict.has
items-IsUnique = (refl, (refl, tt))

shop-IsKeyed : IsKeyed (λ p. p.group) layout.platforms
unfolding Places.init
shop-IsKeyed = (refl, tt)

shop-IsUnique : IsUnique layout.platforms
unfolding Places.init Dict.has
shop-IsUnique = (refl, tt)

sync-drawn_example :
    Dict.get "shop" (sync counted items layout)
    ≡ Option.map (λ p. drawn counted p (Dict.get "shop" items)) (Dict.get "shop" layout.platforms)
sync-drawn_example =
    sync-drawn counted layout items items-IsUnique "shop" shop-IsKeyed shop-IsUnique
