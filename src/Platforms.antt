-- ===== src/Platforms.antt =====
-- The class `Platforms` of web/src/platforms.ts. The meshes are the numbers that are set on them; a
-- platform's colour is set once, from web/src/theme.ts, and is not among them.
pub mod Synced
use flowscape.Base.{
  ℕ, ◌+◌, String, Bool, true, false, [], ◌∷◌, foldl, Option, none, some, if◌then◌else◌, not,
}
use flowscape.Base.Dict
use flowscape.Base.Dict.{Dict}
use flowscape.Base.Numbers.{Numbers}
use flowscape.Filters.Types.{GroupBy, by_namespace, by_machine}
use flowscape.Transport.WsClient.{same}
use flowscape.Layout.Types.{Platform, Layout}

-- `p.kind === item.kind`
abbrev pub same_kind : GroupBy → GroupBy → Bool
same_kind by_namespace by_namespace = true
same_kind by_namespace by_machine = false
same_kind by_machine by_namespace = false
same_kind by_machine by_machine = true

module _ (N : Numbers) where
  -- The opacities are in hundredths.
  pub record PlatformObjects : Type 0 where
    pub kind : GroupBy
    pub dimmed : Bool
    pub x : N.R
    pub z : N.R
    pub radius : N.R
    pub label_z : N.R
    pub disc_opacity : ℕ
    pub rim_opacity : ℕ

  -- `!p || p.kind !== item.kind`
  abbrev pub is_stale : Option (Platform N) → PlatformObjects → Bool
  is_stale none item = true
  is_stale (some p) item = not (same_kind p.kind item.kind)

  -- The body of the loop that drops what is no platform any more.
  abbrev pub sweep :
      Dict (Platform N) → Dict PlatformObjects → String × PlatformObjects → Dict PlatformObjects
  sweep platforms items (key, item) =
      if is_stale (Dict.get key platforms) item then Dict.delete key items else items

  -- The position and the scales that every platform gets, new or not.
  abbrev pub moved : Platform N → PlatformObjects → PlatformObjects
  moved p item = record item {
    x = p.center.x;
    z = p.center.z;
    radius = p.radius;
    label_z = N.plus p.radius (N.over (N.of 9) (N.of 10));
  }

  abbrev pub new_item : Platform N → PlatformObjects
  new_item p = record {
    kind = p.kind;
    dimmed = false;
    x = N.of 0;
    z = N.of 0;
    radius = N.of 1;
    label_z = N.of 0;
    disc_opacity = 16;
    rim_opacity = 90;
  }

  abbrev pub or_new : Platform N → Option PlatformObjects → PlatformObjects
  or_new p none = new_item p
  or_new p (some item) = item

  -- The body of the loop over the platforms of the layout.
  abbrev pub stand : Dict PlatformObjects → Platform N → Dict PlatformObjects
  stand items p = Dict.put p.group (moved p (or_new p (Dict.get p.group items))) items

  unfoldable pub sync : Dict PlatformObjects → Layout N → Dict PlatformObjects
  sync items layout =
      foldl stand (foldl (sweep layout.platforms) items items) (Dict.values layout.platforms)

  unfoldable pub set_dimmed : Dict PlatformObjects → String → Bool → Dict PlatformObjects
  set_dimmed items group dimmed = elim (Dict.get group items) [
    | none ↦ items
    | some item ↦
        if same item.dimmed dimmed
        then items
        else Dict.modify group
            (λ i. record i {
              dimmed = dimmed;
              disc_opacity = if dimmed then 3 else 16;
              rim_opacity = if dimmed then 15 else 90;
            })
            items
  ]
