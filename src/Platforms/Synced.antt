-- ===== src/Platforms/Synced.antt =====
-- What `sync` of web/src/platforms.ts leaves.
use mathlib.Core.Option
use flowscape.Filters.Types.{GroupBy, by_namespace, by_machine}
use flowscape.Base.{
  ℕ, Bool, true, not, ◌≢◌, String, false, ◌≡◌, refl, ◌∙◌, sym, ap, [], ◌∷◌, foldl, Option, none,
  some, ◌===◌, ===_cases, Bool-cases, Option-cases, inl, inr, if◌then◌else◌, arith,
}
use mathlib.Core.Option.{some-injective}
use flowscape.Base.Dict
use flowscape.Base.Dict.{Dict}
use flowscape.Base.Numbers.{Numbers}
use flowscape.Base.Keyed.{IsKeyed}
use flowscape.Base.Unique.{IsUnique}
use flowscape.Base.Visits.{missed, visited}
use flowscape.Layout.Types.{Platform, Layout}
use flowscape.Platforms.{same_kind, PlatformObjects, is_stale, sweep, moved, or_new, stand, sync}

module _ (N : Numbers) (platforms : Dict (Platform N)) where
  abbrev left : String → PlatformObjects N → Option (PlatformObjects N)
  left x i = if is_stale N (Dict.get x platforms) i then none else some i

  sweep-get :
      (s : Dict (PlatformObjects N)) (j : String) (k : PlatformObjects N) (x : String)
      → Dict.get x (sweep N platforms s (j, k)) ≡ (
          if j === x
          then (if is_stale N (Dict.get j platforms) k then none else Dict.get x s)
          else Dict.get x s)
  sweep-get s j k x = elim (Bool-cases (is_stale N (Dict.get j platforms) k)) [
    | inl q ↦ rw (q, Dict.get-delete) refl
    | inr q ↦ rw q (ground arith)
  ]

  swept_away :
      (m s : Dict (PlatformObjects N)) (x : String)
      → Dict.has x m ≡ false
      → Dict.get x (foldl (sweep N platforms) s m) ≡ Dict.get x s
  unfolding Dict.has
  swept_away [] s x away = refl
  swept_away ((j, k) ∷ m) s x away =
      let other : (j === x) ≡ false = ground arith in
      swept_away m (sweep N platforms s (j, k)) x (ground arith) ∙ sweep-get s j k x ∙ rw other refl

  swept :
      (m s : Dict (PlatformObjects N)) (x : String) (i : PlatformObjects N)
      → IsUnique m
      → Dict.get x m ≡ some i
      → Dict.get x s ≡ some i
      → Dict.get x (foldl (sweep N platforms) s m) ≡ left x i
  unfolding Dict.get
  swept [] s x i unique found there = absurd (cc)
  swept ((j, k) ∷ m) s x i unique found there = elim (===_cases j x) [
    | inl (p, q) ↦
        let same : some k ≡ some i = rw q at found in
        swept_away m (sweep N platforms s (j, k)) x (ap (λ y. Dict.has y m) (sym p) ∙ unique.0)
        ∙ sweep-get s j k x
        ∙ rw q (
            ap (λ t. if is_stale N (Dict.get j platforms) k then none else t) there
            ∙ ap (λ y. if is_stale N (Dict.get y platforms) k then none else some i) p
            ∙ ap (λ y. if is_stale N (Dict.get x platforms) y then none else some i)
                (some-injective k i same))
    | inr (p, q) ↦
        swept m (sweep N platforms s (j, k)) x i unique.1 (rw q at found)
          (sweep-get s j k x ∙ rw q there)
  ]

  stand-get :
      (s : Dict (PlatformObjects N)) (p : Platform N) (x : String)
      → Dict.get x (stand N s p)
        ≡ (if p.group === x then some (moved N p (or_new N p (Dict.get x s))) else Dict.get x s)
  stand-get s p x = elim (===_cases p.group x) [
    | inl (e, q) ↦ rw (Dict.get-put, q) (ap (λ y. some (moved N p (or_new N p (Dict.get y s)))) e)
    | inr (e, q) ↦ rw (Dict.get-put, q) refl
  ]

kind-Dec : (a b : GroupBy) → Dec (a ≡ b)
kind-Dec by_namespace by_namespace = yes refl
kind-Dec by_namespace by_machine = no (λ e. absurd (cc))
kind-Dec by_machine by_namespace = no (λ e. absurd (cc))
kind-Dec by_machine by_machine = yes refl

-- The objects for a platform: where and how big it is, its kind, and whether it is dimmed.
abbrev pub stands : (N : Numbers) → Platform N → Bool → ℕ → ℕ → PlatformObjects N
stands N p dimmed disc rim = record {
  kind = p.kind;
  dimmed = dimmed;
  x = p.center.x;
  z = p.center.z;
  radius = p.radius;
  label_z = N.plus p.radius (N.over (N.of 9) (N.of 10));
  disc_opacity = disc;
  rim_opacity = rim;
}

-- What stands for a platform, after what stood there: bright at first, and later, when it was of its
-- kind, as it was left.
abbrev pub drawn_as :
    (N : Numbers) (p : Platform N) (i : PlatformObjects N)
    → Dec (p.kind ≡ i.kind)
    → PlatformObjects N
drawn_as N p i (yes e) = stands N p i.dimmed i.disc_opacity i.rim_opacity
drawn_as N p i (no e) = stands N p false 16 90

unfoldable pub drawn : (N : Numbers) → Platform N → Option (PlatformObjects N) → PlatformObjects N
unfolding kind-Dec
drawn N p none = stands N p false 16 90
drawn N p (some i) = drawn_as N p i (kind-Dec p.kind i.kind)

same_kind-yes : (a b : GroupBy) → a ≡ b → same_kind a b ≡ true
same_kind-yes by_namespace by_namespace e = refl
same_kind-yes by_namespace by_machine e = absurd (cc)
same_kind-yes by_machine by_namespace e = absurd (cc)
same_kind-yes by_machine by_machine e = refl

same_kind-no : (a b : GroupBy) → a ≢ b → same_kind a b ≡ false
same_kind-no by_namespace by_namespace e = absurd (e refl)
same_kind-no by_namespace by_machine e = refl
same_kind-no by_machine by_namespace e = refl
same_kind-no by_machine by_machine e = absurd (e refl)

kept-drawn :
    (N : Numbers) (p : Platform N) (i : PlatformObjects N) (d : Dec (p.kind ≡ i.kind))
    → moved N p (or_new N p (if not (same_kind p.kind i.kind) then none else some i))
      ≡ drawn_as N p i d
kept-drawn N p i (yes e) =
    rw (same_kind-yes p.kind i.kind e) (ap (λ k. record (moved N p i) { kind = k }) (sym e))
kept-drawn N p i (no e) = rw (same_kind-no p.kind i.kind e) refl

module _ (N : Numbers) (layout : Layout N) (items : Dict (PlatformObjects N))
    (once : IsUnique items) (x : String) where
  abbrev rest : Dict (PlatformObjects N)
  rest = foldl (sweep N layout.platforms) items items

  -- What is no platform any more is gone.
  rest-none : Dict.get x layout.platforms ≡ none → Dict.get x rest ≡ none
  rest-none gone = elim (Option-cases (Dict.get x items)) [
    | inl e ↦
        swept_away N layout.platforms items items x (Dict.has-get x items ∙ ap Dict.is_some e) ∙ e
    | inr (i, e) ↦
        swept N layout.platforms items items x i once e e
        ∙ ap (λ p. if is_stale N p i then none else some i) gone
  ]

  -- What stands for a platform that stays is kept when it is of its kind.
  rest-some :
      (p : Platform N)
      → Dict.get x layout.platforms ≡ some p
      → moved N p (or_new N p (Dict.get x rest)) ≡ drawn N p (Dict.get x items)
  unfolding drawn
  rest-some p there = elim (Option-cases (Dict.get x items)) [
    | inl e ↦
        rw
          (
            swept_away N layout.platforms items items x (Dict.has-get x items ∙ ap Dict.is_some e),
            e,
          )
          refl
    | inr (i, e) ↦
        let k =
          swept N layout.platforms items items x i once e e
          ∙ ap (λ p. if is_stale N p i then none else some i) there in
        rw (k, e) (kept-drawn N p i (kind-Dec p.kind i.kind))
  ]

  -- Where the layout has each platform once and under its group: after `sync` a platform stands
  -- for each one of the layout and for no other, at its place and of its size; one that stood for
  -- its group and is of its kind is kept, dimmed or not, and any other is a new one.
  pub sync-drawn :
      IsKeyed (λ p. p.group) layout.platforms
      → IsUnique layout.platforms
      → Dict.get x (sync N items layout)
        ≡ Option.map (λ p. drawn N p (Dict.get x items)) (Dict.get x layout.platforms)
  unfolding sync
  sync-drawn keyed unique = elim (Option-cases (Dict.get x layout.platforms)) [
    | inl e ↦
        missed (λ p. p.group) (stand N) (λ s x. Dict.get x s)
          (λ p old. some (moved N p (or_new N p old))) (stand-get N layout.platforms)
          layout.platforms rest x keyed (Dict.has-get x layout.platforms ∙ ap Dict.is_some e)
        ∙ rest-none e
        ∙ rw e refl
    | inr (p, e) ↦
        visited (λ p. p.group) (stand N) (λ s x. Dict.get x s)
          (λ p old. some (moved N p (or_new N p old))) (stand-get N layout.platforms)
          layout.platforms rest x p keyed unique e
        ∙ ap some (rest-some p e)
        ∙ rw e refl
  ]
