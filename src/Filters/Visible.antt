-- ===== src/Filters/Visible.antt =====
-- Which edges and nodes the filters let through, reason by reason.
use flowscape.Base.{
  ◌+◌, ◌≤◌, String, Bool, true, false, ◌&&◌, ◌||◌, ◌≡◌, refl, ◌↔◌, ◌⊎◌, inl, inr, arith, ◌===◌,
  if◌then◌else◌, [], ◌∷◌,
}
use flowscape.Base.StringSet
use flowscape.Base.StringSet.{StringSet}
use flowscape.GraphState.Types.{Counts}
use flowscape.Filters.Types.{Filters}
use flowscape.Filters.Operations.{End, any, edge_hidden}

-- No chip is off that would hide the edge, and an event of a verdict that is shown is in the window.
pub record IsVisible (f : Filters) (src dst : End) (proto : String) (c : Counts) : Type 0 where
  pub src_namespace : StringSet.has src.ns f.namespaces ≡ false
  pub dst_namespace : StringSet.has dst.ns f.namespaces ≡ false
  pub src_machine : StringSet.has src.machine f.machines ≡ false
  pub dst_machine : StringSet.has dst.machine f.machines ≡ false
  pub anchors : (f.machines ≡ []) ⊎ ((src.anchor_off ≡ false) × (dst.anchor_off ≡ false))
  pub protocol : StringSet.has proto f.protocols ≡ false
  pub reserved :
      (f.hide_reserved ≡ false)
      ⊎ ((src.ns === "reserved" ≡ false) × (dst.ns === "reserved" ≡ false))
  pub busy :
      1
      ≤ (if f.verdicts.f then c.f else 0)
        + (if f.verdicts.d then c.d else 0)
        + (if f.verdicts.a then c.a else 0)
        + (if f.verdicts.e then c.e else 0)

neither : (b x y : Bool) → b && (x || y) ≡ false → (b ≡ false) ⊎ ((x ≡ false) × (y ≡ false))
neither true x y h = inr (ground arith, ground arith)
neither false x y h = inl refl

both : (b x y : Bool) → (b ≡ false) ⊎ ((x ≡ false) × (y ≡ false)) → b && (x || y) ≡ false
both b x y (inl p) = ground arith
both b x y (inr (p, q)) = ground arith

any-nil : (s : StringSet) → any s ≡ false → s ≡ []
any-nil [] h = refl
any-nil (x ∷ xs) h = absurd (cc)

any-machines :
    (s : StringSet) (x y : Bool)
    → any s && (x || y) ≡ false
    → (s ≡ []) ⊎ ((x ≡ false) × (y ≡ false))
any-machines s x y h = elim (neither (any s) x y h) [ inl p ↦ inl (any-nil s p) | inr p ↦ inr p ]

no_machines :
    (s : StringSet) (x y : Bool)
    → (s ≡ []) ⊎ ((x ≡ false) × (y ≡ false))
    → any s && (x || y) ≡ false
no_machines s x y (inl p) = rw p refl
no_machines s x y (inr p) = both (any s) x y (inr p)

-- An edge is drawn exactly when nothing hides it.
pub edge_hidden-IsVisible :
    (f : Filters) (src dst : End) (proto : String) (c : Counts)
    → (edge_hidden f src dst proto c ≡ false) ↔ IsVisible f src dst proto c
unfolding edge_hidden
edge_hidden-IsVisible f src dst proto c = (λ h. seen h, λ v. unhidden v)
  where
    seen : edge_hidden f src dst proto c ≡ false → IsVisible f src dst proto c
    seen h = record {
      src_namespace = ground arith;
      dst_namespace = ground arith;
      src_machine = ground arith;
      dst_machine = ground arith;
      anchors = any-machines f.machines src.anchor_off dst.anchor_off (ground arith);
      protocol = ground arith;
      reserved =
          neither f.hide_reserved (src.ns === "reserved") (dst.ns === "reserved") (ground arith);
      busy = ground arith;
    }

    unhidden : IsVisible f src dst proto c → edge_hidden f src dst proto c ≡ false
    unhidden v =
        let a = no_machines f.machines src.anchor_off dst.anchor_off v.anchors in
        let r = both f.hide_reserved (src.ns === "reserved") (dst.ns === "reserved") v.reserved in
        let s1 = v.src_namespace in
        let s2 = v.dst_namespace in
        let m1 = v.src_machine in
        let m2 = v.dst_machine in let p = v.protocol in let b = v.busy in ground arith
