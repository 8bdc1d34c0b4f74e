-- ===== src/Frames/Seen.antt =====
-- Which nodes `refreshRates` of web/src/main.ts shows, reason by reason.
use flowscape.Base.{
  String, Bool, true, false, ◌&&◌, ◌≡◌, refl, ◌↔◌, ◌⊎◌, inl, inr, Option, none, some, arith, ◌===◌,
}
use flowscape.Base.StringSet
use flowscape.GraphState.Types.{NodeState}
use flowscape.Filters.Types.{Filters}
use flowscape.Frames.Rates.{machine_off, node_hidden}

-- No chip is off that would hide the node.
pub record IsNodeVisible (f : Filters) (n : NodeState) : Type 0 where
  pub namespace : StringSet.has n.ns f.namespaces ≡ false
  pub reserved : (f.hide_reserved ≡ false) ⊎ (n.ns === "reserved" ≡ false)
  pub machine :
      (n.machine ≡ none)
      ⊎ ((m : String) × (n.machine ≡ some m) × (StringSet.has m f.machines ≡ false))
  pub anchor :
      (n.ns === "reserved" ≡ false)
      ⊎ (n.kind === "node" ≡ false)
      ⊎ (StringSet.has n.name f.machines ≡ false)

either : (a b : Bool) → a && b ≡ false → (a ≡ false) ⊎ (b ≡ false)
either true b h = inr h
either false b h = inl refl

either3 : (a b c : Bool) → a && b && c ≡ false → (a ≡ false) ⊎ (b ≡ false) ⊎ (c ≡ false)
either3 true b c h = inr (either b c (ground arith))
either3 false b c h = inl refl

on_machine :
    (f : Filters) (m : Option String)
    → machine_off f m ≡ false
    → (m ≡ none) ⊎ ((k : String) × (m ≡ some k) × (StringSet.has k f.machines ≡ false))
on_machine f none h = inl refl
on_machine f (some k) h = inr (k, refl, h)

off_machine :
    (f : Filters) (m : Option String)
    → (m ≡ none) ⊎ ((k : String) × (m ≡ some k) × (StringSet.has k f.machines ≡ false))
    → machine_off f m ≡ false
off_machine f m (inl e) = rw e refl
off_machine f m (inr (k, e, h)) = rw e h

pub node_hidden-IsNodeVisible :
    (f : Filters) (n : NodeState) → (node_hidden f n ≡ false) ↔ IsNodeVisible f n
node_hidden-IsNodeVisible f n = (λ h. seen h, λ v. unhidden v)
  where
    seen : node_hidden f n ≡ false → IsNodeVisible f n
    seen h = record {
      namespace = ground arith;
      reserved = either f.hide_reserved (n.ns === "reserved") (ground arith);
      machine = on_machine f n.machine (ground arith);
      anchor =
          either3 (n.ns === "reserved") (n.kind === "node") (StringSet.has n.name f.machines)
            (ground arith);
    }

    unhidden : IsNodeVisible f n → node_hidden f n ≡ false
    unhidden v =
        let a = v.namespace in
        let r = v.reserved in
        let m = off_machine f n.machine v.machine in let k = v.anchor in ground arith
