-- ===== src/GraphState/Pending/Flags.antt =====
-- One id in the books of `GraphState`: whether the renderer held it (`base`), whether the graph has
-- it (`live`), and whether it is noted as added or as removed.
use flowscape.Base.{Bool, true, false, not, ◌&&◌, ◌||◌, ◌≡◌, refl, arith, if◌then◌else◌}

-- What is added is live, what is removed is not, and what is live is known to the renderer or added.
pub record IsSound (base live added removed : Bool) : Type 0 where
  pub added_live : added ≡ true → live ≡ true
  pub removed_gone : removed ≡ true → live ≡ false
  pub live_known : live ≡ true → (base || added) ≡ true

-- Moreover nothing that the renderer held is added again, and what it held and is gone is removed.
pub record IsExact (base live added removed : Bool) : Type 0 where
  pub sound : IsSound base live added removed
  pub added_new : added ≡ true → base ≡ false
  pub gone_removed : base ≡ true → live ≡ false → removed ≡ true

-- What the renderer holds after it dropped what is removed and took up what is live where it is told
-- to look.
abbrev pub refresh : Bool → Bool → Bool → Bool → Bool
refresh base live told removed = (told && live) || (base && not removed)

pub sound-refresh :
    (b t : Bool) {l a r : Bool}
    → IsSound b l a r
    → (a ≡ true → t ≡ true)
    → l ≡ true
    → refresh b l t r ≡ true
sound-refresh true true s looks h = ground arith
sound-refresh true false s looks h = ground arith
sound-refresh false true s looks h = ground arith
sound-refresh false false s looks h = ground arith

pub exact-refresh :
    (b l t : Bool) {a r : Bool} → IsExact b l a r → (a ≡ true → t ≡ true) → refresh b l t r ≡ l
exact-refresh true true true x looks = refl
exact-refresh true true false x looks = ground (arith, x.sound)
exact-refresh true false true x looks = ground arith
exact-refresh true false false x looks = ground arith
exact-refresh false true true x looks = refl
exact-refresh false true false x looks = ground (arith, x.sound)
exact-refresh false false true x looks = refl
exact-refresh false false false x looks = refl

-- `hit` says that the id is the one that the operation is about.

-- A new entry is noted as added, and no longer as removed.
pub insert-IsSound :
    (hit : Bool) {b l a r : Bool}
    → IsSound b l a r
    → IsSound b (hit || l) (hit || a) (if hit then false else r)
insert-IsSound true s = ground arith
insert-IsSound false s = s

pub insert-IsExact :
    (hit : Bool) {b l a r : Bool}
    → (hit ≡ true → b ≡ false)
    → IsExact b l a r
    → IsExact b (hit || l) (hit || a) (if hit then false else r)
insert-IsExact true new x = ground arith
insert-IsExact false new x = x

-- An entry that goes is noted as removed, unless it was noted as added: `listed`.
pub delete-IsSound :
    (hit listed : Bool) {b l a r : Bool}
    → (hit ≡ true → listed ≡ a)
    → IsSound b l a r
    → IsSound b
        (if hit then false else l)
        (if hit then false else a)
        (if listed then r else hit || r)
delete-IsSound true true same s = ground arith
delete-IsSound true false same s = ground arith
delete-IsSound false true same s = s
delete-IsSound false false same s = s

pub delete-IsExact :
    (hit listed : Bool) {b l a r : Bool}
    → (hit ≡ true → listed ≡ a)
    → IsExact b l a r
    → IsExact b
        (if hit then false else l)
        (if hit then false else a)
        (if listed then r else hit || r)
delete-IsExact true true same x = ground arith
delete-IsExact true false same x = ground arith
delete-IsExact false true same x = x
delete-IsExact false false same x = x
