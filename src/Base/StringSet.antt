-- ===== src/Base/StringSet.antt =====
-- A JavaScript `Set<string>`: its elements in insertion order.
use Prim.Native.String.{String}
use mathlib.Core.Path.{◌≡◌, refl}
use mathlib.Core.Bool.{Bool, false, ◌||◌}
use mathlib.Core.List.{List, [], ◌∷◌}
use native.Mathlib.Omega.{arith}
use flowscape.Base.Tests.{◌===◌, ===_iff, if◌then◌else◌}

abbrev pub StringSet : Type 0
StringSet = List String

unfoldable pub has : String → StringSet → Bool
has k [] = false
has k (j ∷ s) = (j === k) || has k s

unfoldable pub add : String → StringSet → StringSet
add k [] = k ∷ []
add k (j ∷ s) = if j === k then j ∷ s else j ∷ add k s

unfoldable pub delete : String → StringSet → StringSet
delete k [] = []
delete k (j ∷ s) = let rest = delete k s in if j === k then rest else j ∷ rest

-- `for (const k of ks) s.add(k)`
unfoldable pub add_all : List String → StringSet → StringSet
add_all [] s = s
add_all (k ∷ ks) s = add_all ks (add k s)

pub has-add : (k j : String) (s : StringSet) → has j (add k s) ≡ (k === j) || has j s
unfolding has add
has-add k j [] = refl
has-add k j (i ∷ s) = ground (arith, ===_iff k j, ===_iff i k, ===_iff i j, has-add k j s)

pub has-delete :
    (k j : String) (s : StringSet) → has j (delete k s) ≡ (if k === j then false else has j s)
unfolding has delete
has-delete k j [] = ground arith
has-delete k j (i ∷ s) = ground (arith, ===_iff k j, ===_iff i k, ===_iff i j, has-delete k j s)

pub has-add_all :
    (ks : List String) (j : String) (s : StringSet) → has j (add_all ks s) ≡ has j ks || has j s
unfolding has add_all
has-add_all [] j s = refl
has-add_all (k ∷ ks) j s = ground (arith, has-add_all ks j (add k s), has-add k j s)
