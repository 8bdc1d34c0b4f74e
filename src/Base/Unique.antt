-- ===== src/Base/Unique.antt =====
-- Maps that have each key once, and how many of their entries pass a test.
use Prim.Native.Nat.{ℕ, suc, ◌≤◌, ◌+◌}
use Prim.Native.String.{String}
use mathlib.Core.Path.{◌≡◌, refl, ap, ◌∙◌}
use mathlib.Core.Logic.{inl, inr}
use mathlib.Core.Bool.{Bool, false, ◌||◌}
use mathlib.Core.List.{List, [], ◌∷◌}
use native.Mathlib.Omega.{arith}
use flowscape.Base.Tests.{◌===◌, ===_iff, ===_cases, Bool-cases, if◌then◌else◌}
use flowscape.Base.Lists.{length}
use flowscape.Base.Dict
use flowscape.Base.Dict.{Dict}
use flowscape.Base.StringSet
use flowscape.Base.Keyed.{IsKeyed}

module _ {V : Type 0} where
  abbrev pub IsUnique : Dict V → Type 0
  IsUnique [] = Unit {0}
  IsUnique ((k, v) ∷ m) = (Dict.has k m ≡ false) × IsUnique m

  pub put-IsUnique : (k : String) (v : V) (m : Dict V) → IsUnique m → IsUnique (Dict.put k v m)
  unfolding Dict.put Dict.has
  put-IsUnique k v [] u = (refl, tt)
  put-IsUnique k v ((j, w) ∷ m) u = elim (Bool-cases (j === k)) [
    | inl q ↦ rw q u
    | inr q ↦ rw q (
      ground (arith, Dict.has-put k j v m, ===_iff j k, ===_iff k j, u.0),
      put-IsUnique k v m u.1,
    )
  ]

  pub delete-IsUnique : (k : String) (m : Dict V) → IsUnique m → IsUnique (Dict.delete k m)
  unfolding Dict.delete
  delete-IsUnique k [] u = tt
  delete-IsUnique k ((j, w) ∷ m) u = elim (Bool-cases (j === k)) [
    | inl q ↦ rw q (delete-IsUnique k m u.1)
    | inr q ↦ rw q (ground (arith, Dict.has-delete k j m, u.0), delete-IsUnique k m u.1)
  ]

  pub modify-IsUnique :
      (k : String) (f : V → V) (m : Dict V) → IsUnique m → IsUnique (Dict.modify k f m)
  unfolding Dict.modify
  modify-IsUnique k f [] u = tt
  modify-IsUnique k f ((j, w) ∷ m) u = elim (Bool-cases (j === k)) [
    | inl q ↦ rw q (Dict.has-modify k j f m ∙ u.0, modify-IsUnique k f m u.1)
    | inr q ↦ rw q (Dict.has-modify k j f m ∙ u.0, modify-IsUnique k f m u.1)
  ]

  pub map_values-IsUnique : (f : V → V) (m : Dict V) → IsUnique m → IsUnique (Dict.map_values f m)
  unfolding Dict.map_values
  map_values-IsUnique f [] u = tt
  map_values-IsUnique f ((j, w) ∷ m) u =
      (Dict.has-map_values f j m ∙ u.0, map_values-IsUnique f m u.1)

  -- The entries that pass.
  unfoldable pub count : (V → Bool) → Dict V → ℕ
  count p [] = 0
  count p ((k, v) ∷ m) = let rest = count p m in if p v then suc rest else rest

  pub count-put_new :
      (p : V → Bool) (k : String) (v : V) (m : Dict V)
      → Dict.has k m ≡ false
      → count p (Dict.put k v m) ≡ (if p v then suc (count p m) else count p m)
  unfolding count Dict.put Dict.has
  count-put_new p k v [] new = refl
  count-put_new p k v ((j, w) ∷ m) new =
      ground (arith, ===_iff j k, count-put_new p k v m (ground arith))

  pub count-delete :
      (p : V → Bool) (k : String) (m : Dict V) → count p (Dict.delete k m) ≤ count p m
  unfolding count Dict.delete
  count-delete p k [] = omega arith
  count-delete p k ((j, w) ∷ m) = ground (arith, count-delete p k m)

  pub count-modify :
      (p : V → Bool) (k : String) (f : V → V) (m : Dict V)
      → ((v : V) → p (f v) ≡ p v)
      → count p (Dict.modify k f m) ≡ count p m
  unfolding count Dict.modify
  count-modify p k f [] same = refl
  count-modify p k f ((j, w) ∷ m) same = ground (arith, count-modify p k f m same, same w)

  pub count-map_values :
      (p q : V → Bool) (f : V → V) (m : Dict V)
      → ((v : V) → p (f v) ≡ q v)
      → count p (Dict.map_values f m) ≡ count q m
  unfolding count Dict.map_values
  count-map_values p q f [] same = refl
  count-map_values p q f ((j, w) ∷ m) same = ground (arith, count-map_values p q f m same, same w)

  count_none : (m : Dict V) → count (λ v. false) m ≡ 0
  unfolding count
  count_none [] = refl
  count_none ((k, v) ∷ m) = count_none m

  module _ (id_of : V → String) where
    count-absent :
        (k : String) (m : Dict V)
        → IsKeyed id_of m
        → Dict.has k m ≡ false
        → count (λ v. k === id_of v) m ≡ 0
    unfolding count Dict.has
    count-absent k [] keyed gone = refl
    count-absent k ((j, w) ∷ m) keyed gone =
        ground (
          arith,
          count-absent k m keyed.1 (ground arith),
          ===_iff k (id_of w),
          ===_iff j k,
          keyed.0,
        )

    count-single :
        (k : String) (m : Dict V) → IsUnique m → IsKeyed id_of m → count (λ v. k === id_of v) m ≤ 1
    unfolding count
    count-single k [] unique keyed = omega arith
    count-single k ((j, w) ∷ m) unique keyed = elim (===_cases k (id_of w)) [
      | inl (e, q) ↦
          let gone : Dict.has k m ≡ false = ap (λ i. Dict.has i m) (e ∙ keyed.0) ∙ unique.0 in
          ground (arith, count-absent k m keyed.1 gone, q)
      | inr (e, q) ↦ ground (arith, count-single k m unique.1 keyed.1, q)
    ]

    count-or : (p q : V → Bool) (m : Dict V) → count (λ v. p v || q v) m ≤ count p m + count q m
    unfolding count
    count-or p q [] = omega arith
    count-or p q ((j, w) ∷ m) = ground (arith, count-or p q m)

    -- No more entries are in a list of ids than the list is long.
    pub count-listed :
        (ids : List String) (m : Dict V)
        → IsUnique m
        → IsKeyed id_of m
        → count (λ v. StringSet.has (id_of v) ids) m ≤ length ids
    unfolding StringSet.has
    count-listed [] m unique keyed = omega (arith, count_none m)
    count-listed (k ∷ ids) m unique keyed = omega (
      arith,
      count-or (λ v. k === id_of v) (λ v. StringSet.has (id_of v) ids) m,
      count-single k m unique keyed,
      count-listed ids m unique keyed,
    )
