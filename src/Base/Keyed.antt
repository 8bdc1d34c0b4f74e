-- ===== src/Base/Keyed.antt =====
-- Maps whose entries stand under their own ids.
use mathlib.Core.Option.{some-injective}
use mathlib.Core.Path.{◌≡◌, sym, ap, ◌∙◌}
use mathlib.Core.Logic.{inl, inr}
use mathlib.Core.List.{[], ◌∷◌}
use mathlib.Core.Option.{some}
use Prim.Native.String.{String}
use flowscape.Base.Tests.{===_cases}
use flowscape.Base.Dict
use flowscape.Base.Dict.{Dict}

module _ {V : Type 0} (id_of : V → String) where
  abbrev pub IsKeyed : Dict V → Type 0
  IsKeyed [] = Unit {0}
  IsKeyed ((k, v) ∷ m) = (id_of v ≡ k) × IsKeyed m

  pub id-get : (k : String) (v : V) (m : Dict V) → IsKeyed m → Dict.get k m ≡ some v → id_of v ≡ k
  unfolding Dict.get
  id-get k v [] keyed found = absurd (cc)
  id-get k v ((j, w) ∷ m) keyed found = elim (===_cases j k) [
    | inl (e, q) ↦
        let same : some w ≡ some v = rw q at found in
        ap id_of (sym (some-injective w v same)) ∙ keyed.0 ∙ e
    | inr (e, q) ↦ id-get k v m keyed.1 (rw q at found)
  ]

  pub put-IsKeyed :
      (k : String) (v : V) (m : Dict V) → id_of v ≡ k → IsKeyed m → IsKeyed (Dict.put k v m)
  unfolding Dict.put
  put-IsKeyed k v [] named keyed = (named, tt)
  put-IsKeyed k v ((j, w) ∷ m) named keyed = elim (===_cases j k) [
    | inl (e, q) ↦ rw q (named ∙ sym e, keyed.1)
    | inr (e, q) ↦ rw q (keyed.0, put-IsKeyed k v m named keyed.1)
  ]

  pub delete-IsKeyed : (k : String) (m : Dict V) → IsKeyed m → IsKeyed (Dict.delete k m)
  unfolding Dict.delete
  delete-IsKeyed k [] keyed = tt
  delete-IsKeyed k ((j, w) ∷ m) keyed = elim (===_cases j k) [
    | inl (e, q) ↦ rw q (delete-IsKeyed k m keyed.1)
    | inr (e, q) ↦ rw q (keyed.0, delete-IsKeyed k m keyed.1)
  ]

  pub modify-IsKeyed :
      (k : String) (f : V → V) (m : Dict V)
      → ((v : V) → id_of (f v) ≡ id_of v)
      → IsKeyed m
      → IsKeyed (Dict.modify k f m)
  unfolding Dict.modify
  modify-IsKeyed k f [] named keyed = tt
  modify-IsKeyed k f ((j, w) ∷ m) named keyed = elim (===_cases j k) [
    | inl (e, q) ↦ rw q (named w ∙ keyed.0, modify-IsKeyed k f m named keyed.1)
    | inr (e, q) ↦ rw q (keyed.0, modify-IsKeyed k f m named keyed.1)
  ]

  pub map_values-IsKeyed :
      (f : V → V) (m : Dict V)
      → ((v : V) → id_of (f v) ≡ id_of v)
      → IsKeyed m
      → IsKeyed (Dict.map_values f m)
  unfolding Dict.map_values
  map_values-IsKeyed f [] named keyed = tt
  map_values-IsKeyed f ((j, w) ∷ m) named keyed =
      (named w ∙ keyed.0, map_values-IsKeyed f m named keyed.1)
