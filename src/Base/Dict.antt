-- ===== src/Base/Dict.antt =====
-- A JavaScript `Map<string, V>`: its entries in insertion order, each key once.
use Prim.Native.String.{String}
use mathlib.Core.Path.{◌≡◌, refl, ap, sym}
use mathlib.Core.Bool.{Bool, true, false, ◌||◌}
use mathlib.Core.List.{List, [], ◌∷◌}
use mathlib.Core.Option.{Option, none, some}
use mathlib.Core.Option
use native.Mathlib.Omega.{arith}
use flowscape.Base.Tests.{◌===◌, ===_iff, if◌then◌else◌}
use flowscape.Base.StringSet

abbrev pub Dict {ℓ} : Type ℓ → Type ℓ
Dict V = List (String × V)

module _ {ℓ} {V : Type ℓ} where
  unfoldable pub get : String → Dict V → Option V
  get k [] = none
  get k ((j, v) ∷ m) = if j === k then some v else get k m

  unfoldable pub has : String → Dict V → Bool
  has k [] = false
  has k ((j, v) ∷ m) = (j === k) || has k m

  -- `set`: a key that is there keeps its place, a new one goes to the end.
  unfoldable pub put : String → V → Dict V → Dict V
  put k v [] = (k, v) ∷ []
  put k v ((j, w) ∷ m) = if j === k then (j, v) ∷ m else (j, w) ∷ put k v m

  unfoldable pub delete : String → Dict V → Dict V
  delete k [] = []
  delete k ((j, w) ∷ m) = let rest = delete k m in if j === k then rest else (j, w) ∷ rest

  -- `m.get(k)?.…`: a change of the object that the key holds, through its reference.
  unfoldable pub modify : String → (V → V) → Dict V → Dict V
  modify k f [] = []
  modify k f ((j, w) ∷ m) =
      let rest = modify k f m in if j === k then (j, f w) ∷ rest else (j, w) ∷ rest

  unfoldable pub keys : Dict V → List String
  keys [] = []
  keys ((j, w) ∷ m) = j ∷ keys m

  unfoldable pub values : Dict V → List V
  values [] = []
  values ((j, w) ∷ m) = w ∷ values m

  pub get-put :
      (k j : String) (v : V) (m : Dict V)
      → get j (put k v m) ≡ (if k === j then some v else get j m)
  unfolding get put
  get-put k j v [] = refl
  get-put k j v ((i, w) ∷ m) =
      ground (arith, ===_iff k j, ===_iff i k, ===_iff i j, get-put k j v m)

  pub get-delete :
      (k j : String) (m : Dict V) → get j (delete k m) ≡ (if k === j then none else get j m)
  unfolding get delete
  get-delete k j [] = ground arith
  get-delete k j ((i, w) ∷ m) =
      ground (arith, ===_iff k j, ===_iff i k, ===_iff i j, get-delete k j m)

  pub get-modify :
      (k j : String) (f : V → V) (m : Dict V)
      → get j (modify k f m) ≡ (if k === j then Option.map f (get j m) else get j m)
  unfolding get modify
  get-modify k j f [] = ground arith
  get-modify k j f ((i, w) ∷ m) =
      ground (arith, ===_iff k j, ===_iff i k, ===_iff i j, get-modify k j f m)

  pub has-put : (k j : String) (v : V) (m : Dict V) → has j (put k v m) ≡ (k === j) || has j m
  unfolding has put
  has-put k j v [] = refl
  has-put k j v ((i, w) ∷ m) =
      ground (arith, ===_iff k j, ===_iff i k, ===_iff i j, has-put k j v m)

  pub has-delete :
      (k j : String) (m : Dict V) → has j (delete k m) ≡ (if k === j then false else has j m)
  unfolding has delete
  has-delete k j [] = ground arith
  has-delete k j ((i, w) ∷ m) =
      ground (arith, ===_iff k j, ===_iff i k, ===_iff i j, has-delete k j m)

  pub has-modify : (k j : String) (f : V → V) (m : Dict V) → has j (modify k f m) ≡ has j m
  unfolding has modify
  has-modify k j f [] = refl
  has-modify k j f ((i, w) ∷ m) = ground (arith, has-modify k j f m)

  abbrev pub is_some : Option V → Bool
  is_some none = false
  is_some (some v) = true

  pub has-get : (k : String) (m : Dict V) → has k m ≡ is_some (get k m)
  unfolding has get
  has-get k [] = refl
  has-get k ((i, w) ∷ m) = ground (arith, has-get k m)

  pub has-keys : (k : String) (m : Dict V) → StringSet.has k (keys m) ≡ has k m
  unfolding has keys StringSet.has
  has-keys k [] = refl
  has-keys k ((i, w) ∷ m) = ground (arith, has-keys k m)

  -- To put an entry that is there changes no key.
  pub has-put_present :
      (k j : String) (old new : V) (m : Dict V) → get k m ≡ some old → has j (put k new m) ≡ has j m
  has-put_present k j old new m e =
      ground (arith, has-put k j new m, has-get k m, has-get j m, ===_iff k j)

  -- A change of every object, `for (const v of m.values()) …`.
  unfoldable pub map_values : (V → V) → Dict V → Dict V
  map_values f [] = []
  map_values f ((j, w) ∷ m) = (j, f w) ∷ map_values f m

  pub get-map_values :
      (f : V → V) (k : String) (m : Dict V) → get k (map_values f m) ≡ Option.map f (get k m)
  unfolding get map_values
  get-map_values f k [] = refl
  get-map_values f k ((i, w) ∷ m) = ground (arith, get-map_values f k m)

  pub has-map_values : (f : V → V) (k : String) (m : Dict V) → has k (map_values f m) ≡ has k m
  unfolding has map_values
  has-map_values f k [] = refl
  has-map_values f k ((i, w) ∷ m) = ground (arith, has-map_values f k m)

  -- Equal keys are there together.
  pub has-same : (k j : String) (m : Dict V) → (k === j) ≡ true → has j m ≡ has k m
  has-same k j m q = ap (λ i. has i m) (sym ((===_iff k j).0 q))
