-- ===== src/Base/Visits.antt =====
-- Loops over the values of a map, each of which touches what stands under the id of the value.
use Prim.Native.String.{String}
use mathlib.Core.Path.{◌≡◌, refl, ap, sym, subst, ◌∙◌}
use mathlib.Core.Bool.{true, false}
use mathlib.Core.Logic.{inl, inr}
use mathlib.Core.List.{[], ◌∷◌, foldl}
use mathlib.Core.Option.{Option, some}
use mathlib.Core.Option.{some-injective}
use native.Mathlib.Omega.{arith}
use flowscape.Base.Tests.{◌===◌, ===_cases, if◌then◌else◌}
use flowscape.Base.Dict
use flowscape.Base.Dict.{Dict}
use flowscape.Base.Keyed.{IsKeyed}
use flowscape.Base.Unique.{IsUnique}

-- `look s x` is what `s` has under `x`.
module _ {S V X : Type 0} (id_of : V → String) (step : S → V → S) (look : S → String → Option X)
    (change : V → Option X → Option X)
    (at : (s : S) (v : V) (x : String)
      → look (step s v) x ≡ (if id_of v === x then change v (look s x) else look s x)) where
  pub missed :
      (m : Dict V) (s : S) (x : String)
      → IsKeyed id_of m
      → Dict.has x m ≡ false
      → look (foldl step s (Dict.values m)) x ≡ look s x
  unfolding Dict.values Dict.has
  missed [] s x keyed away = refl
  missed ((j, v) ∷ m) s x keyed away =
      let other : (id_of v === x) ≡ false = ap (λ i. i === x) keyed.0 ∙ ground arith in
      missed m (step s v) x keyed.1 (ground arith)
      ∙ at s v x
      ∙ ap (λ b. if b then change v (look s x) else look s x) other

  pub visited :
      (m : Dict V) (s : S) (x : String) (v : V)
      → IsKeyed id_of m
      → IsUnique m
      → Dict.get x m ≡ some v
      → look (foldl step s (Dict.values m)) x ≡ change v (look s x)
  unfolding Dict.values Dict.get
  visited [] s x v keyed unique found = absurd (cc)
  visited ((j, w) ∷ m) s x v keyed unique found = elim (===_cases j x) [
    | inl (p, q) ↦
        let same : some w ≡ some v = rw q at found in
        let here : (id_of w === x) ≡ true = ap (λ i. i === x) keyed.0 ∙ q in
        missed m (step s w) x keyed.1 (ap (λ i. Dict.has i m) (sym p) ∙ unique.0)
        ∙ at s w x
        ∙ ap (λ b. if b then change w (look s x) else look s x) here
        ∙ ap (λ u. change u (look s x)) (some-injective w v same)
    | inr (p, q) ↦
        let other : (id_of w === x) ≡ false = ap (λ i. i === x) keyed.0 ∙ q in
        visited m (step s w) x v keyed.1 unique.1 (rw q at found)
        ∙ ap (change v) (at s w x ∙ ap (λ b. if b then change w (look s x) else look s x) other)
  ]

-- What the step at the value under `x` brings about, and the other steps keep.
module _ {S V : Type 0} (id_of : V → String) (step : S → V → S) (I P : S → Type 0) (x : String)
    (keep : (s : S) (v : V) → I s → I (step s v))
    (others : (s : S) (v : V) → (id_of v === x) ≡ false → P s → P (step s v)) where
  passed :
      (m : Dict V) (s : S)
      → IsKeyed id_of m
      → Dict.has x m ≡ false
      → P s
      → P (foldl step s (Dict.values m))
  unfolding Dict.values Dict.has
  passed [] s keyed away h = h
  passed ((j, v) ∷ m) s keyed away h =
      let other : (id_of v === x) ≡ false = ap (λ i. i === x) keyed.0 ∙ ground arith in
      passed m (step s v) keyed.1 (ground arith) (others s v other h)

  pub brought :
      (v : V)
      → ((s : S) → I s → P (step s v))
      → (m : Dict V) (s : S) → IsKeyed id_of m
      → IsUnique m
      → Dict.get x m ≡ some v
      → I s
      → P (foldl step s (Dict.values m))
  unfolding Dict.values Dict.get
  brought v own [] s keyed unique found h = absurd (cc)
  brought v own ((j, w) ∷ m) s keyed unique found h = elim (===_cases j x) [
    | inl (p, q) ↦
        let same : some w ≡ some v = rw q at found in
        passed m (step s w) keyed.1 (ap (λ i. Dict.has i m) (sym p) ∙ unique.0)
          (subst (λ u. P (step s u)) (sym (some-injective w v same)) (own s h))
    | inr (p, q) ↦ brought v own m (step s w) keyed.1 unique.1 (rw q at found) (keep s w h)
  ]
