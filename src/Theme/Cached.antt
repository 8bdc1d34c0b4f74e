-- ===== src/Theme/Cached.antt =====
-- The cache of hues never shows.
use flowscape.Base.{
  ℕ, String, ◌≡◌, refl, ◌∙◌, sym, ap, ap₂, List, [], ◌∷◌, some, Option-cases, inl, inr, ===_cases,
  map,
}
use mathlib.Core.Option.{some-injective}
use flowscape.Base.Dict
use flowscape.Base.Dict.{Dict}
use flowscape.Base.Numbers.{Numbers}
use flowscape.Theme.{Color, hue_of, namespace_hue, namespace_color, machine_color}

-- What the client asks the theme for.
pub data Call (N : Numbers) : Type 0 where
  namespaces : String → N.R → N.R → Call N
  machines : String → Call N

module _ (N : Numbers) (units : String → List ℕ) (set_hsl : N.R → N.R → N.R → Color N)
    (reserved : Color N) where
  unfoldable pub answer : Dict N.R → Call N → Color N × Dict N.R
  answer cache (namespaces ns s l) = namespace_color N units set_hsl reserved cache ns s l
  answer cache (machines name) = machine_color N units set_hsl reserved cache name

  -- The colours of calls made one after the other.
  unfoldable pub answers : Dict N.R → List (Call N) → List (Color N)
  answers cache [] = []
  answers cache (c ∷ cs) = (answer cache c).0 ∷ answers (answer cache c).1 cs

  IsFaithful : Dict N.R → Type 0
  IsFaithful cache = (ns : String) (h : N.R) → Dict.get ns cache ≡ some h → h ≡ hue_of N units ns

  nothing : IsFaithful []
  unfolding IsFaithful Dict.get
  nothing ns h found = absurd (cc)

  faithful-hue :
      (cache : Dict N.R) (ns : String)
      → IsFaithful cache
      → ((namespace_hue N units cache ns).0 ≡ hue_of N units ns)
        × IsFaithful (namespace_hue N units cache ns).1
  unfolding namespace_hue IsFaithful
  faithful-hue cache ns k = elim (Option-cases (Dict.get ns cache)) [
    | inr (h, found) ↦ rw (found, namespace_hue) (k ns h found, k)
    | inl new ↦
        rw (new, namespace_hue)
          (
            refl,
            λ x h found. elim (===_cases ns x) [
              | inl (e, q) ↦
                  let same : some (hue_of N units ns) ≡ some h =
                    rw (Dict.get-put ns x (hue_of N units ns) cache, q) at found in
                  sym (some-injective (hue_of N units ns) h same) ∙ ap (hue_of N units) e
              | inr (e, q) ↦ k x h (rw (Dict.get-put ns x (hue_of N units ns) cache, q) at found)
            ],
          )
  ]

  -- A colour without a cache.
  abbrev fresh : Call N → Color N
  fresh c = (answer [] c).0

  faithful-answer :
      (cache : Dict N.R) (c : Call N)
      → IsFaithful cache
      → ((answer cache c).0 ≡ fresh c) × IsFaithful (answer cache c).1
  unfolding answer namespace_color machine_color
  faithful-answer cache (namespaces ns s l) k =
      let (here, there) = faithful-hue cache ns k in
      let empty = (faithful-hue [] ns nothing).0 in
      elim (===_cases ns "reserved") [
        | inl (e, q) ↦ rw (q, fresh) (refl, k)
        | inr (e, q) ↦ rw (q, fresh) (ap (λ h. set_hsl h s l) (here ∙ sym empty), there)
      ]
  faithful-answer cache (machines name) k =
      let (here, there) = faithful-hue cache name k in
      let empty = (faithful-hue [] name nothing).0 in
      (
        ap
            (λ h.
              set_hsl (N.rest (N.plus h (N.over (N.of 37) (N.of 100))) (N.of 1))
                (N.over (N.of 5) (N.of 10)) (N.over (N.of 72) (N.of 100)))
            (here ∙ sym empty),
        there,
      )

  answers-faithful :
      (cache : Dict N.R) (cs : List (Call N)) → IsFaithful cache → answers cache cs ≡ map fresh cs
  unfolding answers
  answers-faithful cache [] k = refl
  answers-faithful cache (c ∷ cs) k =
      let (here, there) = faithful-answer cache c k in
      ap₂ (λ x xs. x ∷ xs) here (answers-faithful (answer cache c).1 cs there)

  -- Whatever was asked before, a colour is the one that an empty cache gives.
  pub answers-fresh : (cs : List (Call N)) → answers [] cs ≡ map fresh cs
  answers-fresh cs = answers-faithful [] cs nothing
