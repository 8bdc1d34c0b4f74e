-- ===== src/Filters/Alone.antt =====
-- A namespace that is shown alone, in web/src/filters.ts, and the test of the sizes that looks for it.
use flowscape.Base.{
  suc, ◌≤◌, String, Bool, true, false, not, ◌&&◌, ◌||◌, ◌≡◌, [], ◌∷◌, length, arith, ◌===◌, ===_iff,
  ===_refl, inl, inr, Bool-cases, if◌then◌else◌,
}
use flowscape.Base.StringSet
use flowscape.Base.StringSet.{StringSet}
use flowscape.Filters.Types.{FiltersPanel}
use flowscape.Filters.Operations.{is_only, click_namespace}
use flowscape.Filters.Solo.{Once, has-nil, has-add_others}

abbrev Within : StringSet → StringSet → Type 0
Within s t = (x : String) → StringSet.has x s ≡ true → StringSet.has x t ≡ true

length-delete_le : (x : String) (s : StringSet) → length (StringSet.delete x s) ≤ length s
unfolding StringSet.delete
length-delete_le x [] = omega arith
length-delete_le x (y ∷ s) = ground (arith, length-delete_le x s)

length-delete :
    (x : String) (s : StringSet)
    → StringSet.has x s ≡ true
    → suc (length (StringSet.delete x s)) ≤ length s
unfolding StringSet.delete StringSet.has
length-delete x [] h = absurd (cc)
length-delete x (y ∷ s) h = elim (Bool-cases (y === x)) [
  | inl q ↦ rw q (omega (arith, length-delete_le x s))
  | inr q ↦ rw q (omega (arith, length-delete x s (ground arith)))
]

-- A set has no more elements than a set that it lies in.
length-Within : (s t : StringSet) → Once s → Within s t → length s ≤ length t
unfolding StringSet.has
length-Within [] t once w = omega arith
length-Within (x ∷ s) t once w =
    let there = w x (ground (arith, ===_refl x)) in
    let rest =
      length-Within s (StringSet.delete x t) once.1
        (λ y h. ground (arith, StringSet.has-delete x y t, ===_iff x y, once.0, h, w y)) in
    omega (arith, rest, length-delete x t there)

-- Each chip is that of `ns`, or of a namespace that is hidden.
abbrev pub others_hidden : String → StringSet → StringSet → Bool
others_hidden ns hidden [] = true
others_hidden ns hidden (y ∷ chips) =
    ((ns === y) || StringSet.has y hidden) && others_hidden ns hidden chips

-- `ns` is shown, and no other namespace that has a chip is.
abbrev pub shown_alone : FiltersPanel → String → Bool
shown_alone p ns =
    not (StringSet.has ns p.filters.namespaces) && others_hidden ns p.filters.namespaces p.chips

others-hidden :
    (ns : String) (hidden chips : StringSet)
    → others_hidden ns hidden chips ≡ true
    → Within chips (ns ∷ hidden)
unfolding StringSet.has
others-hidden ns hidden [] all x h = absurd (cc)
others-hidden ns hidden (y ∷ chips) all x h = elim (Bool-cases (y === x)) [
  | inl q ↦ ground (arith, ===_iff y x)
  | inr q ↦ let rest = others-hidden ns hidden chips (ground arith) x (ground arith) in rest
]

-- Some other namespace is shown.
other-shown :
    (ns : String) (hidden chips : StringSet)
    → others_hidden ns hidden chips ≡ false
    → (y : String) × (StringSet.has y chips ≡ true)
      × (ns === y ≡ false)
      × (StringSet.has y hidden ≡ false)
unfolding StringSet.has
other-shown ns hidden [] some = absurd (cc)
other-shown ns hidden (z ∷ chips) some = elim (Bool-cases ((ns === z) || StringSet.has z hidden)) [
  | inl q ↦
      let (y, there, other, shown) = other-shown ns hidden chips (ground arith) in
      (y, ground arith, other, shown)
  | inr q ↦ (z, ground (arith, ===_refl z), ground arith, ground arith)
]

module _ (p : FiltersPanel) (ns : String) (once : Once p.chips) (each : Once p.filters.namespaces)
    (known : Within p.filters.namespaces p.chips) (listed : StringSet.has ns p.chips ≡ true) where
  -- `ns` and the hidden ones have chips.
  within : Within (ns ∷ p.filters.namespaces) p.chips
  unfolding StringSet.has
  within x h = elim (Bool-cases (ns === x)) [
    | inl q ↦ ground (arith, ===_iff ns x)
    | inr q ↦ known x (ground arith)
  ]

  pub is_only-shown_alone : is_only p ns ≡ shown_alone p ns
  unfolding StringSet.has
  is_only-shown_alone = elim (Bool-cases (StringSet.has ns p.filters.namespaces)) [
    | inl off ↦ ground arith
    | inr on ↦
        let most = length-Within (ns ∷ p.filters.namespaces) p.chips (on, each) within in
        elim (Bool-cases (others_hidden ns p.filters.namespaces p.chips)) [
          | inl all ↦
              let least =
                length-Within p.chips (ns ∷ p.filters.namespaces) once
                  (others-hidden ns p.filters.namespaces p.chips all) in
              ground arith
          | inr some ↦
              let (y, there, other, shown) = other-shown ns p.filters.namespaces p.chips some in
              let two =
                length-Within (y ∷ ns ∷ p.filters.namespaces) p.chips (ground arith, (on, each))
                  (λ x h. elim (Bool-cases (y === x)) [
                    | inl q ↦ ground (arith, ===_iff y x)
                    | inr q ↦ within x (ground arith)
                  ]) in
              ground arith
        ]
  ]

  -- Where each chip is there once, each hidden namespace is so once and has a chip still, and the
  -- clicked namespace has one: a click that asks for it alone hides exactly the other ones that have a
  -- chip, unless it is shown alone already; then the click shows all.
  pub click-shown_alone :
      (x : String)
      → StringSet.has x (click_namespace p true ns).filters.namespaces
        ≡ (if shown_alone p ns then false else StringSet.has x p.chips && not (ns === x))
  unfolding click_namespace
  click-shown_alone x = rw is_only-shown_alone (elim (Bool-cases (shown_alone p ns)) [
    | inl q ↦ rw q (has-nil x)
    | inr q ↦ rw q (ground (arith, has-add_others ns x p.chips [], has-nil x))
  ])
