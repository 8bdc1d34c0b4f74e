-- ===== src/Filters/Solo.antt =====
-- The chips of the namespaces: to show one alone, and then all again.
use flowscape.Base.{
  suc, ◌+◌, String, true, false, not, ◌&&◌, ◌||◌, ◌≡◌, refl, ap, List, [], ◌∷◌, length, arith,
  ◌===◌, ===_iff, ===_refl, ===_cases, inl, inr, if◌then◌else◌,
}
use flowscape.Base.StringSet
use flowscape.Base.StringSet.{StringSet}
use flowscape.GraphState.Types.{Counts}
use flowscape.Filters.Types.{FiltersPanel}
use flowscape.Filters.Operations.{
  add_others, is_only, click_namespace, keep, sync_namespaces, click_machine, toggle, End,
  edge_hidden,
}

-- Each name once.
abbrev pub Once : StringSet → Type 0
Once [] = Unit {0}
Once (x ∷ xs) = (StringSet.has x xs ≡ false) × Once xs

length-add :
    (x : String) (xs : StringSet)
    → length (StringSet.add x xs) ≡ (if StringSet.has x xs then length xs else suc (length xs))
unfolding StringSet.add StringSet.has
length-add x [] = refl
length-add x (y ∷ xs) = ground (arith, length-add x xs)

pub has-nil : (x : String) → StringSet.has x [] ≡ false
unfolding StringSet.has
has-nil x = refl

pub has-add_others :
    (ns x : String) (chips hidden : StringSet)
    → StringSet.has x (add_others ns chips hidden)
      ≡ (StringSet.has x chips && not (ns === x)) || StringSet.has x hidden
unfolding add_others StringSet.has
has-add_others ns x [] hidden = refl
has-add_others ns x (c ∷ chips) hidden = ground (
  arith,
  has-add_others ns x chips (if c === ns then hidden else StringSet.add c hidden),
  StringSet.has-add c x hidden,
  ===_iff c ns,
  ===_iff c x,
  ===_iff ns x,
)

-- Chips that are hidden by none yet.
abbrev Apart : StringSet → StringSet → Type 0
Apart chips hidden = (x : String) → StringSet.has x chips ≡ true → StringSet.has x hidden ≡ false

length-add_others :
    (ns : String) (chips hidden : StringSet)
    → Once chips
    → Apart chips hidden
    → length (add_others ns chips hidden) + (if StringSet.has ns chips then 1 else 0)
      ≡ length hidden + length chips
unfolding add_others StringSet.has
length-add_others ns [] hidden once apart = refl
length-add_others ns (c ∷ chips) hidden once apart = elim (===_cases c ns) [
  | inl (e, q) ↦
      let rest = length-add_others ns chips hidden once.1 (λ x h. apart x (ground arith)) in
      let first = ap (λ x. StringSet.has x chips) e in rw q (ground (arith, rest, once.0, first))
  | inr (e, q) ↦
      let away : Apart chips (StringSet.add c hidden) =
        λ x h. ground (arith, StringSet.has-add c x hidden, ===_iff c x, apart x, once.0) in
      let rest = length-add_others ns chips (StringSet.add c hidden) once.1 away in
      let new = length-add c hidden in
      let free = apart c (ground (arith, ===_refl c)) in rw q (ground (arith, rest, new, free))
]

module _ (p : FiltersPanel) (ns : String) (several : is_only p ns ≡ false) where
  -- A click that asks for a namespace alone, where the test of the sizes fails, hides exactly the
  -- other ones that have a chip.
  pub solo-hides :
      (x : String)
      → StringSet.has x (click_namespace p true ns).filters.namespaces
        ≡ StringSet.has x p.chips && not (ns === x)
  unfolding click_namespace
  solo-hides x = rw several (ground (arith, has-add_others ns x p.chips [], has-nil x))

  -- Where the test of the sizes fails, a second such click shows all, as long as each chip is there
  -- once and the namespace has one.
  pub solo_again :
      Once p.chips
      → StringSet.has ns p.chips ≡ true
      → (click_namespace (click_namespace p true ns) true ns).filters.namespaces ≡ []
  unfolding click_namespace
  solo_again once listed =
      let size = length-add_others ns p.chips [] once (λ x h. has-nil x) in
      let gone : StringSet.has ns (add_others ns p.chips []) ≡ false =
        ground (arith, has-add_others ns ns p.chips [], has-nil ns, ===_refl ns) in
      rw several (ground (arith, size, gone, listed))

  -- After such a click, where the test of the sizes fails, an edge with its second end in another
  -- namespace that has a chip is hidden, whatever its machines, its protocol and its traffic.
  pub solo-edge_hidden :
      (src dst : End) (proto : String) (counts : Counts)
      → StringSet.has dst.ns p.chips ≡ true
      → ns === dst.ns ≡ false
      → edge_hidden (click_namespace p true ns).filters src dst proto counts ≡ true
  unfolding edge_hidden
  solo-edge_hidden src dst proto counts listed other = let there = solo-hides dst.ns in ground arith

has-keep :
    (x : String) (want chips : StringSet)
    → StringSet.has x (keep want chips) ≡ StringSet.has x chips && StringSet.has x want
unfolding keep StringSet.has
has-keep x want [] = refl
has-keep x want (c ∷ chips) = ground (arith, has-keep x want chips, ===_iff c x)

-- After the chips are brought in line with the graph, exactly the namespaces named have one.
pub sync_namespaces-chips :
    (p : FiltersPanel) (names : List String) (x : String)
    → StringSet.has x (sync_namespaces p names).chips ≡ StringSet.has x names
unfolding sync_namespaces
sync_namespaces-chips p names x =
    ground (arith, StringSet.has-add_all names x (keep names p.chips), has-keep x names p.chips)

-- Two clicks on the chip of a machine hide the machines that were hidden before.
pub click_machine_twice :
    (p : FiltersPanel) (y x : String)
    → StringSet.has x (click_machine (click_machine p y) y).filters.machines
      ≡ StringSet.has x p.filters.machines
unfolding click_machine toggle
click_machine_twice p y x =
    let s = p.filters.machines in
    ground (
      arith,
      StringSet.has-add y x s,
      StringSet.has-delete y x s,
      StringSet.has-add y y s,
      StringSet.has-delete y y s,
      StringSet.has-add y x (StringSet.delete y s),
      StringSet.has-delete y x (StringSet.add y s),
      ===_refl y,
      ===_iff y x,
    )
