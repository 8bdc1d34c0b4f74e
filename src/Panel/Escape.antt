-- ===== src/Panel/Escape.antt =====
-- `esc` of web/src/panel.ts, which every text goes through on its way into the panel's HTML. A text is
-- the list of its units.
use Prim.Native.Char.{code}
use Prim.Native.String.{String}
use native.Mathlib.Decide.{ℕ_discrete}
use flowscape.Base.{
  ℕ, Bool, true, false, not, ◌&&◌, ◌||◌, ◌≡◌, refl, sym, subst, ◌∙◌, ap, List, [], ◌∷◌, ◌++◌, arith,
  eqb, if◌then◌else◌,
}

-- The units of a literal.
abbrev codes : String → List ℕ
codes String.[] = []
codes (String.◌∷◌ c s) = code c ∷ codes s

abbrev pub escape_unit : ℕ → List ℕ
escape_unit c =
    if eqb c b'&'
    then codes "&amp;"
    else (if eqb c b'<'
        then codes "&lt;"
        else (if eqb c b'>'
            then codes "&gt;"
            else (if eqb c b'"'
                then codes "&quot;"
                else (if eqb c b'\'' then codes "&#39;" else c ∷ []))))

unfoldable pub esc : List ℕ → List ℕ
esc [] = []
esc (c ∷ s) = escape_unit c ++ esc s

-- What a page does with a text: a character reference, from `&` to `;`, stands for its character.
abbrev same_units : List ℕ → List ℕ → Bool
same_units [] [] = true
same_units [] (d ∷ t) = false
same_units (c ∷ s) [] = false
same_units (c ∷ s) (d ∷ t) = eqb c d && same_units s t

abbrev pub referred : List ℕ → List ℕ
referred name =
    if same_units name (codes "amp")
    then b'&' ∷ []
    else (if same_units name (codes "lt")
        then b'<' ∷ []
        else (if same_units name (codes "gt")
            then b'>' ∷ []
            else (if same_units name (codes "quot")
                then b'"' ∷ []
                else (if same_units name (codes "#39")
                    then b'\'' ∷ []
                    else b'&' ∷ name ++ (b';' ∷ [])))))

unfoldable mutual
  -- Outside of a reference.
  pub page_text : List ℕ → List ℕ
  page_text [] = []
  page_text (c ∷ s) = elim (eqb c b'&') [ true ↦ in_reference [] s | false ↦ c ∷ page_text s ]

  -- Inside one, after these units.
  in_reference : List ℕ → List ℕ → List ℕ
  in_reference name [] = b'&' ∷ name
  in_reference name (c ∷ s) = elim (eqb c b';') [
    | true ↦ referred name ++ page_text s
    | false ↦ in_reference (name ++ (c ∷ [])) s
  ]

-- No unit that ends a text or an attribute in quotes.
unfoldable pub is_plain : List ℕ → Bool
is_plain [] = true
is_plain (c ∷ s) = not (eqb c b'<' || eqb c b'>' || eqb c b'"' || eqb c b'\'') && is_plain s

-- The five units that are escaped.
unfoldable is_special : ℕ → Bool
is_special c = eqb c b'&' || eqb c b'<' || eqb c b'>' || eqb c b'"' || eqb c b'\''

-- A unit is one of them or none.
unit_cases :
    (P : ℕ → Type 0)
    → P b'&'
    → P b'<'
    → P b'>'
    → P b'"'
    → P b'\''
    → ((c : ℕ) → is_special c ≡ false → P c)
    → (c : ℕ) → P c
unfolding is_special
unit_cases P p1 p2 p3 p4 p5 p6 c = elim (ℕ_discrete c b'&') [
  | yes e ↦ subst P (sym e) p1
  | no n1 ↦ elim (ℕ_discrete c b'<') [
    | yes e ↦ subst P (sym e) p2
    | no n2 ↦ elim (ℕ_discrete c b'>') [
      | yes e ↦ subst P (sym e) p3
      | no n3 ↦ elim (ℕ_discrete c b'"') [
        | yes e ↦ subst P (sym e) p4
        | no n4 ↦ elim (ℕ_discrete c b'\'') [
          | yes e ↦ subst P (sym e) p5
          | no n5 ↦ p6 c (ground arith)
        ]
      ]
    ]
  ]
]

escape_ordinary : (c : ℕ) → is_special c ≡ false → escape_unit c ≡ c ∷ []
unfolding is_special
escape_ordinary c h = ground arith

ordinary-begins : (c : ℕ) → is_special c ≡ false → eqb c b'&' ≡ false
unfolding is_special
ordinary-begins c h = ground arith

page_text-escape_unit : (s : List ℕ) (c : ℕ) → page_text (escape_unit c ++ s) ≡ c ∷ page_text s
unfolding page_text
page_text-escape_unit s =
    unit_cases (λ c. page_text (escape_unit c ++ s) ≡ c ∷ page_text s) refl refl refl refl refl
      (λ c h. ap (λ e. page_text (e ++ s)) (escape_ordinary c h) ∙ kept c (ordinary-begins c h))
  where
    kept : (c : ℕ) → eqb c b'&' ≡ false → page_text (c ∷ s) ≡ c ∷ page_text s
    kept c q = rw (q, page_text) refl

is_plain-escape_unit : (s : List ℕ) (c : ℕ) → is_plain (escape_unit c ++ s) ≡ is_plain s
unfolding is_plain is_special
is_plain-escape_unit s =
    unit_cases (λ c. is_plain (escape_unit c ++ s) ≡ is_plain s) refl refl refl refl refl
      (λ c h. rw (escape_ordinary c h) (ground arith))

esc-text : (s : List ℕ) → page_text (esc s) ≡ s
unfolding esc page_text
esc-text [] = refl
esc-text (c ∷ s) = page_text-escape_unit (esc s) c ∙ ap (◌∷◌ c) (esc-text s)

esc-plain : (s : List ℕ) → is_plain (esc s) ≡ true
unfolding esc is_plain
esc-plain [] = refl
esc-plain (c ∷ s) = is_plain-escape_unit (esc s) c ∙ esc-plain s

-- An escaped text has no unit that could end the text or the attribute that it stands in, and the page
-- shows it as it was.
pub page_text-esc : (s : List ℕ) → (page_text (esc s) ≡ s) × (is_plain (esc s) ≡ true)
page_text-esc s = (esc-text s, esc-plain s)
