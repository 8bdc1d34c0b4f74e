-- ===== src/Theme.antt =====
-- The colours of web/src/theme.ts. `units` has the UTF-16 units of a text, `set_hsl` and `hex` are the
-- ones of three.js's `Color`.
pub mod Cached
use flowscape.Base.{
  ℕ, ◌*◌, ◌%◌, ◌^◌, ◌+◌, String, Bool, true, false, not, List, foldl, Option, none, some, ◌===◌,
  if◌then◌else◌,
}
use Prim.Native.Nat.{bit_xor}
use flowscape.Base.Dict
use flowscape.Base.Dict.{Dict}
use flowscape.Base.Numbers.{Numbers}

pub record Color (N : Numbers) : Type 0 where
  pub r : N.R
  pub g : N.R
  pub b : N.R

-- `x ^= unit; x = Math.imul(x, 16777619) >>> 0`, of a 32-bit number.
unfoldable pub mix_unit : ℕ → ℕ → ℕ
mix_unit x unit = (bit_xor x unit * 16777619) % 2 ^ 32

unfoldable pub hash : List ℕ → ℕ
unfolding mix_unit
hash units = foldl mix_unit 2166136261 units

module _ (N : Numbers) (units : String → List ℕ) where
  abbrev lit : ℕ → ℕ → N.R
  lit m n = N.over (N.of m) (N.of n)

  -- `((x % 1000) / 1000 + 0.618033988749895 * (x % 7)) % 1`
  unfoldable pub hue_of : String → N.R
  hue_of ns =
      let x = hash (units ns) in
      N.rest (N.plus (lit (x % 1000) 1000) (N.times (lit 618033988749895 (10 ^ 15)) (N.of (x % 7))))
        (N.of 1)

  -- The hue and `hueCache` after the call.
  unfoldable pub namespace_hue : Dict N.R → String → N.R × Dict N.R
  namespace_hue cache ns = elim (Dict.get ns cache) [
    | some h ↦ (h, cache)
    | none ↦ (hue_of ns, Dict.put ns (hue_of ns) cache)
  ]

  module _ (set_hsl : N.R → N.R → N.R → Color N) (reserved : Color N) where
    unfoldable pub namespace_color : Dict N.R → String → N.R → N.R → Color N × Dict N.R
    namespace_color cache ns s l =
        let (hue, cache') = namespace_hue cache ns in
        if ns === "reserved" then (reserved, cache) else (set_hsl hue s l, cache')

    unfoldable pub machine_color : Dict N.R → String → Color N × Dict N.R
    machine_color cache name =
        let (hue, cache') = namespace_hue cache name in
        (set_hsl (N.rest (N.plus hue (lit 37 100)) (N.of 1)) (lit 5 10) (lit 72 100), cache')

-- The colour of an arc: the verdicts' colours by their share of the rate. `hex` reads a colour.
unfoldable pub verdict_color : (N : Numbers) → (String → Color N) → N.R → N.R → N.R → N.R → Color N
verdict_color N hex f d a e =
    let total = N.plus (N.plus (N.plus f d) a) e in
    let forwarded = hex "#35d6ff" in
    let dropped = hex "#ff3b5c" in
    let audit = hex "#ffb020" in
    let error = hex "#c084fc" in
    let share = N.over f total in
    let channel : N.R → N.R → N.R → N.R → N.R = λ w x y z.
      N.plus (N.times w share)
        (N.over (N.plus (N.plus (N.times x d) (N.times y a)) (N.times z e)) total) in
    if not (N.below (N.of 0) total) then forwarded else record {
      r = channel forwarded.r dropped.r audit.r error.r;
      g = channel forwarded.g dropped.g audit.g error.g;
      b = channel forwarded.b dropped.b audit.b error.b;
    }
