-- ===== src/Base/Numbers.antt =====
-- The numbers of the language where the code computes with coordinates: their operations, of which
-- nothing is assumed. A literal 2.2 is the quotient of 22 and 10, as the nearest number is; `rest` is `%`, `single`
-- is what a `Float32Array` stores; `x >= y` is `not (below x y)`, since nothing here is not a number.
use Prim.Native.Nat.{ℕ}
use mathlib.Core.Bool.{Bool}

pub record Numbers : Type 1 where
  pub R : Type 0
  pub of : ℕ → R
  pub plus : R → R → R
  pub minus : R → R → R
  pub times : R → R → R
  pub over : R → R → R
  pub rest : R → R → R
  pub neg : R → R
  pub least : R → R → R
  pub most : R → R → R
  pub abs : R → R
  pub sqrt : R → R
  pub cos : R → R
  pub sin : R → R
  pub hypot : R → R → R
  pub exp : R → R
  pub log1p : R → R
  pub pi : R
  pub single : R → R
  pub below : R → R → Bool

-- `Vec3` of web/src/layout.ts.
pub record Vec3 (N : Numbers) : Type 0 where
  pub x : N.R
  pub y : N.R
  pub z : N.R
