-- ===== src/Base/Doubles.antt =====
-- The language's numbers, where rounding shows: a double that is not negative is a whole number of
-- units of 2 ^ -1074, of which the smallest double is one. A sum or a quotient is the nearest double, of
-- two that are as near the even one; nothing here comes near the largest double.
use Prim.Native.Nat.{ℕ, zero, suc, ◌+◌, ◌*◌, ◌/◌, ◌%◌, ◌^◌}
use flowscape.Base.Tests.{ltb, if◌then◌else◌}

pub record Double : Type 0 where
  pub units : ℕ

-- The number 1 in units.
unfoldable pub one : ℕ
one = 2 ^ 1074

-- How many bits of `q` are too many for the 53 of a double; the first argument is at least as many.
unfoldable pub excess : ℕ → ℕ → ℕ
excess zero q = 0
excess (suc k) q = let rest = excess k (q / 2) in if ltb q (2 ^ 53) then 0 else suc rest

-- The whole number next to `n / d`.
abbrev nearest : ℕ → ℕ → ℕ
nearest n d =
    let q = n / d in
    let r = 2 * (n % d) in if ltb r d then q else (if ltb d r then suc q else q + q % 2)

-- `n / d` units; no double has more than 2098 bits in units.
unfoldable pub rounded : ℕ → ℕ → Double
unfolding excess
rounded n d = let t = excess 2098 (n / d) in record { units = nearest n (d * 2 ^ t) * 2 ^ t }

-- `a / b` of whole numbers.
unfoldable pub quotient : ℕ → ℕ → Double
unfolding one rounded
quotient a b = rounded (a * one) b

unfoldable pub sum : Double → Double → Double
unfolding rounded
sum x y = rounded (x.units + y.units) 1
