-- ===== src/Tests/Doubles.antt =====
-- Where the sum of four rates is less than the rate of the sum.
use flowscape.Base.{◌≡◌, refl, true, false, ltb}
use flowscape.Base.Doubles.{one, excess, rounded, quotient, sum}

seven_and_three :
    ltb (sum (sum (sum (quotient 7 10) (quotient 1 10)) (quotient 1 10)) (quotient 1 10)).units one
    ≡ true
unfolding one excess rounded quotient sum
seven_and_three = refl

ten : ltb (quotient 10 10).units one ≡ false
unfolding one excess rounded quotient sum
ten = refl
