-- ===== src/Double.antt =====
-- Python floats, as far as lead scores use them: non-negative doubles below 4, each an exact
-- multiple of 2 ^ -58, written as the multiple. Results of additions are rounded to 53 bits, to
-- the nearest and on a tie to the even neighbour, as IEEE 754 binary64 has it.
-- The smallest positive weight is 0.02, whose last bit stands at 2 ^ -58, so no bit is lost.
use leadpulse.Prelude.{ℕ, ◌+◌, ◌-◌, ◌*◌, ◌/◌, ◌%◌, ◌^◌, if◌then◌else◌, ltb, leb, ◌==◌}
use leadpulse.Prelude.{Bool}

abbrev pub Double : Type 0
Double = ℕ

-- 1.0
abbrev pub one : Double
one = 2 ^ 58

-- The distance of neighbouring doubles at a value.
spacing : ℕ → ℕ
spacing n =
    if ltb n (2 ^ 53)
    then 1
    else if ltb n (2 ^ 54)
    then 2
    else if ltb n (2 ^ 55)
    then 4
    else if ltb n (2 ^ 56)
    then 8
    else if ltb n (2 ^ 57)
    then 16
    else if ltb n (2 ^ 58)
    then 32
    else if ltb n (2 ^ 59)
    then 64
    else 128

-- The quotient `n / d` to the nearest whole number, on a tie the even one.
unfoldable pub nearest : ℕ → ℕ → ℕ
nearest n d =
    let q = n / d in
    let twice = 2 * (n % d) in
    if ltb twice d then q else if ltb d twice then q + 1 else if q % 2 == 0 then q else q + 1

-- The double that a literal of two decimals stands for, given in hundredths.
unfoldable pub literal : ℕ → Double
unfolding spacing nearest
literal k = let u = spacing (k * one / 100) in nearest (k * one) (100 * u) * u

unfoldable pub add : Double → Double → Double
unfolding spacing nearest
add a b = let u = spacing (a + b) in nearest (a + b) u * u

-- `a >= b`
abbrev pub at_least : Double → Double → Bool
at_least a b = leb b a

-- `round(a, 2)`, in hundredths.
unfoldable pub round2 : Double → ℕ
unfolding nearest
round2 a = nearest (a * 100) one

-- `a - b` of a double no larger than `a`; a negative result stands as 0.
unfoldable pub sub : Double → Double → Double
unfolding spacing nearest
sub a b = let u = spacing (a - b) in nearest (a - b) u * u
