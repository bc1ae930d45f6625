-- ===== src/Value/Float.antt =====
-- float64 by its bits: the tests and comparisons of IEEE 754 that fastpath.go uses, and the
-- conversion of an integer, rounded to nearest even.
use schemix.Prelude.{
  ℕ, zero, suc, ◌+◌, ◌-◌, ◌*◌, ◌/◌, ◌%◌, ◌^◌, ℤ, pos, negsuc, Bool, ◌&&◌, ◌||◌, not, ltb, leb, ◌==◌,
  ltb_ℤ, leb_ℤ, if◌then◌else◌,
}

abbrev sign_bit : ℕ
sign_bit = 2 ^ 63

-- exponent all ones, fraction zero
abbrev infinity : ℕ
infinity = 0x7ff0000000000000

magnitude : ℕ → ℕ
magnitude b = b % sign_bit

-- `math.IsNaN`
unfoldable pub is_nan : ℕ → Bool
unfolding magnitude
is_nan b = ltb infinity (magnitude b)

-- `math.IsInf(f, 0)`
unfoldable pub is_inf : ℕ → Bool
unfolding magnitude
is_inf b = magnitude b == infinity

-- The bits in the order of the numbers: the two zeros coincide.
unfoldable pub key : ℕ → ℤ
unfolding magnitude
key b =
    if leb sign_bit b
    then (if magnitude b == 0 then pos 0 else negsuc (magnitude b - 1))
    else pos (magnitude b)

abbrev comparable : ℕ → ℕ → Bool
comparable a b = not (is_nan a) && not (is_nan b)

-- `a < b`, `a <= b` and `a == b` on float64: false when either is NaN
unfoldable pub float_lt : ℕ → ℕ → Bool
unfolding is_nan key
float_lt a b = comparable a b && ltb_ℤ (key a) (key b)

unfoldable pub float_le : ℕ → ℕ → Bool
unfolding is_nan key
float_le a b = comparable a b && leb_ℤ (key a) (key b)

unfoldable pub float_eq : ℕ → ℕ → Bool
unfolding is_nan key
float_eq a b = float_le a b && float_le b a

-- The number of binary digits of `n`, with fuel.
bit_length : ℕ → ℕ → ℕ
bit_length zero n = 0
bit_length (suc f) n = let rest = bit_length f (n / 2) in if n == 0 then 0 else suc rest

-- `n` shifted right by `k`, rounded to nearest, ties to even
round_shift : ℕ → ℕ → ℕ
round_shift n k =
    let q = n / 2 ^ k in
    let r = n % 2 ^ k in
    let half = 2 ^ (k - 1) in if ltb half r || (r == half && q % 2 == 1) then q + 1 else q

-- The bits of a positive number: a carry out of the fraction steps the exponent.
encode_pos : ℕ → ℕ → ℕ
encode_pos n width =
    if leb width 53
    then (width + 1022) * 2 ^ 52 + (n * 2 ^ (53 - width) - 2 ^ 52)
    else (width + 1022) * 2 ^ 52 + (round_shift n (width - 53) - 2 ^ 52)

-- An int64 has at most 64 binary digits.
float_of_nat : ℕ → ℕ
float_of_nat n = if n == 0 then 0 else encode_pos n (bit_length 65 n)

-- `float64(n)` of an int64
unfoldable pub float_of_int : ℤ → ℕ
unfolding float_of_nat encode_pos round_shift bit_length
float_of_int (pos n) = float_of_nat n
float_of_int (negsuc n) = sign_bit + float_of_nat (suc n)
