-- ===== src/Python/Floats.antt =====
-- Python's floats: IEEE 754 doubles as 64-bit patterns, sign bit, 11 bits of exponent, 52 bits of
-- fraction. What `float(int)`, the comparisons, `float.is_integer` and `int(float)` do to them.
use kernl.Prelude.{
  ℕ, zero, suc, ◌+◌, ◌-◌, ◌*◌, ◌/◌, ◌%◌, ◌^◌, Bool, true, false, ◌≤◌, ◌<◌, arith, not, ◌&&◌, ◌||◌,
  Option, none, some, ltb, leb, eqb, if◌then◌else◌, ◌≡◌, refl,
}
use native.Mathlib.Nat.{pow-suc}
use kernl.Python.Numbers.{ℤ, pos, negsuc}

-- `bool(x)`: false of both zeros.
unfoldable pub float_truth : ℕ → Bool
float_truth b = not (eqb (b % 2 ^ 63) 0)

-- The bits without the sign, and the sign.
magnitude : ℕ → ℕ
magnitude b = b % 2 ^ 63

is_negative : ℕ → Bool
is_negative b = leb (2 ^ 63) b

infinity : ℕ
infinity = 2047 * 2 ^ 52

unfoldable pub is_nan : ℕ → Bool
unfolding magnitude infinity
is_nan b = ltb infinity (magnitude b)

-- Where a pattern stands in the order of its value, around 2 ^ 63; both zeros stand there.
order_key : ℕ → ℕ
unfolding magnitude is_negative
order_key b = if is_negative b then 2 ^ 63 - magnitude b else 2 ^ 63 + magnitude b

-- A comparison with a NaN is false, but for `!=`.
unfoldable pub float_gt : ℕ → ℕ → Bool
unfolding is_nan order_key
float_gt a b = not (is_nan a) && not (is_nan b) && ltb (order_key b) (order_key a)

unfoldable pub float_ge : ℕ → ℕ → Bool
unfolding is_nan order_key
float_ge a b = not (is_nan a) && not (is_nan b) && leb (order_key b) (order_key a)

unfoldable pub float_eq : ℕ → ℕ → Bool
unfolding is_nan order_key
float_eq a b = not (is_nan a) && not (is_nan b) && eqb (order_key a) (order_key b)

-- `n.bit_length()`, on fuel that is at least `n`'s number of bits.
bit_length_fuel : ℕ → ℕ → ℕ
bit_length_fuel zero n = 0
bit_length_fuel (suc f) n = elim (eqb n 0) [ true ↦ 0 | false ↦ suc (bit_length_fuel f (n / 2)) ]

bit_length : ℕ → ℕ
unfolding bit_length_fuel
bit_length n = bit_length_fuel n n

bits_step :
    (b : Bool) (n l : ℕ)
    → eqb n 0 ≡ b
    → n / 2 < 2 ^ l
    → 2 ^ l ≤ 2 * (n / 2) + (1 - n / 2)
    → (n < 2 ^ (elim b [ true ↦ 0 | false ↦ suc l ]))
      × (2 ^ (elim b [ true ↦ 0 | false ↦ suc l ]) ≤ 2 * n + (1 - n))
bits_step true n l e h k = ground arith
bits_step false n l e h k = ground (arith, pow-suc 2 l)

-- The fuel is enough: `n` has that many bits, between the powers of 2 around it.
bit_length_bounds :
    (f n : ℕ) → n ≤ f → (n < 2 ^ bit_length_fuel f n) × (2 ^ bit_length_fuel f n ≤ 2 * n + (1 - n))
unfolding bit_length_fuel
bit_length_bounds zero n h = omega arith
bit_length_bounds (suc f) n h =
    let below = bit_length_bounds f (n / 2) (omega arith) in
    bits_step (eqb n 0) n (bit_length_fuel f (n / 2)) refl below.0 below.1

-- The nearest double of a positive integer, ties to even. The fraction may carry into the exponent.
nearest : ℕ → ℕ
unfolding bit_length
nearest n =
    let l = bit_length n in
    if leb l 53
    then (l + 1022) * 2 ^ 52 + (n * 2 ^ (53 - l) - 2 ^ 52)
    else let k = l - 53 in
      let q = n / 2 ^ k in
      let r = 2 * (n % 2 ^ k) in
      let carry = if ltb (2 ^ k) r || (eqb r (2 ^ k) && eqb (q % 2) 1) then 1 else 0 in
      (k + 1075) * 2 ^ 52 + (q + carry - 2 ^ 52)

-- `float(n)`; `none` is the OverflowError of an integer beyond the doubles.
nat_to_float : ℕ → Option ℕ
unfolding nearest infinity
nat_to_float zero = some 0
nat_to_float n = if leb infinity (nearest n) then none else some (nearest n)

unfoldable pub int_to_float : ℤ → Option ℕ
unfolding nat_to_float
int_to_float (pos n) = nat_to_float n
int_to_float (negsuc n) = elim (nat_to_float (suc n)) [ none ↦ none | some b ↦ some (2 ^ 63 + b) ]

-- The significand and the exponent (raised by 1075) of a finite double.
significand : ℕ → ℕ
unfolding magnitude
significand b = let m = magnitude b in if ltb m (2 ^ 52) then m else 2 ^ 52 + m % 2 ^ 52

exponent : ℕ → ℕ
unfolding magnitude
exponent b = let m = magnitude b in if ltb m (2 ^ 52) then 1 else m / 2 ^ 52

-- `x.is_integer()`, false of an infinity and of a NaN.
unfoldable pub is_integer : ℕ → Bool
unfolding significand exponent infinity magnitude
is_integer b =
    ltb (magnitude b) infinity
    && (leb 1075 (exponent b) || eqb (significand b % 2 ^ (1075 - exponent b)) 0)

-- `int(x)` of a float that is an integer.
negate : ℕ → ℤ
negate zero = pos 0
negate (suc n) = negsuc n

truncated : ℕ → ℕ
unfolding significand exponent
truncated b =
    let e = exponent b in
    if leb 1075 e then significand b * 2 ^ (e - 1075) else significand b / 2 ^ (1075 - e)

unfoldable pub float_to_int : ℕ → ℤ
unfolding truncated is_negative negate
float_to_int b = if is_negative b then negate (truncated b) else pos (truncated b)

-- 1.0, 2 ^ 53 + 1 (a tie, to even), -2.5, and an integer too large.
int_to_float_one : int_to_float (pos 1) ≡ some 0x3ff0000000000000
unfolding int_to_float
int_to_float_one = refl

int_to_float_tie : int_to_float (pos (2 ^ 53 + 1)) ≡ int_to_float (pos (2 ^ 53))
unfolding int_to_float
int_to_float_tie = refl

int_to_float_overflow : int_to_float (negsuc (10 ^ 400)) ≡ none
unfolding int_to_float
int_to_float_overflow = refl

float_to_int_three : float_to_int 0xc008000000000000 ≡ negsuc 2
unfolding float_to_int
float_to_int_three = refl

is_integer_half : is_integer 0xc004000000000000 ≡ false
unfolding is_integer
is_integer_half = refl
