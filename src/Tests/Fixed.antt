-- ===== src/Tests/Fixed.antt =====
-- Fixed-point numbers with 18 decimals, rounded down, that meet what the pallets rely on.
use konomi_node.Base.{
  ℕ, ◌+◌, ◌-◌, ◌*◌, ◌/◌, ◌^◌, ◌≤◌, Option, some, none, min, arith, ltb, ◌==◌, if◌then◌else◌,
  u128_size,
}
use native.Mathlib.Nat.{le-div_iff_mul-le, mul-le-mul_left, mul_comm}
use konomi_node.FixedPoint.{FixedPoint, IsFixedPoint, IsTypedFixed}

abbrev accuracy : ℕ
accuracy = 10 ^ 18

abbrev or_overflow : ℕ → Option ℕ
or_overflow n = if ltb n u128_size then some n else none

abbrev pub decimals : FixedPoint
decimals = record {
  zero_value = 0;
  one_value = accuracy;
  add = λ x y. or_overflow (x + y);
  mul = λ x y. or_overflow (x * y / accuracy);
  div = λ x y. if y == 0 then none else or_overflow (x * accuracy / y);
  saturating_mul_int = λ x n. min (x * n / accuracy) (u128_size - 1);
  saturating_from_rational =
      λ n d. if d == 0 then none else some (min (n * accuracy / d) (u128_size - 1));
  saturating_from_integer = λ n. min (n * accuracy) (u128_size - 1);
}

grown : (x y : ℕ) → accuracy ≤ y → x ≤ x * y / accuracy
grown x y h = (le-div_iff_mul-le (omega arith)).1 (mul-le-mul_left x h)

pub decimals-IsFixedPoint : IsFixedPoint decimals
decimals-IsFixedPoint = record {
  mul-one = λ x h. ground arith;
  mul-zero = λ x. ground arith;
  from_integer-zero = omega arith;
  add-zero = λ x h. ground arith;
  mul-grows = λ x y {z} h e. ground (arith, grown x y h);
  mul_int-one = λ n h. omega arith;
  mul_int-grows = λ x n h l. ground (arith, grown n x h, mul_comm n x);
  one_value-lt = omega arith;
}

pub decimals-IsTypedFixed : IsTypedFixed decimals
decimals-IsTypedFixed = record {
  one_small = omega arith;
  add_small = λ x y {z} e. ground arith;
  mul_small = λ x y {z} e. ground arith;
  mul_int_small = λ x n. omega arith;
  integer_small = λ n. omega arith;
  rational_small = λ n d {z} e. ground arith;
}
