-- ===== src/FixedPoint.antt =====
-- `FixedU128` of sp_runtime, which is not part of this repository: its operations are a
-- parameter. A value is its inner u128. `none` is a panic.
use konomi_node.Base.{ℕ, ◌≤◌, ◌<◌, ◌≡◌, Option, some, u128_size}

pub record FixedPoint : Type 0 where
  pub zero_value : ℕ
  pub one_value : ℕ
  pub add : ℕ → ℕ → Option ℕ
  pub mul : ℕ → ℕ → Option ℕ
  pub div : ℕ → ℕ → Option ℕ
  pub saturating_mul_int : ℕ → ℕ → ℕ
  pub saturating_from_rational : ℕ → ℕ → Option ℕ
  pub saturating_from_integer : ℕ → ℕ

-- What the lending pallet relies on of these operations.
pub record IsFixedPoint (f : FixedPoint) : Type 0 where
  pub mul-one : (x : ℕ) → x < u128_size → f.mul x f.one_value ≡ some x
  pub mul-zero : (x : ℕ) → f.mul x f.zero_value ≡ some f.zero_value
  pub from_integer-zero : f.saturating_from_integer 0 ≡ f.zero_value
  pub add-zero : (x : ℕ) → x < u128_size → f.add x f.zero_value ≡ some x
  pub mul-grows : (x y : ℕ) {z : ℕ} → f.one_value ≤ y → f.mul x y ≡ some z → x ≤ z
  pub mul_int-one : (n : ℕ) → n < u128_size → f.saturating_mul_int f.one_value n ≡ n
  pub mul_int-grows : (x n : ℕ) → f.one_value ≤ x → n < u128_size → n ≤ f.saturating_mul_int x n
  pub one_value-lt : f.one_value < u128_size

-- That the operations give values of their type, a u128.
pub record IsTypedFixed (f : FixedPoint) : Type 0 where
  pub one_small : f.one_value < u128_size
  pub add_small : (x y : ℕ) {z : ℕ} → f.add x y ≡ some z → z < u128_size
  pub mul_small : (x y : ℕ) {z : ℕ} → f.mul x y ≡ some z → z < u128_size
  pub mul_int_small : (x n : ℕ) → f.saturating_mul_int x n < u128_size
  pub integer_small : (n : ℕ) → f.saturating_from_integer n < u128_size
  pub rational_small : (n d : ℕ) {z : ℕ} → f.saturating_from_rational n d ≡ some z → z < u128_size
