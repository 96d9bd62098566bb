-- ===== src/Offchain/Parse.antt =====
-- pallets/offchain-worker/src/lib.rs: `parse_price`. The JSON parser is the crate lite_json, a
-- parameter; its values are cut down to what the code looks at. Texts are lists of code points.
use konomi_node.Base.{
  ℕ, ◌-◌, ◌^◌, ◌%◌, Bool, true, false, Option, none, some, List, [], ◌∷◌, ◌==◌, ltb, if◌then◌else◌,
  add_word, mul_word, div_word, or_wrap, u32_size, u64_size,
}
use konomi_node.Base.Panic.{◌>>=◌}

-- `lite_json::NumberValue`: `integer` and `exponent` are the two's complement patterns of the i64
-- and the i32. The code does not look at the exponent.
pub record NumberValue : Type 0 where
  pub integer : ℕ
  pub fraction : ℕ
  pub fraction_length : ℕ
  pub exponent : ℕ

pub data FieldValue : Type 0 where
  number : NumberValue → FieldValue
  other : FieldValue

pub data JsonValue : Type 0 where
  object : List (List ℕ × FieldValue) → JsonValue
  other : JsonValue

-- "USD"
abbrev pub usd : List ℕ
usd = b'U' ∷ b'S' ∷ b'D' ∷ []

-- `k.iter().all(|k| Some(*k) == chars.next())`: the test, and what is left of the iterator.
unfoldable pub matches_next : List ℕ → List ℕ → Bool × List ℕ
matches_next [] chars = (true, chars)
matches_next (k ∷ key) [] = (false, [])
matches_next (k ∷ key) (c ∷ chars) =
    let rest = matches_next key chars in if k == c then rest else (false, chars)

-- `obj.into_iter().find(..)`: one iterator of characters serves all the keys.
unfoldable pub find_field : List (List ℕ × FieldValue) → List ℕ → Option FieldValue
unfolding matches_next
find_field [] chars = none
find_field ((key, value) ∷ fields) chars =
    let (found, chars') = matches_next key chars in
    let rest = find_field fields chars' in if found then some value else rest

as_number : Option FieldValue → Option NumberValue
as_number (some (FieldValue.number n)) = some n
as_number _ = none

unfoldable pub find_price : Option JsonValue → Option NumberValue
unfolding find_field as_number
find_price (some (object fields)) = as_number (find_field fields usd)
find_price _ = none

-- `10_u64.pow(exp)`
unfoldable pub pow_ten : Bool → ℕ → Option ℕ
pow_ten checks exp = or_wrap (ltb (10 ^ exp) u64_size) checks (10 ^ exp) (10 ^ exp % u64_size)

-- The price in cents. The outer `none` is a panic.
unfoldable pub cents : Bool → NumberValue → Option ℕ
unfolding pow_ten
cents checks price = do
  let exp = price.fraction_length - 2
  dollars ← mul_word u32_size checks (price.integer % u32_size) 100
  scale ← pow_ten checks exp
  rest ← div_word price.fraction scale
  add_word u32_size checks dollars (rest % u32_size)

-- The outer option is a panic, the inner one is the code's.
unfoldable pub parse_price : Bool → (List ℕ → Option JsonValue) → List ℕ → Option (Option ℕ)
unfolding find_price cents
parse_price checks parse_json text = elim (find_price (parse_json text)) [
  | none ↦ some none
  | some price ↦ (do c ← cents checks price; some (some c))
]
