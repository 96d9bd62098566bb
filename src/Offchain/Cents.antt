-- ===== src/Offchain/Cents.antt =====
-- pallets/offchain-worker/src/lib.rs: which price `parse_price` reads out of a JSON object.
use konomi_node.Base.{
  ℕ, zero, suc, ◌+◌, ◌-◌, ◌*◌, ◌^◌, ◌/◌, ◌≤◌, ◌<◌, ◌≡◌, ◌≢◌, Bool, Option, none, some, List, [],
  ◌∷◌, arith, u32_size, u64_size, mul_word_fits, add_word_fits, div_word_pos, refl, subst, map,
}
use native.Mathlib.Nat.{mod-eq_of_lt, pow-le-pow_right, mul-add-div, div-one, div-lt_iff_lt-mul}
use konomi_node.Offchain.Parse.{
  NumberValue, FieldValue, JsonValue, object, usd, matches_next, find_field, find_price, pow_ten,
  cents, parse_price,
}

pow_ten_fits : (checks : Bool) (n : ℕ) → 10 ^ n < u64_size → pow_ten checks n ≡ some (10 ^ n)
unfolding pow_ten
pow_ten_fits checks n h = ground arith

pow_ten_pos : (n : ℕ) → 0 < 10 ^ n
pow_ten_pos zero = omega arith
pow_ten_pos (suc n) = let h = pow_ten_pos n in omega arith

scale_fits : (n : ℕ) → n ≤ 21 → 10 ^ (n - 2) < u64_size
scale_fits n h =
    let most : 10 ^ (n - 2) ≤ 10 ^ 19 = pow-le-pow_right (omega arith) {j = 19} (omega arith) in
    omega arith

hundredths : (n : ℕ) → 2 ≤ n → 10 ^ n ≡ 100 * 10 ^ (n - 2)
hundredths zero h = omega arith
hundredths (suc zero) h = omega arith
hundredths (suc (suc n)) h = let same : suc (suc n) - 2 ≡ n = omega arith in rw same (omega arith)

scaled :
    (a b n : ℕ)
    → 2 ≤ n
    → b < 10 ^ n
    → (b / 10 ^ (n - 2) < 100) × ((a * 10 ^ n + b) / 10 ^ (n - 2) ≡ a * 100 + b / 10 ^ (n - 2))
scaled a b n two digits =
    let z = 10 ^ (n - 2) in
    let pos : 0 < z = pow_ten_pos (n - 2) in
    let e : 10 ^ n ≡ 100 * z = hundredths n two in
    let f : a * 10 ^ n + b ≡ z * (a * 100) + b = rw e (omega arith) in
    ((div-lt_iff_lt-mul pos).1 (subst (λ x. b < x) e digits), rw f (mul-add-div pos (a * 100) b))

module _ (checks : Bool) (price : NumberValue) where
  open price use {integer, fraction, fraction_length}

  abbrev scale : ℕ
  scale = 10 ^ (fraction_length - 2)

  cents_lem :
      integer * 100 + fraction / scale < u32_size
      → scale < u64_size
      → cents checks price ≡ some (integer * 100 + fraction / scale)
  unfolding cents
  cents_lem small fits =
      rw
        (
          mod-eq_of_lt {n = integer} {m = u32_size} (omega arith),
          mul_word_fits u32_size checks integer 100 (omega arith),
          pow_ten_fits checks (fraction_length - 2) fits,
          div_word_pos fraction scale (pow_ten_pos (fraction_length - 2)),
          mod-eq_of_lt {n = fraction / scale} {m = u32_size} (omega arith),
          add_word_fits u32_size checks (integer * 100) (fraction / scale) small,
        )
        refl

  tenth_lem :
      fraction_length ≡ 1
      → fraction < 10
      → integer * 100 + 10 ≤ u32_size
      → cents checks price ≡ some (integer * 100 + fraction)
  tenth_lem one digit small =
      let unit : fraction / scale ≡ fraction = rw one (div-one fraction) in
      subst (λ cs. cents checks price ≡ some (integer * 100 + cs)) unit
        (cents_lem (rw unit (omega arith)) (rw one (omega arith)))

  module _ (parse_json : List ℕ → Option JsonValue) (text : List ℕ)
      (fields : List (List ℕ × FieldValue))
      (parsed : parse_json text ≡ some (object ((usd, FieldValue.number price) ∷ fields))) where
    parse_price_found :
        {c : ℕ} → cents checks price ≡ some c → parse_price checks parse_json text ≡ some (some c)
    unfolding parse_price find_price find_field matches_next
    parse_price_found h = rw (parse_price, parsed, h) refl

    -- Where the text is an object whose first field is "USD" with a number of `fraction_length`
    -- digits after the point, of 2 to 21 of them, and no exponent, and the price is small enough for
    -- a u32: the price read is the number of whole cents in it, the hundredths rounded down.
    pub parse_price_cents :
        price.exponent ≡ 0
        → 2 ≤ fraction_length
        → fraction_length ≤ 21
        → fraction < 10 ^ fraction_length
        → integer * 100 + 100 ≤ u32_size
        → parse_price checks parse_json text
          ≡ some (some ((integer * 10 ^ fraction_length + fraction) / 10 ^ (fraction_length - 2)))
    parse_price_cents plain two short digits small =
        let (bounded, whole) = scaled integer fraction fraction_length two digits in
        rw whole (parse_price_found (cents_lem (omega arith) (scale_fits fraction_length short)))

    -- Where the text is an object whose first field is "USD" with a number that has one digit
    -- after the point, whatever its exponent, and the price is small enough for a u32: that digit is
    -- added as so many cents, not as tenths.
    pub parse_price_tenth :
        fraction_length ≡ 1
        → fraction < 10
        → integer * 100 + 10 ≤ u32_size
        → parse_price checks parse_json text ≡ some (some (integer * 100 + fraction))
    parse_price_tenth one digit small = parse_price_found (tenth_lem one digit small)

-- Fields whose keys start with "U".
abbrev with_u : List (List ℕ × FieldValue) → List (List ℕ × FieldValue)
with_u = map (λ field. (b'U' ∷ field.0, field.1))

-- Every such key uses up one character of the iterator, where none of its characters is "U".
missed_end : (fields : List (List ℕ × FieldValue)) → find_field (with_u fields) [] ≡ none
unfolding find_field matches_next
missed_end [] = refl
missed_end (field ∷ fields) = missed_end fields

missed_d : (fields : List (List ℕ × FieldValue)) → find_field (with_u fields) (b'D' ∷ []) ≡ none
unfolding find_field matches_next
missed_d [] = refl
missed_d (field ∷ fields) = missed_end fields

missed_sd :
    (fields : List (List ℕ × FieldValue)) → find_field (with_u fields) (b'S' ∷ b'D' ∷ []) ≡ none
unfolding find_field matches_next
missed_sd [] = refl
missed_sd (field ∷ fields) = missed_d fields

-- Where the text is an object whose first key starts with another character than "U", and all
-- the keys behind it start with "U": no price is read, also where "USD" is one of them.
pub parse_price_misses :
    (checks : Bool) (parse_json : List ℕ → Option JsonValue) (text : List ℕ) (k : ℕ) (key : List ℕ)
    (value : FieldValue) (fields : List (List ℕ × FieldValue))
    → parse_json text ≡ some (object ((k ∷ key, value) ∷ with_u fields))
    → k ≢ b'U'
    → parse_price checks parse_json text ≡ some none
unfolding parse_price find_price find_field matches_next
parse_price_misses checks parse_json text k key value fields parsed other =
    rw (parse_price, parsed) (ground (arith, missed_sd fields))
