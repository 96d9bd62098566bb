-- ===== src/Tests/OffchainRuns.antt =====
-- Runs of the offchain worker's price, and its theorems at concrete states.
use konomi_node.Base.{
  ℕ, ◌≡◌, refl, true, false, some, none, arith, ok, List, [], ◌∷◌, Origin, add_word, mul_word,
  div_word, after,
}
use konomi_node.Offchain.State.{Worker, Config, stale, valid}
use konomi_node.Offchain.Parse.{
  JsonValue, object, number, other, usd, parse_price, find_price, find_field, matches_next, cents,
  pow_ten,
}
use konomi_node.Offchain.Calls.{
  accepted, submits_price_unsigned, answer, sent, submit_price_unsigned, validate_unsigned,
  fetch_price_and_send_raw_unsigned, fetch_price,
}
use konomi_node.Offchain.Window.{submit_price_unsigned-stale, fetch_price_and_send-valid}
use konomi_node.Offchain.Cents.{parse_price_cents, parse_price_tenth, parse_price_misses}
use konomi_node.Tests.AssetsRuns.{blank}
use konomi_node.Tests.Fixed.{decimals}

abbrev every_ten : Config
every_ten = record {
  unsigned_priority = 7;
  unsigned_interval = 10;
  fixed = decimals;
  checks = true;
}

abbrev waiting : Worker
waiting = record { assets = blank; next_unsigned_at = 20; block_number = 30; events = [] }

abbrev unsigned : Origin
unsigned = record { signed_by = none; is_root = false; is_none = true }

-- {"USD": 155.25}
abbrev one_price : List ℕ → JsonValue
one_price text = object (
    (usd, number (record { integer = 155; fraction = 25; fraction_length = 2; exponent = 0 })) ∷ [])

submitted :
    submit_price_unsigned every_ten unsigned 25 15_525 waiting
    ≡ ok tt (after waiting (submit_price_unsigned every_ten unsigned 25 15_525 waiting))
unfolding submit_price_unsigned add_word
submitted = refl

submit_price_unsigned-stale_example :
    validate_unsigned every_ten
      (submits_price_unsigned 35 15_525)
      (after waiting (submit_price_unsigned every_ten unsigned 25 15_525 waiting))
    ≡ stale
submit_price_unsigned-stale_example =
    submit_price_unsigned-stale every_ten waiting unsigned 25 15_525
      (after waiting (submit_price_unsigned every_ten unsigned 25 15_525 waiting)) refl submitted 35
      15_525 (omega arith)

fetched :
    fetch_price_and_send_raw_unsigned every_ten
      (λ text. some (one_price text))
      (answer 200 (some []))
      25
      waiting
    ≡ sent (submits_price_unsigned 25 15_525)
unfolding fetch_price_and_send_raw_unsigned fetch_price parse_price find_price find_field
    matches_next cents pow_ten add_word mul_word div_word
fetched = refl

fetch_price_and_send-valid_example :
    validate_unsigned every_ten (submits_price_unsigned 25 15_525) waiting
    ≡ valid (accepted every_ten 20)
fetch_price_and_send-valid_example =
    fetch_price_and_send-valid every_ten waiting (λ text. some (one_price text))
      (answer 200 (some [])) 25 (submits_price_unsigned 25 15_525) fetched (omega arith)

-- 155.257, and 1.5
parse_price_cents_example :
    parse_price true
      (λ text. some (
        object (
          (
            usd,
            number (record { integer = 155; fraction = 257; fraction_length = 3; exponent = 0 }),
          )
          ∷ [])))
      []
    ≡ some (some 15_525)
parse_price_cents_example =
    parse_price_cents true
      (record { integer = 155; fraction = 257; fraction_length = 3; exponent = 0 })
      (λ text. some (
        object (
          (
            usd,
            number (record { integer = 155; fraction = 257; fraction_length = 3; exponent = 0 }),
          )
          ∷ [])))
      [] [] refl refl (omega arith) (omega arith) (omega arith) (omega arith)

parse_price_tenth_example :
    parse_price true
      (λ text. some (
        object (
          (usd, number (record { integer = 1; fraction = 5; fraction_length = 1; exponent = 0 }))
          ∷ [])))
      []
    ≡ some (some 105)
parse_price_tenth_example =
    parse_price_tenth true (record { integer = 1; fraction = 5; fraction_length = 1; exponent = 0 })
      (λ text. some (
        object (
          (usd, number (record { integer = 1; fraction = 5; fraction_length = 1; exponent = 0 }))
          ∷ [])))
      [] [] refl refl (omega arith) (omega arith)

-- {"EUR": .., "USD": 155.25}
parse_price_misses_example :
    parse_price true
      (λ text. some (
        object (
          (b'E' ∷ b'U' ∷ b'R' ∷ [], other)
          ∷ (
            usd,
            number (record { integer = 155; fraction = 25; fraction_length = 2; exponent = 0 }),
          )
          ∷ [])))
      []
    ≡ some none
parse_price_misses_example =
    parse_price_misses true
      (λ text. some (
        object (
          (b'E' ∷ b'U' ∷ b'R' ∷ [], other)
          ∷ (
            usd,
            number (record { integer = 155; fraction = 25; fraction_length = 2; exponent = 0 }),
          )
          ∷ [])))
      [] b'E' (b'U' ∷ b'R' ∷ []) other
      ((
        b'S' ∷ b'D' ∷ [],
        number (record { integer = 155; fraction = 25; fraction_length = 2; exponent = 0 }),
      )
        ∷ [])
      refl (omega arith)
