-- ===== src/Offchain/Calls.antt =====
-- pallets/offchain-worker/src/lib.rs: the submission of a price, and the check of an unsigned
-- transaction.
use konomi_node.Base.{
  ℕ, Bool, Option, none, some, true, Origin, ◌>>=◌, ◌>>◌, gets, modify, or_panic, ensure, ltb,
  if◌then◌else◌, add_word, u32_size, update, List, ◌==◌, not,
}
use konomi_node.Assets.State
use konomi_node.Offchain.State.{
  Worker, Config, Call, Validity, ValidTransaction, bad_origin, new_price, stale, future,
  other_call, valid, deposit_event,
}
use konomi_node.Offchain.Parse.{JsonValue, parse_price}

-- `AssetId::from(4u32)`
abbrev pub priced_asset : ℕ
priced_asset = 4

-- `<assets::Module<T>>::_set_price`
abbrev pub put_price : ℕ → ℕ → Call (Unit {0})
put_price id price = modify λ s.
    let a : State.State = s.assets in
    record s { assets = record a { price = update a.price id price } }

unfoldable pub submit_price_unsigned : Config → Origin → ℕ → ℕ → Call (Unit {0})
submit_price_unsigned t origin block_number price = do
  ensure origin.is_none bad_origin
  rate ← or_panic (t.fixed.saturating_from_rational price 100)
  put_price priced_asset rate
  current_block ← gets (λ s. s.block_number)
  next ← or_panic (add_word u32_size t.checks current_block t.unsigned_interval)
  modify (λ s. record s { next_unsigned_at = next })
  deposit_event (new_price priced_asset rate)

-- The transaction that `ValidTransaction::with_tag_prefix` and the calls after it build.
abbrev pub accepted : Config → ℕ → ValidTransaction
accepted t next_unsigned_at = record {
  tag_prefix = "OffchainWorker";
  priority = t.unsigned_priority;
  provides = next_unsigned_at;
  longevity = 5;
  propagate = true;
}

unfoldable pub validate_transaction_parameters : Config → ℕ → ℕ → Worker → Validity
validate_transaction_parameters t block_number price s =
    if ltb block_number s.next_unsigned_at
    then stale
    else if ltb s.block_number block_number
    then future
    else valid (accepted t s.next_unsigned_at)

-- `enum Call`: the one call that the pallet has.
pub data Request : Type 0 where
  submits_price_unsigned : ℕ → ℕ → Request
  other : Request

unfoldable pub validate_unsigned : Config → Request → Worker → Validity
unfolding validate_transaction_parameters
validate_unsigned t (submits_price_unsigned block_number price) s =
    validate_transaction_parameters t block_number price s
validate_unsigned t other s = other_call

-- What the HTTP request came to: no answer in time, or a status and a body, if that is UTF-8.
pub data Response : Type 0 where
  failed : Response
  answer : ℕ → Option (List ℕ) → Response

parse_body : Bool → (List ℕ → Option JsonValue) → Option (List ℕ) → Option (Option ℕ)
unfolding parse_price
parse_body checks parse_json none = some none
parse_body checks parse_json (some body) = parse_price checks parse_json body

-- `fn fetch_price`: the outer `none` is a panic, the inner one an error.
unfoldable pub fetch_price : Bool → (List ℕ → Option JsonValue) → Response → Option (Option ℕ)
unfolding parse_body
fetch_price checks parse_json failed = some none
fetch_price checks parse_json (answer status body) =
    if not (status == 200) then some none else parse_body checks parse_json body

-- What `fetch_price_and_send_raw_unsigned` submits, or why it submits nothing.
pub data Sent : Type 0 where
  too_early fetch_failed panicked : Sent
  sent : Request → Sent

submit_fetched : ℕ → Option (Option ℕ) → Sent
submit_fetched block_number none = panicked
submit_fetched block_number (some none) = fetch_failed
submit_fetched block_number (some (some price)) = sent (submits_price_unsigned block_number price)

unfoldable pub fetch_price_and_send_raw_unsigned :
    Config → (List ℕ → Option JsonValue) → Response → ℕ → Worker → Sent
unfolding submit_fetched
fetch_price_and_send_raw_unsigned t parse_json response block_number s =
    if ltb block_number s.next_unsigned_at
    then too_early
    else submit_fetched block_number (fetch_price t.checks parse_json response)

-- `fn offchain_worker`, run at each block: what it submits. A failure is logged, and a panic ends
-- the worker.
unfoldable pub offchain_worker :
    Config → (List ℕ → Option JsonValue) → Response → ℕ → Worker → Option Request
unfolding fetch_price_and_send_raw_unsigned
offchain_worker t parse_json response block_number s =
    elim (fetch_price_and_send_raw_unsigned t parse_json response block_number s) [
      | sent request ↦ some request
      | too_early ↦ none
      | fetch_failed ↦ none
      | panicked ↦ none
    ]
