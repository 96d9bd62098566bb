-- ===== src/Offchain/Window.antt =====
-- pallets/offchain-worker/src/lib.rs: which unsigned transactions are valid, and when.
use konomi_node.Base.{ℕ, ◌+◌, ◌≤◌, ◌<◌, ◌≡◌, true, arith, ok, Origin, add_word, List, Option}
use konomi_node.Offchain.State.{Worker, Config, stale, valid}
use konomi_node.Offchain.Parse.{JsonValue}
use konomi_node.Offchain.Calls.{
  Request, accepted, submits_price_unsigned, Response, sent, submit_price_unsigned,
  validate_unsigned, validate_transaction_parameters, fetch_price_and_send_raw_unsigned,
}

module _ (t : Config) (s : Worker) where
  -- Where the build has overflow checks: once a price is accepted, a price for a block before the
  -- current block plus the interval is stale.
  pub submit_price_unsigned-stale :
      (origin : Origin) (block_number price : ℕ) (u : Worker)
      → t.checks ≡ true
      → submit_price_unsigned t origin block_number price s ≡ ok tt u
      → (later again : ℕ) → later < s.block_number + t.unsigned_interval
      → validate_unsigned t (submits_price_unsigned later again) u ≡ stale
  unfolding submit_price_unsigned validate_unsigned validate_transaction_parameters add_word
  submit_price_unsigned-stale origin block_number price u checked h later again lt = ground arith

  -- What the worker sends in a block that is not after the current one is valid in the same state.
  pub fetch_price_and_send-valid :
      (parse_json : List ℕ → Option JsonValue) (response : Response) (block_number : ℕ)
      (r : Request)
      → fetch_price_and_send_raw_unsigned t parse_json response block_number s ≡ sent r
      → block_number ≤ s.block_number
      → validate_unsigned t r s ≡ valid (accepted t s.next_unsigned_at)
  unfolding fetch_price_and_send_raw_unsigned validate_unsigned validate_transaction_parameters
  fetch_price_and_send-valid parse_json response block_number r h le = ground arith
