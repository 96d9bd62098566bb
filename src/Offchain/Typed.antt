-- ===== src/Offchain/Typed.antt =====
-- pallets/offchain-worker/src/lib.rs: what the pallet stores is of its type.
use konomi_node.Base.{
  ℕ, ◌<◌, Origin, modify, gets, or_panic, ◌>>=◌, ◌>>◌, u32_size, u128_size, add_word, add_word_lt,
  arith, ◌≡◌, some,
}
use konomi_node.Base.Keeps.{
  Keeps, Keeps-then, Keeps-ensure, Keeps-bind, Keeps-gets, Keeps-bind-unwrap,
}
use konomi_node.FixedPoint.{IsTypedFixed}
use konomi_node.Assets.Typed.{AreWords}
use konomi_node.Offchain.State.{Worker, Config, Error, Event, new_price, deposit_event}
use konomi_node.Offchain.Calls.{submit_price_unsigned, put_price, priced_asset}

-- The next block for an unsigned price is u32; the assets' numbers are of their types.
pub record IsTimed (s : Worker) : Type 0 where
  pub assets : AreWords s.assets
  pub next_unsigned_at : s.next_unsigned_at < u32_size

event-IsTimed : (e : Event) → Keeps IsTimed (deposit_event e)
event-IsTimed e = record {
  at = λ s h. record { assets = h.assets; next_unsigned_at = h.next_unsigned_at };
}

wait-IsTimed :
    (n : ℕ)
    → n < u32_size
    → Keeps {E = Error} IsTimed (modify (λ (s : Worker). record s { next_unsigned_at = n }))
wait-IsTimed n small = record { at = λ s h. record { assets = h.assets; next_unsigned_at = small } }

put_price-IsTimed : (id n : ℕ) → n < u128_size → Keeps IsTimed (put_price id n)
put_price-IsTimed id n small = record {
  at = λ s h. record {
    assets = record {
      next_asset_id = h.assets.next_asset_id;
      inherent = h.assets.inherent;
      supplies = h.assets.supplies;
      balances = h.assets.balances;
      prices = λ j. ground (arith, h.assets.prices j);
    };
    next_unsigned_at = h.next_unsigned_at;
  };
}

module _ (t : Config) (typed : IsTypedFixed t.fixed) where
  sum-lt : (a b : ℕ) {c : ℕ} → add_word u32_size t.checks a b ≡ some c → c < u32_size
  sum-lt a b e = add_word_lt u32_size t.checks a b (omega arith) e

  -- The writes of a submission.
  submitted-IsTimed :
      (rate : ℕ)
      → rate < u128_size
      → Keeps IsTimed (do
        put_price priced_asset rate
        current_block ← gets (λ s. s.block_number)
        following ← or_panic (add_word u32_size t.checks current_block t.unsigned_interval)
        modify (λ (s : Worker). record s { next_unsigned_at = following })
        deposit_event (new_price priced_asset rate))
  submitted-IsTimed rate small = Keeps-then _ _ (put_price-IsTimed priced_asset rate small) (
      Keeps-bind _ _ (Keeps-gets (λ s. s.block_number)) λ current_block.
        Keeps-bind-unwrap _ _ λ following e.
          Keeps-then _ _ (wait-IsTimed following (sum-lt current_block t.unsigned_interval e))
            (event-IsTimed (new_price priced_asset rate)))

  pub submit-IsTimed :
      (origin : Origin) (block_number price : ℕ)
      → Keeps IsTimed (submit_price_unsigned t origin block_number price)
  unfolding submit_price_unsigned
  submit-IsTimed origin block_number price =
      search (Keeps-then, Keeps-ensure, Keeps-bind-unwrap, submitted-IsTimed, typed.rational_small)
