-- ===== src/Assets/Typed.antt =====
-- pallets/assets/src/lib.rs: the numbers that the pallet stores stay in their types.
use konomi_node.Base.{
  ℕ, ◌<◌, Bool, List, [], ◌∷◌, arith, Outcome, ok, err, panic, ignore_result, modify, gets,
  or_panic, Origin, add_word, sub_word, ◌>>=◌, ◌>>◌, u64_size, u128_size, add_word_lt, sub_word_lt,
}
use konomi_node.Base.Keeps.{
  Keeps, Ends, value_rules, Keeps-then, Keeps-pure, Keeps-bind, Keeps-gets, Keeps-ensure,
  Keeps-bind-unwrap, Keeps-bind-gets,
}
use konomi_node.FixedPoint.{FixedPoint, IsTypedFixed}
use konomi_node.Assets.State.{
  State, Call, Error, Event, issued, destroyed, put_balance, put_supply, deposit_event,
}
use konomi_node.Assets.Holders.{IsTyped}
use konomi_node.Assets.Genesis.{AreBalances}
use konomi_node.Assets.Calls.{
  Request, issues, destroys, sets_inherent, transfers, sets_price, dispatch, issue, issue_to,
  destroy, transfer, transfer_asset, set_inherent_asset, put_price, set_price, genesis_asset,
  genesis,
}

-- Supplies, balances and prices are u128, and the next identifier and the inherent asset are u64.
pub record AreWords (s : State) : Type 0 where
  pub next_asset_id : s.next_asset_id < u64_size
  pub inherent : s.inherent_asset < u64_size
  pub supplies : (id : ℕ) → s.total_supply id < u128_size
  pub balances : (id who : ℕ) → s.balances id who < u128_size
  pub prices : (id : ℕ) → s.price id < u128_size

balance-AreWords :
    (id who n : ℕ) → n < u128_size → Keeps {E = Error} AreWords (modify (put_balance id who n))
balance-AreWords id who n small = record {
  at = λ s h. record {
    next_asset_id = h.next_asset_id;
    inherent = h.inherent;
    supplies = h.supplies;
    balances = λ j k. ground (arith, h.balances j k);
    prices = h.prices;
  };
}

supply-AreWords : (id n : ℕ) → n < u128_size → Keeps {E = Error} AreWords (modify (put_supply id n))
supply-AreWords id n small = record {
  at = λ s h. record {
    next_asset_id = h.next_asset_id;
    inherent = h.inherent;
    supplies = λ j. ground (arith, h.supplies j);
    balances = h.balances;
    prices = h.prices;
  };
}

counter-AreWords :
    (n : ℕ)
    → n < u64_size
    → Keeps {E = Error} AreWords (modify (λ (s : State). record s { next_asset_id = n }))
counter-AreWords n small = record {
  at = λ s h. record {
    next_asset_id = small;
    inherent = h.inherent;
    supplies = h.supplies;
    balances = h.balances;
    prices = h.prices;
  };
}

event-AreWords : (e : Event) → Keeps AreWords (deposit_event e)
event-AreWords e = record {
  at = λ s h. record {
    next_asset_id = h.next_asset_id;
    inherent = h.inherent;
    supplies = h.supplies;
    balances = h.balances;
    prices = h.prices;
  };
}

pub price-AreWords : (id n : ℕ) → n < u128_size → Keeps AreWords (put_price id n)
unfolding put_price
price-AreWords id n small = record {
  at = λ s h. record {
    next_asset_id = h.next_asset_id;
    inherent = h.inherent;
    supplies = h.supplies;
    balances = h.balances;
    prices = λ j. ground (arith, h.prices j);
  };
}

inherent-AreWords :
    (n : ℕ)
    → n < u64_size
    → Keeps {E = Error} AreWords (modify (λ (s : State). record s { inherent_asset = n }))
inherent-AreWords n small = record {
  at = λ s h. record {
    next_asset_id = h.next_asset_id;
    inherent = small;
    supplies = h.supplies;
    balances = h.balances;
    prices = h.prices;
  };
}

-- What is read is a word.
read_balance :
    {A : Type 0} (id who : ℕ) (f : ℕ → Call A)
    → ((n : ℕ) → n < u128_size → Keeps AreWords (f n))
    → Keeps AreWords (gets (λ s. s.balances id who) >>= f)
read_balance id who f = Keeps-bind-gets (λ n. n < u128_size) _ f (λ s h. h.balances id who)

read_supply :
    {A : Type 0} (id : ℕ) (f : ℕ → Call A)
    → ((n : ℕ) → n < u128_size → Keeps AreWords (f n))
    → Keeps AreWords (gets (λ s. s.total_supply id) >>= f)
read_supply id f = Keeps-bind-gets (λ n. n < u128_size) _ f (λ s h. h.supplies id)

ignored-Ends :
    {A : Type 0} (o : Outcome Error State A)
    → Ends AreWords o
    → Ends AreWords (elim o as (λ _. Outcome Error State (Unit {0})) [
      | ok _ s ↦ ok tt s
      | err _ s ↦ ok tt s
      | panic ↦ panic
    ])
ignored-Ends (ok _ s) h = h
ignored-Ends (err _ s) h = h
ignored-Ends panic h = tt

ignored-AreWords :
    {A : Type 0} (m : Call A) → Keeps AreWords m → Keeps {E = Error} AreWords (ignore_result m)
ignored-AreWords m k = record { at = λ s h. ignored-Ends (m s) (k.at s h) }

emptied-AreWords : (id who : ℕ) → Keeps {E = Error} AreWords (modify (put_balance id who 0))
emptied-AreWords id who = balance-AreWords id who 0 (omega arith)

module _ (checks : Bool) where
  -- The writes of a transfer.
  paid-AreWords :
      (from id to n b : ℕ)
      → b < u128_size
      → Keeps {E = Error} AreWords (do
        rest ← or_panic (sub_word u128_size checks b n)
        modify (put_balance id from rest)
        target ← gets (λ (s : State). s.balances id to)
        sum ← or_panic (add_word u128_size checks target n)
        modify (put_balance id to sum))
  paid-AreWords from id to n b small = Keeps-bind-unwrap _ _ λ rest e.
      Keeps-then _ _ (balance-AreWords id from rest (sub_word_lt u128_size checks b n small e)) (
        Keeps-bind _ _ (Keeps-gets (λ s. s.balances id to)) λ target. Keeps-bind-unwrap _ _ λ sum f.
          balance-AreWords id to sum (add_word_lt u128_size checks target n (omega arith) f))

  pub transfer-AreWords : (from id to n : ℕ) → Keeps AreWords (transfer checks from id to n)
  unfolding transfer
  transfer-AreWords from id to n =
      search (read_balance, Keeps-then, Keeps-ensure, event-AreWords, paid-AreWords)

  -- The writes of an issue.
  issued-AreWords :
      (who id n : ℕ)
      → n < u128_size
      → Keeps AreWords (do
        following ← or_panic (add_word u64_size checks id 1)
        modify (λ (s : State). record s { next_asset_id = following })
        modify (put_balance id who n)
        modify (put_supply id n)
        deposit_event (issued id who n))
  issued-AreWords who id n small = Keeps-bind-unwrap _ _ λ following e.
      Keeps-then _ _ (counter-AreWords following (add_word_lt u64_size checks id 1 (omega arith) e))
        (Keeps-then _ _ (balance-AreWords id who n small)
          (Keeps-then _ _ (supply-AreWords id n small) (event-AreWords (issued id who n))))

  issue_to-AreWords : (who n : ℕ) → n < u128_size → Keeps AreWords (issue_to checks who n)
  unfolding issue_to
  issue_to-AreWords who n small = search (Keeps-bind, Keeps-gets, issued-AreWords, small)

  -- The writes of a destruction.
  destroyed-AreWords :
      (who id n b : ℕ)
      → b < u128_size
      → Keeps AreWords (do
        rest ← or_panic (sub_word u128_size checks b n)
        modify (put_supply id rest)
        deposit_event (destroyed id who n))
  destroyed-AreWords who id n b small = Keeps-bind-unwrap _ _ λ rest e.
      Keeps-then _ _ (supply-AreWords id rest (sub_word_lt u128_size checks b n small e))
        (event-AreWords (destroyed id who n))

  destroy-AreWords : (o : Origin) (id : ℕ) → Keeps AreWords (destroy checks o id)
  unfolding destroy
  destroy-AreWords o id =
      search (read_supply, value_rules, emptied-AreWords, destroyed-AreWords) depth 20

  pub dispatch-AreWords : (r : Request) → IsTyped r → Keeps AreWords (dispatch checks r)
  unfolding dispatch issue transfer_asset set_inherent_asset set_price
  dispatch-AreWords (issues o n) h = search (value_rules, issue_to-AreWords, h)
  dispatch-AreWords (destroys o id) h = destroy-AreWords o id
  dispatch-AreWords (sets_inherent o id) h = inherent-AreWords id h
  dispatch-AreWords (transfers o id to n) h =
      search (value_rules, ignored-AreWords, transfer-AreWords)
  dispatch-AreWords (sets_price o id n) h = search (value_rules, price-AreWords, h)

  module _ (fixed : FixedPoint) (typed : IsTypedFixed fixed) where
    asset-AreWords :
        (who n price : ℕ)
        → n < u128_size
        → Keeps AreWords (genesis_asset checks fixed (who, n, price))
    unfolding genesis_asset
    asset-AreWords who n price small =
        search
          (
            value_rules, issue_to-AreWords, ignored-AreWords, transfer-AreWords, price-AreWords,
            typed.integer_small, small,
          )
          depth 30 fits 5000

    pub genesis-AreWords :
        (assets : List (ℕ × ℕ × ℕ))
        → AreBalances assets
        → Keeps AreWords (genesis checks fixed assets)
    unfolding genesis
    genesis-AreWords [] h = Keeps-pure tt
    genesis-AreWords ((who, n, price) ∷ assets) (small, h) =
        Keeps-then _ _ (asset-AreWords who n price small) (genesis-AreWords assets h)
