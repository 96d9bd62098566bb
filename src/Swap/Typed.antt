-- ===== src/Swap/Typed.antt =====
-- pallets/swap/src/lib.rs: the liquidities that the pallet stores stay in their type.
use konomi_node.Base.{
  ℕ, ◌<◌, ◌≡◌, refl, arith, modify, gets, or_panic, update, ◌>>=◌, ◌>>◌, u128_size, u64_size,
  add_word, sub_word, add_word_lt, sub_word_lt, Outcome, ok, err, panic, some,
}
use konomi_node.Base.Keeps.{
  Keeps, Ends, value_rules, Keeps-bind, Keeps-gets, Keeps-then, Keeps-bind-unwrap, Keeps-bind-gets,
}
use konomi_node.Assets.State as Ledger
use konomi_node.Assets.Calls as Assets
use konomi_node.Swap.State.{Exchange, Config, Call, Error, Event, transfer, deposit_event}
use konomi_node.Swap.Calls.{set_fee_rate, add_liquidity, remove_liquidity}
use konomi_node.Swap.Liquidity.{
  set_liquidity, put_total_liquidity, increase_total_liquidity, decrease_total_liquidity,
  first_liquidity, more_liquidity, inject_liquidity, take_liquidity,
}
use konomi_node.Swap.Trades.{IsTraded, exact_input-Keeps, exact_output-Keeps, report-Keeps}
use konomi_node.Swap.Dispatch.{
  Request, sets_fee_rate, swaps_exact_input, swaps_exact_output, adds_liquidity, removes_liquidity,
  dispatch, HasShares,
}
use konomi_node.Swap.Exchange.{report_reserves}

-- Liquidities are u128, and the fee rate is u64.
pub record AreShares (s : Exchange) : Type 0 where
  pub shares : (id who : ℕ) → s.account_liquidities id who < u128_size
  pub totals : (id : ℕ) → s.total_liquidities id < u128_size
  pub fee_rate : s.fee_rate < u64_size

pub else-AreShares :
    (s u : Exchange)
    → u.account_liquidities ≡ s.account_liquidities
    → u.total_liquidities ≡ s.total_liquidities
    → u.fee_rate ≡ s.fee_rate
    → AreShares s
    → AreShares u
else-AreShares s u a b c h = record {
  shares = rw a h.shares;
  totals = rw b h.totals;
  fee_rate = rw c h.fee_rate;
}

share-AreShares : (id who n : ℕ) → n < u128_size → Keeps AreShares (set_liquidity id who n)
share-AreShares id who n small = record {
  at = λ s h. record {
    shares = λ j k. ground (arith, h.shares j k);
    totals = h.totals;
    fee_rate = h.fee_rate;
  };
}

total-AreShares : (id n : ℕ) → n < u128_size → Keeps AreShares (put_total_liquidity id n)
total-AreShares id n small = record {
  at = λ s h. record {
    shares = h.shares;
    totals = λ j. ground (arith, h.totals j);
    fee_rate = h.fee_rate;
  };
}

event-AreShares : (e : Event) → Keeps AreShares (deposit_event e)
event-AreShares e = record { at = λ s h. else-AreShares s _ refl refl refl h }

address-AreShares :
    (id a : ℕ)
    → Keeps {E = Error} AreShares (
        modify (λ (s : Exchange). record s { exchange_accounts = update s.exchange_accounts id a }))
address-AreShares id a = record { at = λ s h. else-AreShares s _ refl refl refl h }

transferred-Ends :
    {E : Type 0} (s : Exchange) (o : Outcome E Ledger.State (Unit {0}))
    → AreShares s
    → Ends AreShares (elim o as (λ _. Outcome Error Exchange (Unit {0})) [
      | ok _ assets ↦ ok tt (record s { assets = assets })
      | err _ assets ↦ ok tt (record s { assets = assets })
      | panic ↦ panic
    ])
transferred-Ends s (ok _ a) h = else-AreShares s _ refl refl refl h
transferred-Ends s (err _ a) h = else-AreShares s _ refl refl refl h
transferred-Ends s panic h = tt

module _ (t : Config) where
  transfer-AreShares : (from id to n : ℕ) → Keeps AreShares (transfer t.checks from id to n)
  unfolding transfer
  transfer-AreShares from id to n = record {
    at = λ s h. transferred-Ends s (Assets.transfer t.checks from id to n s.assets) h;
  }

  traded : IsTraded t AreShares
  traded = record { transfers = transfer-AreShares; events = event-AreShares }

  increase-AreShares : (id n : ℕ) → Keeps AreShares (increase_total_liquidity t.checks id n)
  unfolding increase_total_liquidity
  increase-AreShares id n = Keeps-bind _ _ (Keeps-gets (λ s. s.total_liquidities id)) λ total.
      Keeps-bind-unwrap _ _
        λ sum e. total-AreShares id sum (add_word_lt u128_size t.checks total n (omega arith) e)

  decrease-AreShares : (id n : ℕ) → Keeps AreShares (decrease_total_liquidity t.checks id n)
  unfolding decrease_total_liquidity
  decrease-AreShares id n =
      Keeps-bind-gets (λ total. total < u128_size) (λ s. s.total_liquidities id) _
        (λ s h. h.totals id)
        λ total small.
          Keeps-bind-unwrap _ _
            λ rest e. total-AreShares id rest (sub_word_lt u128_size t.checks total n small e)

  sum-lt : (a b : ℕ) {c : ℕ} → add_word u128_size t.checks a b ≡ some c → c < u128_size
  sum-lt a b e = add_word_lt u128_size t.checks a b (omega arith) e

  read_share :
      {A : Type 0} (id who : ℕ) (f : ℕ → Call A)
      → ((n : ℕ) → n < u128_size → Keeps AreShares (f n))
      → Keeps AreShares (gets (λ s. s.account_liquidities id who) >>= f)
  read_share id who f = Keeps-bind-gets (λ n. n < u128_size) _ f (λ s h. h.shares id who)

  first-AreShares :
      (who id i a n m : ℕ) → n < u128_size → Keeps AreShares (first_liquidity t who id i a n m)
  unfolding first_liquidity
  first-AreShares who id i a n m small =
      search (value_rules, transfer-AreShares, share-AreShares, increase-AreShares, small) depth 20

  more-AreShares : (who id i a l n m : ℕ) → Keeps AreShares (more_liquidity t who id i a l n m)
  unfolding more_liquidity
  more-AreShares who id i a l n m =
      search (value_rules, transfer-AreShares, share-AreShares, sum-lt, increase-AreShares) depth 30
        fits 5000

  inject-AreShares :
      (who id n m l : ℕ) → n < u128_size → Keeps AreShares (inject_liquidity t who id n m l)
  unfolding inject_liquidity
  inject-AreShares who id n m l small =
      search
        (
          value_rules,
          first-AreShares,
          more-AreShares,
          address-AreShares,
          report-Keeps t AreShares traded,
          small,
        )
        depth 20

  -- The end of `_remove_liquidity`.
  taken-AreShares :
      (who id i a l owned : ℕ)
      → owned < u128_size
      → Keeps AreShares (do
        rest ← or_panic (sub_word u128_size t.checks owned l)
        set_liquidity id who rest
        decrease_total_liquidity t.checks id l
        report_reserves a id i)
  taken-AreShares who id i a l owned small = Keeps-bind-unwrap _ _ λ rest e.
      Keeps-then _ _ (share-AreShares id who rest (sub_word_lt u128_size t.checks owned l small e))
        (Keeps-then _ _ (decrease-AreShares id l) (report-Keeps t AreShares traded a id i))

  take-AreShares : (who id l n m : ℕ) → Keeps AreShares (take_liquidity t who id l n m)
  unfolding take_liquidity
  take-AreShares who id l n m =
      search (read_share, value_rules, transfer-AreShares, taken-AreShares) depth 40 fits 5000

  -- A call with a u128 as the amount of its liquidity, or a u64 as the fee rate, keeps the
  -- liquidities and the fee rate in their types, whatever comes of it.
  pub dispatch-AreShares : (r : Request) → HasShares r → Keeps AreShares (dispatch t r)
  unfolding dispatch set_fee_rate add_liquidity remove_liquidity
  dispatch-AreShares (sets_fee_rate o f) small = record {
    at = λ s h. record { shares = h.shares; totals = h.totals; fee_rate = small };
  }
  dispatch-AreShares (swaps_exact_input o to i j n m) h =
      exact_input-Keeps t AreShares traded o to i j n m
  dispatch-AreShares (swaps_exact_output o to i j n m) h =
      exact_output-Keeps t AreShares traded o to i j n m
  dispatch-AreShares (adds_liquidity o id n m l) small =
      search (value_rules, inject-AreShares, event-AreShares, small) depth 20
  dispatch-AreShares (removes_liquidity o id l n m) h =
      search (value_rules, take-AreShares, event-AreShares) depth 20
