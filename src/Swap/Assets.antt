-- ===== src/Swap/Assets.antt =====
-- pallets/swap/src/lib.rs: the calls reach the assets' storage by transfers only.
use konomi_node.Base.{ℕ}
use konomi_node.Base.Keeps.{Keeps, keeps_rules}
use konomi_node.Assets.State as Ledger
use konomi_node.Assets.Calls as Assets
use konomi_node.Swap.State.{Exchange, Config, Event, deposit_event}
use konomi_node.Swap.Calls.{set_fee_rate, add_liquidity, remove_liquidity}
use konomi_node.Swap.Liquidity.{inject_liquidity, take_liquidity}
use konomi_node.Swap.Trades.{IsTraded, exact_input-Keeps, exact_output-Keeps, transfer-Keeps}
use konomi_node.Swap.Deposits.{IsDeposited, inject-Keeps, take-Keeps}
use konomi_node.Swap.Dispatch.{
  Request, sets_fee_rate, swaps_exact_input, swaps_exact_output, adds_liquidity, removes_liquidity,
  dispatch,
}

module _ (t : Config) (P : Ledger.State → Type 0)
    (transfers : (from id to amount : ℕ)
      → Keeps P (Assets.transfer t.checks from id to amount)) where
  abbrev pub OnAssets : Exchange → Type 0
  OnAssets s = P s.assets

  event-OnAssets : (e : Event) → Keeps OnAssets (deposit_event e)
  event-OnAssets e = record { at = λ s h. h }

  traded : IsTraded t OnAssets
  traded = record {
    transfers = λ from id to n. transfer-Keeps P t.checks from id to n (transfers from id to n);
    events = event-OnAssets;
  }

  deposited : (who : ℕ) → IsDeposited t OnAssets who
  deposited who = record {
    traded = traded;
    shares = λ id n. record { at = λ s h. h };
    totals = λ id n. record { at = λ s h. h };
    addresses = λ id address. record { at = λ s h. h };
  }

  inject-OnAssets : (who id n m l : ℕ) → Keeps OnAssets (inject_liquidity t who id n m l)
  inject-OnAssets who = inject-Keeps t OnAssets who (deposited who)

  take-OnAssets : (who id n m l : ℕ) → Keeps OnAssets (take_liquidity t who id n m l)
  take-OnAssets who = take-Keeps t OnAssets who (deposited who)

  -- Whatever transfers keep of the assets' storage, each call of the swap pallet keeps.
  pub dispatch-OnAssets : (r : Request) → Keeps OnAssets (dispatch t r)
  unfolding dispatch set_fee_rate add_liquidity remove_liquidity
  dispatch-OnAssets (sets_fee_rate o f) = record { at = λ s h. h }
  dispatch-OnAssets (swaps_exact_input o to i j n m) =
      exact_input-Keeps t OnAssets traded o to i j n m
  dispatch-OnAssets (swaps_exact_output o to i j n m) =
      exact_output-Keeps t OnAssets traded o to i j n m
  dispatch-OnAssets (adds_liquidity o id n m l) =
      search (keeps_rules, inject-OnAssets, event-OnAssets) depth 20
  dispatch-OnAssets (removes_liquidity o id l n m) =
      search (keeps_rules, take-OnAssets, event-OnAssets) depth 20
