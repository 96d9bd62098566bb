-- ===== src/Swap/Deposits.antt =====
-- pallets/swap/src/lib.rs: what adding and removing liquidity writes, as a rule for invariants.
use konomi_node.Base.{ℕ, modify, update}
use konomi_node.Base.Keeps.{Keeps, keeps_rules}
use konomi_node.Swap.State.{Exchange, Config, Error}
use konomi_node.Swap.Liquidity.{
  set_liquidity, put_total_liquidity, increase_total_liquidity, decrease_total_liquidity,
  first_liquidity, more_liquidity, inject_liquidity, take_liquidity,
}
use konomi_node.Swap.Trades.{IsTraded, report-Keeps}

-- A predicate that transfers, events and the writes of one account's liquidity keep.
pub record IsDeposited (t : Config) (P : Exchange → Type 0) (account : ℕ) : Type 0 where
  pub traded : IsTraded t P
  pub shares : (id n : ℕ) → Keeps P (set_liquidity id account n)
  pub totals : (id n : ℕ) → Keeps P (put_total_liquidity id n)
  pub addresses :
      (id address : ℕ)
      → Keeps {E = Error} P
          (modify (λ s. record s { exchange_accounts = update s.exchange_accounts id address }))

module _ (t : Config) (P : Exchange → Type 0) (who : ℕ) (d : IsDeposited t P who) where
  increase-Keeps : (id n : ℕ) → Keeps P (increase_total_liquidity t.checks id n)
  unfolding increase_total_liquidity
  increase-Keeps id n = search (keeps_rules, d.totals)

  decrease-Keeps : (id n : ℕ) → Keeps P (decrease_total_liquidity t.checks id n)
  unfolding decrease_total_liquidity
  decrease-Keeps id n = search (keeps_rules, d.totals)

  ruleset deposit_rules = (keeps_rules, increase-Keeps, decrease-Keeps)

  first-Keeps : (id i a n m : ℕ) → Keeps P (first_liquidity t who id i a n m)
  unfolding first_liquidity
  first-Keeps id i a n m = search (deposit_rules, d.traded.transfers, d.shares) depth 20

  more-Keeps : (id i a l n m : ℕ) → Keeps P (more_liquidity t who id i a l n m)
  unfolding more_liquidity
  more-Keeps id i a l n m = search (deposit_rules, d.traded.transfers, d.shares) depth 30 fits 3000

  pub inject-Keeps : (id n m l : ℕ) → Keeps P (inject_liquidity t who id n m l)
  unfolding inject_liquidity
  inject-Keeps id n m l =
      search (keeps_rules, first-Keeps, more-Keeps, d.addresses, report-Keeps t P d.traded) depth 20

  pub take-Keeps : (id n m l : ℕ) → Keeps P (take_liquidity t who id n m l)
  unfolding take_liquidity
  take-Keeps id n m l =
      search (deposit_rules, d.traded.transfers, d.shares, report-Keeps t P d.traded) depth 40 fits
        5000
