-- ===== src/Tests/SettlementRuns.antt =====
-- Runs of the lending calls, and what they settle, at a concrete state.
use konomi_node.Base.{
  ◌⊎◌, false, ◌*◌, ◌^◌, after, contains, ok, ℕ, ◌≡◌, ◌≢◌, ◌≤◌, ◌+◌, ◌<◌, refl, true, some, arith,
  Post, u128_size,
}
use konomi_node.Assets.Calls.{balance}
use konomi_node.Assets.Transfer.{multi_asset-IsMultiAsset}
use konomi_node.Lending.Calls.{supply}
use konomi_node.Lending.Cash.{Settled}
use konomi_node.Lending.Untouched.{Untouched}
use konomi_node.Lending.Dispatch.{borrows, dispatch}
use konomi_node.Lending.Booking.{pays_out, dispatch-Settled}
use konomi_node.Lending.Others.{SameEntries, dispatch-SameEntries}
use konomi_node.Lending.Liquidate.{liquidate}
use konomi_node.Lending.Liquidation.{OnlyInterest, SamePools, liquidate-OnlyInterest}
use konomi_node.Tests.LendingRuns.{signed, runtime, chain, sunk, market, later, accrues}
use konomi_node.Lending.Progress.{supply_first}

-- The runs of `supply`, `withdraw`, `borrow` and `repay` at account 1, with ten blocks of interest.
alone : (who : ℕ) → (signed 1).signed_by ≡ some who → who ≢ 99
alone who e = ground arith

small :
    (who : ℕ)
    → (signed 1).signed_by ≡ some who
    → balance 0 who chain.ledger + balance 0 99 chain.ledger < u128_size
small who e = ground arith

dispatch-Settled_example :
    Post
      (λ _ u.
        (settled : Settled runtime balance chain u 0) × ((pays_out (borrows (signed 1) 0 250)
            ≡ false)
          ⊎ (settled.left.debt ≤ settled.left.supply)))
      (Untouched chain)
      (dispatch runtime (borrows (signed 1) 0 250) chain)
dispatch-Settled_example =
    dispatch-Settled runtime balance (multi_asset-IsMultiAsset true) refl (borrows (signed 1) 0 250)
      0 chain refl alone small

-- What account 1 borrows is no concern of account 2.
dispatch-SameEntries_example :
    SameEntries 2 chain (after chain (dispatch runtime (borrows (signed 1) 0 250) chain))
dispatch-SameEntries_example =
    dispatch-SameEntries runtime 2 chain (borrows (signed 1) 0 250) (λ e. ground arith)

-- A liquidation that succeeds.
liquidate-OnlyInterest_example :
    Post
      (λ _ u. OnlyInterest runtime sunk u 1 0)
      (SamePools sunk)
      (liquidate runtime (signed 2) 1 1 0 50 sunk)
liquidate-OnlyInterest_example = liquidate-OnlyInterest runtime (signed 2) 1 1 0 50 sunk

supply_first_example :
    let u = after chain (supply runtime (signed 2) 0 250 chain) in
    (supply runtime (signed 2) 0 250 chain ≡ ok tt u)
    × (u.user_supplies 0 2 ≡ some (record { amount = 250; index = 106 * 10 ^ 16 }))
    × (contains 0 (u.user_supply_set 2) ≡ true)
    × (u.pools 0 ≡ some (record later { supply = 1_060 + 250 }))
supply_first_example =
    supply_first runtime balance (multi_asset-IsMultiAsset true) (signed 2) 2 0 250 chain market
      later refl refl accrues refl (λ e. ground arith) (λ e. ground arith) (omega arith)
      (omega arith) (omega arith)
