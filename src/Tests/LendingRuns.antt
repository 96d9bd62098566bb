-- ===== src/Tests/LendingRuns.antt =====
-- Runs of the lending pallet over the assets pallet, and its theorems at concrete states.
use konomi_node.Base.{
  ℕ, ◌≡◌, ◌≤◌, ◌*◌, ◌^◌, refl, true, false, arith, [], ◌∷◌, after, Origin, some, none, sub_word,
  if◌then◌else◌, ◌==◌, ◌&&◌,
}
use konomi_node.Assets.State as Ledger
use konomi_node.Assets.State.{Error}
use konomi_node.Assets.Transfer.{multi_asset, multi_asset-IsMultiAsset}
use konomi_node.Lending.State.{State, Config, Pool}
use konomi_node.Lending.Interest.{
  accrue_interest, supply_rate_internal, debt_rate_internal, multiplier, supply_multiplier,
  debt_multiplier,
}
use konomi_node.Lending.Accounts.{accrue_supply_with_interest, accrue_debt_with_interest}
use konomi_node.Lending.Info.{get_user_supply_with_interest, get_user_debt_with_interest}
use konomi_node.Lending.Accrual.{Grows, accrue_interest_again, accrue_interest-Grows}
use konomi_node.Lending.Foretold.{
  stores_supply, stores_debt, accrue_supply-foretold, accrue_debt-foretold,
}
use konomi_node.Lending.Dispatch.{here, next, calls, blocks_pass, dispatch, withdraws}
use konomi_node.Lending.Sets.{SetsAgree}
use konomi_node.Lending.Sets.Reachable.{Reach-SetsAgree}
use konomi_node.Tests.AssetsRuns.{blank}
use konomi_node.Tests.Fixed.{decimals, decimals-IsFixedPoint}

abbrev pub signed : ℕ → Origin
signed who = record { signed_by = some who; is_root = false; is_none = false }

abbrev pub runtime : Config Error Ledger.State
runtime = record {
  multi_asset = multi_asset true;
  oracle = record { get_rate = λ id s. s.price id };
  fixed = decimals;
  account_id = 99;
  checks = true;
}

-- A pool of asset 0 with a thousand units supplied and two hundred lent, at rates of one percent
-- a block and more.
abbrev pub market : Pool
market = record {
  enabled = true;
  can_be_collateral = true;
  asset = 0;
  supply = 1_000;
  debt = 200;
  safe_factor = 7 * 10 ^ 17;
  close_factor = 10 ^ 18;
  discount_factor = 95 * 10 ^ 16;
  total_supply_index = 10 ^ 18;
  total_debt_index = 10 ^ 18;
  last_updated = 5;
  utilization_factor = 10 ^ 17;
  initial_interest_rate = 10 ^ 16;
}

-- Block 15; account 1 supplied the thousand units and borrowed the two hundred.
abbrev pub chain : State Ledger.State
chain = record {
  ledger = record blank {
    balances = λ id who. (if id == 0 then if who == 99 then 800 else 5_000 else 0);
    price = λ _. 10 ^ 18;
  };
  user_debts = λ id who.
      (if id == 0 && who == 1 then some (record { amount = 200; index = 10 ^ 18 }) else none);
  user_supplies = λ id who.
      (if id == 0 && who == 1 then some (record { amount = 1_000; index = 10 ^ 18 }) else none);
  pools = λ id. (if id == 0 then some market else none);
  user_supply_set = λ who. (if who == 1 then 0 ∷ [] else []);
  user_debt_set = λ who. (if who == 1 then 0 ∷ [] else []);
  liquidation_threshold = 12 * 10 ^ 17;
  block_number = 15;
  events = [];
}

-- Account 1 has borrowed 900 units of asset 1 on its supply of 1000 units of asset 0: with ten blocks
-- of interest, more than the supply is worth.
abbrev pub sunk : State Ledger.State
sunk = record chain {
  ledger = record blank {
    balances = λ id who. (if who == 99 then 2_000 else 5_000);
    price = λ _. 10 ^ 18;
  };
  user_debts = λ id who.
      (if id == 1 && who == 1 then some (record { amount = 900; index = 10 ^ 18 }) else none);
  pools = λ id.
      (if id == 0
        then some market
        else if id == 1
        then some (record market { asset = 1; supply = 2_000; debt = 900 })
        else none);
  user_debt_set = λ who. (if who == 1 then 1 ∷ [] else []);
}

-- Ten blocks on, with interest of 6 and of 30 percent.
abbrev pub later : Pool
later = record market {
  supply = 1_060;
  debt = 260;
  total_supply_index = 106 * 10 ^ 16;
  total_debt_index = 13 * 10 ^ 17;
  last_updated = 15;
}

pub accrues : accrue_interest decimals true 15 market ≡ some later
unfolding accrue_interest supply_multiplier debt_multiplier multiplier supply_rate_internal
    debt_rate_internal sub_word
accrues = refl

no_wrap : (x y z : ℕ) → decimals.add x y ≡ some z → x ≤ z
no_wrap x y z e = ground arith

accrue_interest-Grows_example : Grows market later
accrue_interest-Grows_example =
    accrue_interest-Grows decimals true 15 decimals-IsFixedPoint no_wrap market (omega arith)
      (omega arith) accrues

accrue_interest_again_example : accrue_interest decimals true 15 later ≡ some later
accrue_interest_again_example = accrue_interest_again decimals true 15 market accrues

chain-SetsAgree : SetsAgree chain
chain-SetsAgree = record {
  supplies = λ asset user. ground arith;
  debts = λ asset user. ground arith;
  supply_distinct = λ user. ground arith;
  debt_distinct = λ user. ground arith;
}

Reach-SetsAgree_example : SetsAgree (
    after
      (record chain { block_number = 25 })
      (dispatch runtime (withdraws (signed 1) 0 250) (record chain { block_number = 25 })))
Reach-SetsAgree_example =
    Reach-SetsAgree runtime (multi_asset-IsMultiAsset true).transfers_positive refl
      (next (next here (blocks_pass 10)) (calls (withdraws (signed 1) 0 250))) chain-SetsAgree

rated_supply : supply_rate_internal decimals market ≡ some (6 * 10 ^ 15)
unfolding supply_rate_internal debt_rate_internal
rated_supply = refl

rated_debt : debt_rate_internal decimals market ≡ some (3 * 10 ^ 16)
unfolding debt_rate_internal
rated_debt = refl

accrue_supply-foretold_example :
    accrue_supply_with_interest runtime later 0 1 chain
    ≡ stores_supply runtime decimals-IsFixedPoint 0 1
        (106 * 10 ^ 16)
        chain
        (get_user_supply_with_interest runtime 0 1 chain)
accrue_supply-foretold_example =
    accrue_supply-foretold runtime decimals-IsFixedPoint 0 1 market later
      (record { amount = 1_000; index = 10 ^ 18 }) (6 * 10 ^ 15) chain refl refl (omega arith)
      rated_supply accrues

accrue_debt-foretold_example :
    accrue_debt_with_interest runtime later 0 1 chain
    ≡ stores_debt runtime decimals-IsFixedPoint 0 1
        (13 * 10 ^ 17)
        chain
        (get_user_debt_with_interest runtime 0 1 chain)
accrue_debt-foretold_example =
    accrue_debt-foretold runtime decimals-IsFixedPoint 0 1 market later
      (record { amount = 200; index = 10 ^ 18 }) (3 * 10 ^ 16) chain refl refl (omega arith)
      rated_debt accrues
