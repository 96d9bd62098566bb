-- ===== src/Tests/SwapRuns.antt =====
-- Runs of the swap pallet's prices and addresses, and its theorems at concrete pools.
use konomi_node.Base.{
  some, none, false, [], ◌∷◌, if◌then◌else◌, ◌==◌, ℕ, ◌≡◌, ◌-◌, ◌*◌, ◌+◌, ◌<◌, ◌≤◌, refl, true,
  arith, ok, [], add_word, sub_word, mul_word, div_word,
}
use konomi_node.Swap.State.{Exchange, Config}
use konomi_node.Swap.Pricing.{
  calculate_output, calc_paired_asset_output_amount, calc_inherent_asset_output_amount,
  calc_output_at_known_input, calc_input_at_known_output,
}
use konomi_node.Swap.Product.{calc_output-keeps_product, calc_input_drains}
use konomi_node.Swap.Exchange.{
  inherent_asset_to_paired_asset_with_exact_input, paired_asset_to_inherent_asset_with_exact_input,
}
use konomi_node.Swap.Unpaid.{swap_unpaid}
use konomi_node.Base.{after, Origin}
use konomi_node.Base.Keeps.{Keeps-after}
use konomi_node.Swap.Dispatch.{dispatch, removes_liquidity}
use konomi_node.Swap.Holders.{IsShared, dispatch-IsShared}
use konomi_node.Swap.Foretold.{swap_inherent_foretold, calculate_output_panics}
use konomi_node.Swap.Paid.{Traded, swap_inherent, swap_paired}
use konomi_node.Swap.Provided.{Removed, take_liquidity_pays}
use konomi_node.Swap.Returned.{Back, add_then_remove}
use konomi_node.Swap.Liquidity.{inject_liquidity, take_liquidity}
use konomi_node.Swap.Address.{mock_address}
use konomi_node.Swap.Encoding.{address_preimage_injective}
use konomi_node.Tests.AssetsRuns.{blank}

abbrev signed : ℕ → Origin
signed who = record { signed_by = some who; is_root = false; is_none = false }

abbrev pub mocked : Config
mocked = record { make_exchange_address = mock_address; checks = true }

abbrev pub unused_exchange : Exchange
unused_exchange = record {
  assets = blank;
  fee_rate = 3;
  total_liquidities = λ _. 0;
  account_liquidities = λ _ _. 0;
  exchange_accounts = λ _. 0;
  events = [];
}

output_quote :
    calc_output_at_known_input mocked 100 1000 2000 3 unused_exchange ≡ ok 181 unused_exchange
unfolding calc_output_at_known_input add_word mul_word div_word
output_quote = refl

input_quote :
    calc_input_at_known_output mocked 100 2000 1000 3 unused_exchange ≡ ok 100 unused_exchange
unfolding calc_input_at_known_output sub_word mul_word div_word
input_quote = refl

calc_output-keeps_product_example :
    (181 < 2000)
    × (1000 * 2000 ≤ (1000 + 100) * (2000 - 181))
    × ((1000 + 100) * (2000 - (181 + 1)) < 1000 * 2000)
    × (unused_exchange ≡ unused_exchange)
calc_output-keeps_product_example =
    calc_output-keeps_product mocked 100 1000 2000 3 unused_exchange refl output_quote

calc_input_drains_example : (2000 + 100) * (1000 - 100) < 2000 * 1000
calc_input_drains_example =
    calc_input_drains mocked 100 2000 1000 3 unused_exchange input_quote (omega arith) (omega arith)
      (omega arith)

address_preimage_injective_example : (◌≡◌ {A = ℕ} 3 3) × (◌≡◌ {A = ℕ} 258 258)
address_preimage_injective_example =
    address_preimage_injective 3 258 3 258 (omega arith) (omega arith) (omega arith) (omega arith)
      refl

-- The pool of assets 0 and 1, at account 10001, holds 1000 and 2000 units; nobody else has any.
abbrev lone_pool : Exchange
lone_pool = record unused_exchange {
  assets = record blank {
    balances = λ id who. (if who == 10_001 then if id == 0 then 1_000 else 2_000 else 0);
  };
}

lone_quote : calc_paired_asset_output_amount mocked 1 100 3 lone_pool ≡ ok 181 lone_pool
unfolding calc_paired_asset_output_amount calc_output_at_known_input add_word mul_word div_word
    mock_address
lone_quote = refl

swap_unpaid_example :
    (u : Exchange) × (inherent_asset_to_paired_asset_with_exact_input mocked 5 6 1 100 0 3 lone_pool
      ≡ ok 181 u)
    × (u.assets.balances 1 6 ≡ 0 + 181)
    × (u.assets.balances 0 5 ≡ 0)
unfolding mock_address
swap_unpaid_example =
    swap_unpaid mocked 5 6 1 100 0 3 181 lone_pool lone_quote (λ e. ground arith)
      (λ e. ground arith) (omega arith) (omega arith) (omega arith) (omega arith) (omega arith)

-- Account 5 holds all the liquidity of the pool.
abbrev held_pool : Exchange
held_pool = record lone_pool {
  total_liquidities = λ id. (if id == 1 then 1_000 else 0);
  account_liquidities = λ id who. (if who == 5 then if id == 1 then 1_000 else 0 else 0);
}

held-IsShared : IsShared held_pool
held-IsShared = (
  5 ∷ [],
  (refl, tt),
  record { sums = λ asset. ground arith },
  record { none_else = λ id who out. ground arith },
)

dispatch-IsShared_example :
    IsShared (after held_pool (dispatch mocked (removes_liquidity (signed 5) 1 400 0 0) held_pool))
dispatch-IsShared_example =
    Keeps-after (dispatch-IsShared mocked refl (removes_liquidity (signed 5) 1 400 0 0)) held_pool
      held-IsShared

-- The same pool, with account 5 that has 300 units of every asset.
abbrev funded_pool : Exchange
funded_pool = record unused_exchange {
  assets = record blank {
    balances = λ id who.
        (if who == 10_001 then if id == 0 then 1_000 else 2_000 else if who == 5 then 300 else 0);
  };
}

funded_quote : calc_paired_asset_output_amount mocked 1 100 3 funded_pool ≡ ok 181 funded_pool
unfolding calc_paired_asset_output_amount calc_output_at_known_input add_word mul_word div_word
    mock_address
funded_quote = refl

funded_inherent_quote :
    calc_inherent_asset_output_amount mocked 1 200 3 funded_pool ≡ ok 90 funded_pool
unfolding calc_inherent_asset_output_amount calc_output_at_known_input add_word mul_word div_word
    mock_address
funded_inherent_quote = refl

swap_inherent_example :
    (u : Exchange) × (inherent_asset_to_paired_asset_with_exact_input mocked 5 6 1 100 0 3
        funded_pool
      ≡ ok 181 u)
    × Traded 0 1 5 6 10_001 100 181 funded_pool u
    × (1_000 * 2_000 ≤ u.assets.balances 0 10_001 * u.assets.balances 1 10_001)
unfolding mock_address
swap_inherent_example =
    swap_inherent mocked refl 5 6 1 100 0 3 181 funded_pool funded_quote (λ e. ground arith)
      (λ e. ground arith) (λ e. ground arith) (omega arith) (omega arith) (omega arith)
      (omega arith)

swap_paired_example :
    (u : Exchange) × (paired_asset_to_inherent_asset_with_exact_input mocked 5 6 1 200 0 3
        funded_pool
      ≡ ok 90 u)
    × Traded 1 0 5 6 10_001 200 90 funded_pool u
    × (2_000 * 1_000 ≤ u.assets.balances 1 10_001 * u.assets.balances 0 10_001)
unfolding mock_address
swap_paired_example =
    swap_paired mocked refl 5 6 1 200 0 3 90 funded_pool funded_inherent_quote (λ e. ground arith)
      (λ e. ground arith) (λ e. ground arith) (omega arith) (omega arith) (omega arith)
      (omega arith)

funded_foretold : calculate_output mocked 0 1 100 funded_pool ≡ some 181
unfolding calculate_output calc_paired_asset_output_amount calc_output_at_known_input add_word
    mul_word div_word mock_address
funded_foretold = refl

swap_inherent_foretold_example :
    (u : Exchange) × (inherent_asset_to_paired_asset_with_exact_input mocked 5 6 1 100 0 3
        funded_pool
      ≡ ok 181 u)
    × Traded 0 1 5 6 10_001 100 181 funded_pool u
unfolding mock_address
swap_inherent_foretold_example =
    swap_inherent_foretold mocked funded_pool 5 6 1 100 0 3 181 refl funded_foretold
      (λ e. ground arith) (λ e. ground arith) (λ e. ground arith) (omega arith) (omega arith)
      (omega arith) (omega arith)

-- The swap of 200 units of asset 1 pays 90, and the quote of it panics.
calculate_output_panics_example : calculate_output mocked 1 0 200 funded_pool ≡ none
unfolding mock_address
calculate_output_panics_example =
    calculate_output_panics mocked funded_pool 1 200 (λ e. ground arith) (ground arith)

-- The funded pool, with the liquidity of account 7 in it.
abbrev shared_pool : Exchange
shared_pool = record funded_pool {
  total_liquidities = λ id. (if id == 1 then 1_000 else 0);
  account_liquidities = λ id who. (if who == 7 then if id == 1 then 1_000 else 0 else 0);
}

take_liquidity_pays_example :
    (v : Exchange) × (take_liquidity mocked 7 1 250 0 0 shared_pool ≡ ok tt v)
    × Removed 0 1 7 10_001 250 shared_pool v
unfolding mock_address
take_liquidity_pays_example =
    take_liquidity_pays mocked 7 1 250 0 0 shared_pool (λ e. ground arith) (λ e. ground arith)
      (omega arith) (omega arith) (omega arith) (omega arith) (omega arith) (omega arith)
      (omega arith)

-- Account 5 puts in 100 units of the inherent asset and 50 of the paired one, out of proportion.
add_then_remove_example :
    (u : Exchange) × (v : Exchange) × (inject_liquidity mocked 5 1 100 50 0 shared_pool ≡ ok tt u)
    × (take_liquidity mocked 5 1 100 0 0 u ≡ ok tt v)
    × Back mocked 5 1 100 50 0 shared_pool v
unfolding mock_address
add_then_remove_example =
    add_then_remove mocked 5 1 100 50 0 shared_pool 0 0 (λ e. ground arith) (λ e. ground arith)
      (omega arith) (omega arith) (omega arith) (omega arith) (omega arith) (omega arith)
      (omega arith) (omega arith) (omega arith) (omega arith) (omega arith)

-- For 50 units of the paired asset it gets 186.
provider_gains :
    (r : (u : Exchange) × (v : Exchange) × (inject_liquidity mocked 5 1 100 50 0 shared_pool
        ≡ ok tt u)
      × (take_liquidity mocked 5 1 100 0 0 u ≡ ok tt v)
      × Back mocked 5 1 100 50 0 shared_pool v)
    → r.1.assets.balances 1 5 ≡ 300 - 50 + 186
unfolding mock_address
provider_gains r = r.4.paired_back
