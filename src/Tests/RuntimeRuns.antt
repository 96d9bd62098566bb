-- ===== src/Tests/RuntimeRuns.antt =====
-- Runs of the runtime from the genesis of its chain specifications, and of a node on it.
use Prim.Native.String.{len}
use konomi_node.Base.{
  List, ok, min, ◌*◌, ◌/◌, u128_size, subst, add_word, sub_word, ℕ, ◌≡◌, ◌≢◌, ◌-◌, ◌+◌, ◌^◌, refl,
  true, some, none, Option, arith, after, [], ◌∷◌, min, u64_size, if◌then◌else◌, ◌==◌,
}
use konomi_node.Lending.Info as Lending
use konomi_node.Lending.Interest.{
  supply_multiplier, debt_multiplier, multiplier, supply_rate_internal, debt_rate_internal,
}
use konomi_node.Lending.Accounts.{with_interest}
use konomi_node.Lending.Dispatch as LendingRequest
use konomi_node.Assets.Calls as AssetsRequest
use konomi_node.Runtime.State.{Chain, Platform, lending, put_lending}
use konomi_node.Runtime.Calls.{
  on_part, here, next, calls, next_block, dispatch, lending_call, lending_config,
}
use konomi_node.Runtime.Sound.{IsSound}
use konomi_node.Runtime.Genesis.{GenesisConfig, configured, build}
use konomi_node.Assets.Genesis.{AreBalances, AreConfigured}
use konomi_node.Lending.Opening.{Divides, AreOpen}
use konomi_node.Runtime.Launch.{build_ends}
use konomi_node.Runtime.Signing.{Signer, Check, signed_extra, create_transaction}
use konomi_node.Runtime.Typed.{ChainInRange, chain-InRange}
use konomi_node.Tests.Fixed.{decimals-IsTypedFixed}
use konomi_node.Runtime.Birth.{chain-IsSound}
use konomi_node.Lending.Calls
use konomi_node.Runtime.Api as Api
use konomi_node.Runtime.Api.{Saturates}
use konomi_node.Node.ChainSpec.{Keys, testnet_genesis}
use konomi_node.Node.Rpc.{Client, Result, success, failure, get_user_info}
use konomi_node.Node.Answers.{Answers, Runs, user_info_capped}
use konomi_node.Tests.Fixed.{decimals}
use konomi_node.Tests.LendingRuns.{signed, chain}

abbrev pub platform : Platform
platform = record { fixed = decimals; lending_account = 99; hash = λ bytes. 98; checks = true }

abbrev pub keys : Keys
keys = record { account_id = λ seed. len seed; aura_id = λ seed. 11; grandpa_id = λ seed. 12 }

abbrev testnet : GenesisConfig
testnet = testnet_genesis keys [] ((11, 12) ∷ []) 5 (5 ∷ 3 ∷ [])

abbrev born : Chain
born = after (configured platform testnet) (build platform testnet (configured platform testnet))

-- The account of "Alice" issued 10^18 units, of which 500000 went to the one of "Bob".
born_balances :
    (born.assets.balances 4 5 ≡ 10 ^ 18 - 500_000) × (born.assets.balances 0 3 ≡ 500_000)
unfolding build on_part AssetsRequest.genesis testnet_genesis AssetsRequest.genesis_asset
    AssetsRequest.issue_to add_word sub_word AssetsRequest.transfer AssetsRequest.put_price
    Calls.genesis Calls.init_pool_at
born_balances = (refl, refl)

born_block : born.block_number ≡ 0
unfolding build on_part AssetsRequest.genesis testnet_genesis AssetsRequest.genesis_asset
    AssetsRequest.issue_to add_word sub_word AssetsRequest.transfer AssetsRequest.put_price
    Calls.genesis Calls.init_pool_at
born_block = refl

testnet-AreBalances : AreBalances testnet.assets
unfolding testnet_genesis
testnet-AreBalances = (omega arith, (omega arith, (omega arith, (omega arith, (omega arith, tt)))))

-- A supply of "Alice" to the first pool, in the first block.
abbrev supplied : Chain
supplied =
    let c : Chain = record born { block_number = born.block_number + 1 } in
    after c (dispatch platform (lending_call (LendingRequest.supplies (signed 5) 0 1_000)) c)

chain-IsSound_example : IsSound supplied
chain-IsSound_example = chain-IsSound platform refl testnet supplied testnet-AreBalances (
    next (next here (next_block (omega (arith, born_block))))
      (calls (lending_call (LendingRequest.supplies (signed 5) 0 1_000)) (omega arith)))

chain-InRange_example : ChainInRange supplied.block_number supplied
unfolding testnet_genesis
chain-InRange_example =
    chain-InRange platform decimals-IsTypedFixed testnet supplied testnet-AreBalances
      (omega arith, (omega arith, (omega arith, (omega arith, (omega arith, tt))))) (omega arith)
      (next (next here (next_block (omega (arith, born_block))))
        (calls (lending_call (LendingRequest.supplies (signed 5) 0 1_000)) (omega arith)))

-- A store with the lending pallet's part of another run, in which account 1 has a debt.
abbrev indebted : Chain
indebted = put_lending (record (configured platform testnet) { block_number = 15 }) chain

-- A client that runs the runtime on the stores of the blocks 7 and 8.
abbrev chain_at : ℕ → Option Chain
chain_at hash = if hash == 7 then some supplied else if hash == 8 then some indebted else none

abbrev or_failed : {A : Type 0} → Option A → Result (Unit {0}) A
or_failed none = failure tt
or_failed (some a) = success a

abbrev asked : {A : Type 0} → (Chain → Option A) → Option Chain → Result (Unit {0}) A
asked api none = failure tt
asked api (some c) = or_failed (api c)

unknown_fails :
    {A : Type 0} (api : Chain → Option A) (o : Option Chain) (a : A)
    → o ≡ none
    → asked api o ≢ success a
unknown_fails api none a e h = cc
unknown_fails api (some c) a e h = cc

panic_fails :
    {A : Type 0} (api : Chain → Option A) (o : Option Chain) (c : Chain) (a : A)
    → o ≡ some c
    → api c ≡ none
    → asked api o ≢ success a
panic_fails api o c a e f h =
    let g : or_failed (api c) ≡ success a = subst (λ z. asked api z ≡ success a) e h in
    let i : or_failed none ≡ success a = subst (λ z. or_failed z ≡ success a) f g in cc

asked-Answers :
    {A : Type 0} (api : Chain → Option A) → Answers chain_at api (λ hash. asked api (chain_at hash))
asked-Answers api = record {
  answered = λ hash c a e f. rw (e, f) refl;
  unknown = λ hash e a f. unknown_fails api (chain_at hash) a e f;
  panicked = λ hash c e f a g. panic_fails api (chain_at hash) c a e f g;
}

abbrev into : ℕ → ℕ
into n = min n (u64_size - 1)

into-Saturates : Saturates into
into-Saturates = record { keeps = λ n h. omega arith; caps = λ n h. omega arith }

abbrev node : Client (Unit {0})
node = record {
  best_hash = 7;
  debug = λ e. "Api";
  supply_rate_at = λ hash id. asked (Api.supply_rate platform id) (chain_at hash);
  debt_rate_at = λ hash id. asked (Api.debt_rate platform id) (chain_at hash);
  user_info_at = λ hash user. asked (Api.get_user_info platform into user) (chain_at hash);
  user_debt_at =
      λ hash id user. asked (Api.get_user_debt_with_interest platform id user) (chain_at hash);
  user_supply_at =
      λ hash id user. asked (Api.get_user_supply_with_interest platform id user) (chain_at hash);
  output_at = λ hash i o n. asked (Api.calculate_output platform i o n) (chain_at hash);
}

node-Runs : Runs platform into node chain_at
node-Runs = record {
  supply_rates = λ id. asked-Answers (Api.supply_rate platform id);
  debt_rates = λ id. asked-Answers (Api.debt_rate platform id);
  user_infos = λ user. asked-Answers (Api.get_user_info platform into user);
  user_debts = λ id user. asked-Answers (Api.get_user_debt_with_interest platform id user);
  user_supplies = λ id user. asked-Answers (Api.get_user_supply_with_interest platform id user);
  outputs = λ i o n. asked-Answers (Api.calculate_output platform i o n);
}

info_answer : get_user_info node 1 (some 8) ≡ success (1_060, 742, 260)
unfolding get_user_info Api.get_user_info Lending.get_user_info Lending.supply_totals
    Lending.debt_total Lending.get_user_supply_with_interest Lending.get_user_debt_with_interest
    supply_multiplier debt_multiplier multiplier supply_rate_internal debt_rate_internal
    with_interest add_word sub_word
info_answer = refl

user_info_capped_example :
    (c : Chain) × (x : ℕ) × (y : ℕ) × (z : ℕ) × (chain_at 8 ≡ some c)
    × (Lending.get_user_info (lending_config platform) 1 (lending c) ≡ some (x, y, z))
    × (1_060 ≡ min x (u64_size - 1))
    × (742 ≡ min y (u64_size - 1))
    × (260 ≡ min z (u64_size - 1))
user_info_capped_example =
    user_info_capped platform into node chain_at node-Runs 1 (some 8) 1_060 742 260 into-Saturates
      info_answer

pub decimals-Divides : Divides decimals
decimals-Divides = record {
  rational = λ n d ne. (min (n * 10 ^ 18 / d) (u128_size - 1), ground arith);
}

build_ends_example :
    (c : Chain) × (build platform testnet (configured platform testnet) ≡ ok tt c)
    × (c.assets.next_asset_id ≡ 5)
    × AreConfigured decimals testnet.assets 0 c.assets
    × AreOpen testnet.lending_pools c.pools
unfolding testnet_genesis
build_ends_example = build_ends platform decimals-Divides testnet testnet-AreBalances (omega arith)

-- Keys that sign with 9, eras as the block that they start after, payloads that keep what they have.
abbrev keeper : Signer ℕ ℕ (ℕ × List (Check ℕ)) ℕ ℕ
keeper = record {
  mortal = λ period current. current;
  new_payload = λ call extra. some (call, extra);
  deconstruct = λ payload. payload;
  sign = λ payload public. some 9;
}

created : create_transaction keeper 0 7 1 5 3 ≡ some (7, 5, 9, signed_extra keeper 1 3)
unfolding create_transaction
created = refl
