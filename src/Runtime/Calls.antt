-- ===== src/Runtime/Calls.antt =====
-- runtime/src/lib.rs: the configuration of the pallets, and the runtime's `enum Call` with its
-- dispatch, as far as `construct_runtime!` takes them from this repository's pallets.
use konomi_node.Base.{ℕ, ◌+◌, ◌<◌, u32_size, Origin, ok, err, panic, Action, after}
use konomi_node.Assets.State as AssetsState
use konomi_node.Assets.Calls as Assets
use konomi_node.Assets.Transfer.{multi_asset, oracle}
use konomi_node.Assets.Holders.{IsTyped}
use konomi_node.Lending.State as LendingState
use konomi_node.Lending.Dispatch as Lending
use konomi_node.Swap.State as SwapState
use konomi_node.Swap.Address.{hashed_address}
use konomi_node.Swap.Dispatch as Swap
use konomi_node.Offchain.State as OffchainState
use konomi_node.Offchain.Calls.{submit_price_unsigned}
use konomi_node.Runtime.Constants.{unsigned_interval, unsigned_priority}
use konomi_node.Runtime.State.{
  Chain, Platform, lending, exchange, worker, put_assets, put_lending, put_exchange, put_worker,
}

-- `DispatchError::Module`: the pallet and its error.
pub data DispatchError : Type 0 where
  assets_error : AssetsState.Error → DispatchError
  swap_error : SwapState.Error → DispatchError
  lending_error : LendingState.Error → DispatchError
  worker_error : OffchainState.Error → DispatchError

abbrev pub Call : Type 0
Call = Action DispatchError Chain (Unit {0})

-- A pallet's call on its part of the store.
unfoldable pub on_part :
    {E S : Type 0} (wrap : E → DispatchError) (get : Chain → S) (put : Chain → S → Chain)
    → Action E S (Unit {0})
    → Call
on_part wrap get put m c = elim (m (get c)) [
  | ok _ s ↦ ok tt (put c s)
  | err e s ↦ err (wrap e) (put c s)
  | panic ↦ panic
]

-- `enum Call`
pub data RuntimeCall : Type 0 where
  assets_call : Assets.Request → RuntimeCall
  swap_call : Swap.Request → RuntimeCall
  lending_call : Lending.Request → RuntimeCall
  submits_price : Origin → ℕ → ℕ → RuntimeCall

-- The numbers of a call are of their types, as far as they are stored.
abbrev pub CallIsTyped : RuntimeCall → Type 0
CallIsTyped (assets_call r) = IsTyped r
CallIsTyped (swap_call r) = Swap.HasShares r
CallIsTyped (lending_call r) = Lending.HasAmount r
CallIsTyped _ = Unit {0}

module _ (p : Platform) where
  open p use {fixed, checks, lending_account, hash}

  -- `impl pallet_lending::Trait for Runtime`
  abbrev pub lending_config : LendingState.Config AssetsState.Error AssetsState.State
  lending_config = record {
    multi_asset = multi_asset checks;
    oracle = oracle;
    fixed = fixed;
    account_id = lending_account;
    checks = checks;
  }

  -- `impl pallet_swap::Trait for Runtime`
  abbrev pub swap_config : SwapState.Config
  swap_config = record { make_exchange_address = hashed_address hash; checks = checks }

  -- `impl pallet_offchain_worker::Trait for Runtime`
  abbrev pub worker_config : OffchainState.Config
  worker_config = record {
    unsigned_priority = unsigned_priority;
    unsigned_interval = unsigned_interval;
    fixed = fixed;
    checks = checks;
  }

  unfoldable pub dispatch : RuntimeCall → Call
  dispatch (assets_call r) =
      on_part assets_error (λ c. c.assets) put_assets (Assets.dispatch checks r)
  dispatch (swap_call r) = on_part swap_error exchange put_exchange (Swap.dispatch swap_config r)
  dispatch (lending_call r) =
      on_part lending_error lending put_lending (Lending.dispatch lending_config r)
  dispatch (submits_price origin block_number price) =
      on_part worker_error worker put_worker
        (submit_price_unsigned worker_config origin block_number price)

  -- One step of the chain: a call, whatever comes of it, or the next block, whose number
  -- is a u32.
  pub data Step (c : Chain) : Chain → Type 0 where
    calls : (r : RuntimeCall) → CallIsTyped r → Step c (after c (dispatch r c))
    next_block :
        c.block_number + 1 < u32_size → Step c (record c { block_number = c.block_number + 1 })

  pub data Reach (c : Chain) : Chain → Type 0 where
    here : Reach c c
    next : {d e : Chain} → Reach c d → Step d e → Reach c e
