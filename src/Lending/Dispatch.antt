-- ===== src/Lending/Dispatch.antt =====
-- pallets/lending/src/lib.rs: the pallet's `enum Call`, and what happens to its storage over time.
use konomi_node.Base.{ℕ, ◌+◌, ◌<◌, u64_size, u128_size, Bool, Origin, after}
use konomi_node.Lending.State.{State, Config, Call}
use konomi_node.Lending.Calls.{supply, withdraw, borrow, repay, init_pool}
use konomi_node.Lending.Liquidate.{liquidate}

pub data Request : Type 0 where
  supplies withdraws borrows repays : Origin → ℕ → ℕ → Request
  liquidates : Origin → ℕ → ℕ → ℕ → ℕ → Request
  inits_pool : Origin → ℕ → Bool → Request

-- A call's amount is a `Balance`, and a new pool's asset is an `AssetId`.
abbrev pub HasAmount : Request → Type 0
HasAmount (supplies _ _ amount) = amount < u128_size
HasAmount (withdraws _ _ amount) = amount < u128_size
HasAmount (borrows _ _ amount) = amount < u128_size
HasAmount (repays _ _ amount) = amount < u128_size
HasAmount (liquidates _ _ _ _ amount) = amount < u128_size
HasAmount (inits_pool _ id _) = id < u64_size

module _ {E Store : Type 0} (t : Config E Store) where
  unfoldable pub dispatch : Request → Call Store (Unit {0})
  dispatch (supplies origin id amount) = supply t origin id amount
  dispatch (withdraws origin id amount) = withdraw t origin id amount
  dispatch (borrows origin id amount) = borrow t origin id amount
  dispatch (repays origin id amount) = repay t origin id amount
  dispatch (liquidates origin target pay_id get_id amount) =
      liquidate t origin target pay_id get_id amount
  dispatch (inits_pool origin id can_be_collateral) = init_pool t origin id can_be_collateral

  -- One step of the chain: a call of this pallet, whatever comes of it; later blocks; or another
  -- pallet's change of the balances and prices.
  pub data Step (s : State Store) : State Store → Type 0 where
    calls : (r : Request) → Step s (after s (dispatch r s))
    blocks_pass : (n : ℕ) → Step s (record s { block_number = s.block_number + n })
    ledger_changes : (ledger : Store) → Step s (record s { ledger = ledger })

  pub data Reach (s : State Store) : State Store → Type 0 where
    here : Reach s s
    next : {u v : State Store} → Reach s u → Step u v → Reach s v
