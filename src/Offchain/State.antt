-- ===== src/Offchain/State.antt =====
-- pallets/offchain-worker/src/lib.rs: the storage, the events, and what it reads of others.
use Prim.Native.String.{String}
use konomi_node.Base.{ℕ, Bool, List, ◌∷◌, Action, modify}
use konomi_node.FixedPoint.{FixedPoint}
use konomi_node.Assets.State

-- `enum Event`
pub data Event : Type 0 where
  new_price : ℕ → ℕ → Event

pub data Error : Type 0 where
  bad_origin : Error

-- The pallet's storage, the assets' storage and the block number of frame_system.
pub record Worker : Type 0 where
  pub assets : State.State
  pub next_unsigned_at : ℕ
  pub block_number : ℕ
  pub events : List Event

-- `trait Trait`, the operations of `FixedU128`, and whether the build has overflow checks.
pub record Config : Type 0 where
  pub unsigned_priority : ℕ
  pub unsigned_interval : ℕ
  pub fixed : FixedPoint
  pub checks : Bool

abbrev pub Call : Type 0 → Type 0
Call A = Action Error Worker A

abbrev pub deposit_event : Event → Call (Unit {0})
deposit_event e = modify (λ s. record s { events = e ∷ s.events })

-- `ValidTransaction`: the tag that it provides is the prefix with a block number.
pub record ValidTransaction : Type 0 where
  pub tag_prefix : String
  pub priority : ℕ
  pub provides : ℕ
  pub longevity : ℕ
  pub propagate : Bool

-- `TransactionValidity`
pub data Validity : Type 0 where
  stale future other_call : Validity
  valid : ValidTransaction → Validity
