-- ===== src/Assets/State.antt =====
-- pallets/assets/src/lib.rs: the storage, the events and the errors of the pallet.
use konomi_node.Base.{ℕ, List, ◌∷◌, Action, modify, update, update₂}

-- `enum Event`.
pub data Event : Type 0 where
  issued : ℕ → ℕ → ℕ → Event
  transferred : ℕ → ℕ → ℕ → ℕ → Event
  destroyed : ℕ → ℕ → ℕ → Event

-- The messages of the pallet's errors, and FRAME's refusal of an origin.
pub data Error : Type 0 where
  bad_origin zero_balance zero_amount low_balance : Error

-- The storage: a map reads its default, 0, where nothing was written. `events` is what was
-- handed to `deposit_event`, the latest first. A price is the inner value of a `FixedU128`.
pub record State : Type 0 where
  pub next_asset_id : ℕ
  pub total_supply : ℕ → ℕ
  -- by asset and account
  pub balances : ℕ → ℕ → ℕ
  pub inherent_asset : ℕ
  pub price : ℕ → ℕ
  pub owner : ℕ
  pub events : List Event

abbrev pub Call : Type 0 → Type 0
Call A = Action Error State A

abbrev pub put_balance : ℕ → ℕ → ℕ → State → State
put_balance id who amount s = record s { balances = update₂ s.balances id who amount }

abbrev pub put_supply : ℕ → ℕ → State → State
put_supply id amount s = record s { total_supply = update s.total_supply id amount }

abbrev pub deposit_event : Event → Call (Unit {0})
deposit_event e = modify (λ s. record s { events = e ∷ s.events })
