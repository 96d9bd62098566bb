-- ===== src/Swap/State.antt =====
-- pallets/swap/src/lib.rs: the storage, the events and the errors of the pallet.
use konomi_node.Base.{ℕ, Bool, List, ◌∷◌, Action, ok, err, panic, modify, gets}
use konomi_node.Assets.State
use konomi_node.Assets.Calls

-- `enum Event`
pub data Event : Type 0 where
  assets_swapped : ℕ → ℕ → ℕ → ℕ → ℕ → Event
  liquidity_added : ℕ → ℕ → ℕ → Event
  liquidity_removed : ℕ → ℕ → ℕ → Event
  reserve_changed : ℕ → ℕ → Event

-- FRAME's refusal of an origin, and the message "Empty Pool.".
pub data Error : Type 0 where
  bad_origin empty_pool : Error

-- The pallet's storage and that of the assets pallet, which it calls directly. Account
-- liquidities go by paired asset and account.
pub record Exchange : Type 0 where
  pub assets : State.State
  pub fee_rate : ℕ
  pub total_liquidities : ℕ → ℕ
  pub account_liquidities : ℕ → ℕ → ℕ
  pub exchange_accounts : ℕ → ℕ
  pub events : List Event

-- `trait Trait`: the address of the pool of two assets, and whether the build has overflow checks.
pub record Config : Type 0 where
  pub make_exchange_address : ℕ → ℕ → ℕ
  pub checks : Bool

abbrev pub Call : Type 0 → Type 0
Call A = Action Error Exchange A

abbrev pub deposit_event : Event → Call (Unit {0})
deposit_event e = modify (λ s. record s { events = e ∷ s.events })

abbrev pub inherent_asset_id : Call ℕ
inherent_asset_id = gets (λ s. s.assets.inherent_asset)

-- `<assets::Module<T>>::balance`
abbrev pub balance : ℕ → ℕ → Call ℕ
balance id who = gets (λ s. s.assets.balances id who)

-- `<assets::Module<T>>::transfer(..);`: its result is dropped at every call of this pallet.
unfoldable pub transfer : Bool → ℕ → ℕ → ℕ → ℕ → Call (Unit {0})
transfer checks from id to amount s = elim (Calls.transfer checks from id to amount s.assets) [
  | ok _ assets ↦ ok tt (record s { assets = assets })
  | err _ assets ↦ ok tt (record s { assets = assets })
  | panic ↦ panic
]
