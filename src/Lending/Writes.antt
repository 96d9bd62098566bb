-- ===== src/Lending/Writes.antt =====
-- pallets/lending/src/lib.rs: what the calls write, as a rule for invariants.
use konomi_node.Base.{◌≡◌, Option-cases, inl, inr, none, some, Option, ℕ, Bool, Origin}
use konomi_node.Base.Keeps.{Keeps, Keeps-bind-given, Keeps-bind-refused, keeps_rules}
use konomi_node.Lending.State.{
  State, Config, Pool, put_pool, put_supply, put_debt, deposit_event, Event, UserSupply, UserDebt,
}
use konomi_node.Lending.Accounts.{
  update_user_supply, update_user_debt, update_found_supply, update_found_debt, store_supply,
  store_debt, accrue_found_supply, accrue_found_debt, accrue_supply_with_interest,
  accrue_debt_with_interest, join_supply_set, join_debt_set, leave_supply_set, leave_debt_set,
}
use konomi_node.Lending.Calls.{supply, withdraw, borrow, repay, init_pool, move_asset, accrued_pool}
use konomi_node.Lending.Liquidate.{liquidate, settle}
use konomi_node.Lending.Dispatch.{
  Request, supplies, withdraws, borrows, repays, liquidates, inits_pool, dispatch,
}

-- A predicate that every write of the pallet keeps, those of entries and sets of `who` only.
pub record IsWritten {E Store : Type 0} (t : Config E Store) (P : State Store → Type 0) (who : ℕ)
    : Type 0 where
  pub pools : (id : ℕ) (p : Pool) → Keeps P (put_pool id p)
  pub supplies : (id : ℕ) (e : Option UserSupply) → Keeps P (put_supply id who e)
  pub debts : (id : ℕ) (e : Option UserDebt) → Keeps P (put_debt id who e)
  pub leaves_supply : (id : ℕ) → Keeps P (leave_supply_set t id who)
  pub leaves_debt : (id : ℕ) → Keeps P (leave_debt_set t id who)
  pub joins_supply : (id : ℕ) → Keeps P (join_supply_set t id who)
  pub joins_debt : (id : ℕ) → Keeps P (join_debt_set t id who)
  pub events : (e : Event) → Keeps P (deposit_event e)
  pub moves : (from id to n : ℕ) → Keeps P (move_asset t from id to n)

module _ {E Store : Type 0} (t : Config E Store) (P : State Store → Type 0) (who : ℕ)
    (w : IsWritten t P who) where
  accrued_pool-Keeps : (id : ℕ) → Keeps P (accrued_pool t id)
  unfolding accrued_pool
  accrued_pool-Keeps id = search keeps_rules

  store_supply-Keeps : (p : Pool) (id n : ℕ) → Keeps P (store_supply t p id who n)
  unfolding store_supply
  store_supply-Keeps p id n = search (keeps_rules, w.supplies, w.leaves_supply)

  store_debt-Keeps : (p : Pool) (id n : ℕ) → Keeps P (store_debt t p id who n)
  unfolding store_debt
  store_debt-Keeps p id n = search (keeps_rules, w.debts, w.leaves_debt)

  update_found_supply-Keeps :
      (p : Pool) (id n : ℕ) (positive : Bool) (e : Option UserSupply)
      → Keeps P (update_found_supply t p id who n positive e)
  unfolding update_found_supply
  update_found_supply-Keeps p id n positive none = search (keeps_rules, w.supplies)
  update_found_supply-Keeps p id n positive (some e) = search (keeps_rules, store_supply-Keeps)

  update_found_debt-Keeps :
      (p : Pool) (id n : ℕ) (positive : Bool) (e : Option UserDebt)
      → Keeps P (update_found_debt t p id who n positive e)
  unfolding update_found_debt
  update_found_debt-Keeps p id n positive none = search (keeps_rules, w.debts)
  update_found_debt-Keeps p id n positive (some e) = search (keeps_rules, store_debt-Keeps)

  update_supply-Keeps :
      (p : Pool) (id n : ℕ) (positive : Bool) → Keeps P (update_user_supply t p id who n positive)
  unfolding update_user_supply
  update_supply-Keeps p id n positive = search (keeps_rules, update_found_supply-Keeps)

  update_debt-Keeps :
      (p : Pool) (id n : ℕ) (positive : Bool) → Keeps P (update_user_debt t p id who n positive)
  unfolding update_user_debt
  update_debt-Keeps p id n positive = search (keeps_rules, update_found_debt-Keeps)

  accrue_found_supply-Keeps :
      (p : Pool) (id : ℕ) (e : Option UserSupply) → Keeps P (accrue_found_supply t p id who e)
  unfolding accrue_found_supply
  accrue_found_supply-Keeps p id none = search keeps_rules
  accrue_found_supply-Keeps p id (some e) = search (keeps_rules, w.supplies)

  accrue_found_debt-Keeps :
      (p : Pool) (id : ℕ) (e : Option UserDebt) → Keeps P (accrue_found_debt t p id who e)
  unfolding accrue_found_debt
  accrue_found_debt-Keeps p id none = search keeps_rules
  accrue_found_debt-Keeps p id (some e) = search (keeps_rules, w.debts)

  accrue_supply-Keeps : (p : Pool) (id : ℕ) → Keeps P (accrue_supply_with_interest t p id who)
  unfolding accrue_supply_with_interest
  accrue_supply-Keeps p id = search (keeps_rules, accrue_found_supply-Keeps)

  accrue_debt-Keeps : (p : Pool) (id : ℕ) → Keeps P (accrue_debt_with_interest t p id who)
  unfolding accrue_debt_with_interest
  accrue_debt-Keeps p id = search (keeps_rules, accrue_found_debt-Keeps)

  ruleset call_rules = (
    keeps_rules, accrued_pool-Keeps, update_supply-Keeps, update_debt-Keeps, accrue_supply-Keeps,
    accrue_debt-Keeps,
  )

  supply-Keeps : (o : Origin) (id n : ℕ) → o.signed_by ≡ some who → Keeps P (supply t o id n)
  unfolding supply
  supply-Keeps o id n signed =
      Keeps-bind-given _ _ _ signed
        (search (call_rules, w.pools, w.events, w.moves, w.joins_supply) depth 40 fits 5000)

  withdraw-Keeps : (o : Origin) (id n : ℕ) → o.signed_by ≡ some who → Keeps P (withdraw t o id n)
  unfolding withdraw
  withdraw-Keeps o id n signed =
      Keeps-bind-given _ _ _ signed
        (search (call_rules, w.pools, w.events, w.moves) depth 40 fits 5000)

  borrow-Keeps : (o : Origin) (id n : ℕ) → o.signed_by ≡ some who → Keeps P (borrow t o id n)
  unfolding borrow
  borrow-Keeps o id n signed =
      Keeps-bind-given _ _ _ signed
        (search (call_rules, w.pools, w.events, w.moves, w.joins_debt) depth 40 fits 5000)

  repay-Keeps : (o : Origin) (id n : ℕ) → o.signed_by ≡ some who → Keeps P (repay t o id n)
  unfolding repay
  repay-Keeps o id n signed =
      Keeps-bind-given _ _ _ signed
        (search (call_rules, w.pools, w.events, w.moves) depth 40 fits 5000)

  settle-Keeps :
      (account pay_id get_id n : ℕ) (p g : Pool)
      → Keeps P (settle t account who pay_id get_id n p g)
  unfolding settle
  settle-Keeps account pay_id get_id n p g =
      search (call_rules, w.pools, w.moves) depth 60 fits 9000

  liquidate-Keeps : (o : Origin) (pay_id get_id n : ℕ) → Keeps P (liquidate t o who pay_id get_id n)
  unfolding liquidate
  liquidate-Keeps o pay_id get_id n = search (call_rules, settle-Keeps) depth 40 fits 5000

-- The account whose entries and sets a call may change.
abbrev pub changes : Request → Option ℕ
changes (supplies o id n) = o.signed_by
changes (withdraws o id n) = o.signed_by
changes (borrows o id n) = o.signed_by
changes (repays o id n) = o.signed_by
changes (liquidates o target pay_id get_id n) = some target
changes (inits_pool o id c) = none

module _ {E Store : Type 0} (t : Config E Store) (P : State Store → Type 0)
    (pools : (id : ℕ) (p : Pool) → Keeps P (put_pool id p)) where
  init_pool-Keeps : (o : Origin) (id : ℕ) (c : Bool) → Keeps P (init_pool t o id c)
  unfolding init_pool
  init_pool-Keeps o id c = search (keeps_rules, pools) depth 20

  changed-Keeps :
      (r : Request) (who : ℕ) → changes r ≡ some who → IsWritten t P who → Keeps P (dispatch t r)
  unfolding dispatch
  changed-Keeps (supplies o id n) who signed w = supply-Keeps t P who w o id n signed
  changed-Keeps (withdraws o id n) who signed w = withdraw-Keeps t P who w o id n signed
  changed-Keeps (borrows o id n) who signed w = borrow-Keeps t P who w o id n signed
  changed-Keeps (repays o id n) who signed w = repay-Keeps t P who w o id n signed
  changed-Keeps (liquidates o target pay_id get_id n) who signed w =
      let same : target ≡ who = cc in rw same (liquidate-Keeps t P who w o pay_id get_id n)
  changed-Keeps (inits_pool o id c) who signed w = init_pool-Keeps o id c

  unchanged-Keeps : (r : Request) → changes r ≡ none → Keeps P (dispatch t r)
  unfolding dispatch supply withdraw borrow repay
  unchanged-Keeps (supplies o id n) unsigned = Keeps-bind-refused _ _ _ unsigned
  unchanged-Keeps (withdraws o id n) unsigned = Keeps-bind-refused _ _ _ unsigned
  unchanged-Keeps (borrows o id n) unsigned = Keeps-bind-refused _ _ _ unsigned
  unchanged-Keeps (repays o id n) unsigned = Keeps-bind-refused _ _ _ unsigned
  unchanged-Keeps (liquidates o target pay_id get_id n) unsigned = cc
  unchanged-Keeps (inits_pool o id c) unsigned = init_pool-Keeps o id c

  -- Each call keeps what the writes at the account that it changes keep.
  pub dispatch-Keeps :
      (r : Request)
      → ((who : ℕ) → changes r ≡ some who → IsWritten t P who)
      → Keeps P (dispatch t r)
  dispatch-Keeps r w = elim (Option-cases (changes r)) [
    | inl e ↦ unchanged-Keeps r e
    | inr (who, e) ↦ changed-Keeps r who e (w who e)
  ]
