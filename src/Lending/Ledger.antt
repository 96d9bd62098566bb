-- ===== src/Lending/Ledger.antt =====
-- pallets/lending/src/lib.rs: the calls reach the assets' storage by transfers only.
use konomi_node.Base.{
  Bool, true, List, [], ◌∷◌, Bool-cases, contains, inl, inr, ℕ, Outcome, ok, err, panic,
}
use konomi_node.Base.Keeps.{Keeps, Ends, Keeps-then, keeps_rules}
use konomi_node.Lending.State.{Pool, put_pool, State, Config, Error, transfer_failed}
use konomi_node.Lending.Accounts.{join_supply_set, join_debt_set, leave_supply_set, leave_debt_set}
use konomi_node.Lending.Calls.{move_asset, init_pool_at, genesis}
use konomi_node.Lending.Dispatch.{Request, dispatch}
use konomi_node.Lending.Writes.{IsWritten, dispatch-Keeps}

module _ {E Store : Type 0} (t : Config E Store) (P : Store → Type 0)
    (transfers : (from id to amount : ℕ) → Keeps P (t.multi_asset.transfer from id to amount)) where
  -- The predicate as one on the lending pallet's storage.
  abbrev pub OnLedger : State Store → Type 0
  OnLedger s = P s.ledger

  moved-OnLedger :
      (s : State Store) (o : Outcome E Store (Unit {0}))
      → Ends P o
      → Ends OnLedger (elim o as (λ _. Outcome Error (State Store) (Unit {0})) [
        | ok _ ledger ↦ ok tt (record s { ledger = ledger })
        | err _ ledger ↦ err transfer_failed (record s { ledger = ledger })
        | panic ↦ panic
      ])
  moved-OnLedger s (ok _ l) h = h
  moved-OnLedger s (err _ l) h = h
  moved-OnLedger s panic h = tt

  move_asset-OnLedger : (from id to amount : ℕ) → Keeps OnLedger (move_asset t from id to amount)
  unfolding move_asset
  move_asset-OnLedger from id to amount = record {
    at = λ s h.
        moved-OnLedger s (t.multi_asset.transfer from id to amount s.ledger)
          ((transfers from id to amount).at s.ledger h);
  }

  leave_supply-OnLedger : (id who : ℕ) → Keeps OnLedger (leave_supply_set t id who)
  unfolding leave_supply_set
  leave_supply-OnLedger id who = record { at = λ s h. h }

  leave_debt-OnLedger : (id who : ℕ) → Keeps OnLedger (leave_debt_set t id who)
  unfolding leave_debt_set
  leave_debt-OnLedger id who = record { at = λ s h. h }

  join_supply-OnLedger : (id who : ℕ) → Keeps OnLedger (join_supply_set t id who)
  unfolding join_supply_set
  join_supply-OnLedger id who = record {
    at = λ s h. elim (Bool-cases (contains id (s.user_supply_set who))) [
      | inl e ↦ rw e h
      | inr e ↦ rw e h
    ];
  }

  join_debt-OnLedger : (id who : ℕ) → Keeps OnLedger (join_debt_set t id who)
  unfolding join_debt_set
  join_debt-OnLedger id who = record {
    at = λ s h. elim (Bool-cases (contains id (s.user_debt_set who))) [
      | inl e ↦ rw e h
      | inr e ↦ rw e h
    ];
  }

  on_ledger : (who : ℕ) → IsWritten t OnLedger who
  on_ledger who = record {
    pools = λ id p. record { at = λ s h. h };
    supplies = λ id e. record { at = λ s h. h };
    debts = λ id e. record { at = λ s h. h };
    leaves_supply = λ id. leave_supply-OnLedger id who;
    leaves_debt = λ id. leave_debt-OnLedger id who;
    joins_supply = λ id. join_supply-OnLedger id who;
    joins_debt = λ id. join_debt-OnLedger id who;
    events = λ e. record { at = λ s h. h };
    moves = move_asset-OnLedger;
  }

  -- Whatever transfers keep of the assets' storage, each call of the lending pallet keeps.
  pub dispatch-OnLedger : (r : Request) → Keeps OnLedger (dispatch t r)
  dispatch-OnLedger r =
      dispatch-Keeps t OnLedger (λ id p. record { at = λ s h. h }) r (λ who _. on_ledger who)

  put_pool-OnLedger : (id : ℕ) (pool : Pool) → Keeps OnLedger (put_pool id pool)
  put_pool-OnLedger id pool = record { at = λ s h. h }

  init_pool_at-OnLedger : (id : ℕ) (c : Bool) → Keeps OnLedger (init_pool_at t id c)
  unfolding init_pool_at
  init_pool_at-OnLedger id c = search (keeps_rules, put_pool-OnLedger) depth 20

  pub genesis-OnLedger : (pools : List ℕ) → Keeps OnLedger (genesis t pools)
  unfolding genesis
  genesis-OnLedger [] = search keeps_rules
  genesis-OnLedger (id ∷ pools) =
      Keeps-then _ _ (init_pool_at-OnLedger id true) (genesis-OnLedger pools)
