-- ===== src/Lending/Sets/Moves.antt =====
-- pallets/lending/src/lib.rs: what the steps that the calls share do to the users' sets.
use konomi_node.Base.{
  ℕ, ◌≡◌, ◌≢◌, refl, Post, succeeds, refuses, panics, Post-ok_or, Post-or_panic_last, ok, err,
  panic, Outcome,
}
use konomi_node.Lending.State.{State, Config, Error, transfer_failed, pool_not_exist}
use konomi_node.Lending.Interest.{accrue_interest}
use konomi_node.Lending.Calls.{move_asset, accrued_pool}
use konomi_node.Lending.Sets.{SetsAgree}

-- What a move makes of a transfer's outcome.
moved-Post :
    {E Store : Type 0} (P I : State Store → Type 0) (s : State Store) (N : Type 0)
    (o : Outcome E Store (Unit {0}))
    → ((s' : Store) → o ≡ ok tt s' → N)
    → ((ledger : Store) → P (record s { ledger = ledger }))
    → ((ledger : Store) → I (record s { ledger = ledger }))
    → Post
        (λ (_ : Unit {0}) u. P u × N)
        I
        (elim o as (λ _. Outcome Error (State Store) (Unit {0})) [
          | ok _ ledger ↦ ok tt (record s { ledger = ledger })
          | err _ ledger ↦ err transfer_failed (record s { ledger = ledger })
          | panic ↦ panic
        ])
moved-Post P I s N (ok _ l) n keep left = succeeds (keep l, n l refl)
moved-Post P I s N (err _ l) n keep left = refuses (left l)
moved-Post P I s N panic n keep left = panics

module _ {Store : Type 0} where
  -- The sets do not depend on the ledger, the pools and the events.
  pub elsewhere-SetsAgree :
      {s u : State Store}
      → u.user_supplies ≡ s.user_supplies
      → u.user_debts ≡ s.user_debts
      → u.user_supply_set ≡ s.user_supply_set
      → u.user_debt_set ≡ s.user_debt_set
      → SetsAgree s
      → SetsAgree u
  elsewhere-SetsAgree a b c d agree = record {
    supplies = λ asset user. rw (a, c) (agree.supplies asset user);
    debts = λ asset user. rw (b, d) (agree.debts asset user);
    supply_distinct = λ user. rw c (agree.supply_distinct user);
    debt_distinct = λ user. rw d (agree.debt_distinct user);
  }

module _ {E Store : Type 0} (t : Config E Store) where
  pub accrued_pool-Post :
      (P : State Store → Type 0) (id : ℕ) (s : State Store)
      → P s
      → Post (λ _ u. P u) P (accrued_pool t id s)
  unfolding accrued_pool
  accrued_pool-Post P id s p = Post-ok_or (s.pools id) pool_not_exist _ s p λ stored _.
      Post-or_panic_last (accrue_interest t.fixed t.checks s.block_number stored) s λ _ _. p

module _ {E Store : Type 0} (t : Config E Store)
    (positive : (from id to amount : ℕ) (s s' : Store)
      → t.multi_asset.transfer from id to amount s ≡ ok tt s'
      → amount ≢ 0) where
  -- A predicate that does not look at the ledger holds after a move, of a positive amount.
  pub move_asset-Post :
      (P I : State Store → Type 0) (from id to amount : ℕ) (s : State Store)
      → ((ledger : Store) → P (record s { ledger = ledger }))
      → ((ledger : Store) → I (record s { ledger = ledger }))
      → Post (λ _ u. P u × (amount ≢ 0)) I (move_asset t from id to amount s)
  unfolding move_asset
  move_asset-Post P I from id to amount s keep left =
      moved-Post P I s (amount ≢ 0) (t.multi_asset.transfer from id to amount s.ledger)
        (positive from id to amount s.ledger) keep left
