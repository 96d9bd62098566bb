-- ===== src/Lending/Effects.antt =====
-- pallets/lending/src/lib.rs: what `withdraw` and `borrow` write once their guards have passed.
use konomi_node.Base.{
  ℕ, ◌+◌, ◌≡◌, refl, sym, ap, ◌∙◌, Bool, true, false, Option, none, some, ok, err, panic, Outcome,
  arith, inl, inr, Option-cases, Bool-cases, or_panic, ◌>>=◌, ◌>>◌, add_word, sub_word, u128_size,
  ◌==◌, contains, if◌then◌else◌, Post, succeeds, refuses, panics, Post->>=, Post-or_panic, Post-map,
  update, ensure, leb, add_word_exact, sub_word_exact,
}
use konomi_node.Lending.State.{
  State, Config, Error, Pool, UserSupply, UserDebt, withdrawn, borrowed, put_pool, deposit_event,
  transfer_failed,
}
use konomi_node.Lending.Interest.{update_pool_supply, update_pool_debt}
use konomi_node.Lending.Accounts.{
  update_user_supply, update_user_debt, update_found_supply, update_found_debt, store_supply,
  store_debt, with_interest, leave_supply_set, leave_debt_set, join_debt_set,
}
use konomi_node.Lending.Calls.{move_asset}
pub use konomi_node.Lending.Effects.Entries.{Anything, debt_entry, supply_entry, Owes, Owns}
use konomi_node.Lending.Effects.Entries.{update_debt-Raised, update_supply-Lowered}
mod Entries

lent_pool :
    {checks : Bool}
    → checks ≡ true
    → (p : Pool) (amount : ℕ) {q : Pool} → update_pool_debt checks p amount true ≡ some q
    → q ≡ record p { debt = p.debt + amount }
unfolding update_pool_debt add_word
lent_pool checked p amount h = ground arith

left_pool :
    {checks : Bool}
    → checks ≡ true
    → (p : Pool) (amount : ℕ) {q : Pool} → update_pool_supply checks p amount false ≡ some q
    → (left : ℕ) × (left + amount ≡ p.supply) × (q ≡ record p { supply = left })
unfolding update_pool_supply sub_word
left_pool checked p amount {q = q} h = (q.supply, ground arith, ground arith)

module _ {E Store : Type 0} (t : Config E Store) where
  -- From `v` to `u` the pallet paid `amount` to the user by one transfer, the user's debt of the
  -- asset and the pool's grew by it, and no supply was written.
  pub record Lent (pool : Pool) (id who amount : ℕ) (v u : State Store) : Type 0 where
    pub owed : ℕ
    pub owes : Owes t pool (v.user_debts id who) owed
    pub paid : t.multi_asset.transfer t.account_id id who amount v.ledger ≡ ok tt u.ledger
    pub booked : u.user_debts id who ≡ debt_entry pool (owed + amount)
    pub lent : u.pools ≡ update v.pools id (some (record pool { debt = pool.debt + amount }))
    pub supplies : u.user_supplies ≡ v.user_supplies

  -- From `v` to `u` the pallet paid `amount` to the user by one transfer, the user's supply of the
  -- asset and the pool's fell by it, and no debt was written.
  pub record Withdrawn (pool : Pool) (id who amount : ℕ) (v u : State Store) : Type 0 where
    pub left : ℕ
    pub pool_left : ℕ
    pub owns : Owns t pool (v.user_supplies id who) (left + amount)
    pub paid : t.multi_asset.transfer t.account_id id who amount v.ledger ≡ ok tt u.ledger
    pub booked : u.user_supplies id who ≡ supply_entry pool left
    pub total : pool_left + amount ≡ pool.supply
    pub pools : u.pools ≡ update v.pools id (some (record pool { supply = pool_left }))
    pub debts : u.user_debts ≡ v.user_debts

  -- A transfer that succeeds writes the assets only.
  abbrev Moved : (from id to amount : ℕ) (v w : State Store) → Type 0
  Moved from id to amount v w =
      (t.multi_asset.transfer from id to amount v.ledger ≡ ok tt w.ledger)
      × (w.pools ≡ v.pools)
      × (w.user_supplies ≡ v.user_supplies)
      × (w.user_debts ≡ v.user_debts)

  moved_ends :
      (v : State Store) (o : Outcome E Store (Unit {0}))
      → Post
          (λ (_ : Unit {0}) w.
            (o ≡ ok tt w.ledger)
            × (w.pools ≡ v.pools)
            × (w.user_supplies ≡ v.user_supplies)
            × (w.user_debts ≡ v.user_debts))
          Anything
          (elim o as (λ _. Outcome Error (State Store) (Unit {0})) [
            | ok _ ledger ↦ ok tt (record v { ledger = ledger })
            | err _ ledger ↦ err transfer_failed (record v { ledger = ledger })
            | panic ↦ panic
          ])
  moved_ends v (ok tt l) = succeeds (refl, refl, refl, refl)
  moved_ends v (err _ l) = refuses tt
  moved_ends v panic = panics

  move_asset-Moved :
      (from id to amount : ℕ) (v : State Store)
      → Post (λ _ w. Moved from id to amount v w) Anything (move_asset t from id to amount v)
  unfolding move_asset
  move_asset-Moved from id to amount v =
      moved_ends v (t.multi_asset.transfer from id to amount v.ledger)

  joined_debt :
      (id who : ℕ) (x : State Store)
      → Post
          (λ _ y.
            (y.user_debts ≡ x.user_debts)
            × (y.user_supplies ≡ x.user_supplies)
            × (y.ledger ≡ x.ledger)
            × (y.pools ≡ x.pools))
          Anything
          (join_debt_set t id who x)
  unfolding join_debt_set
  joined_debt id who x = elim (Bool-cases (contains id (x.user_debt_set who))) [
    | inl e ↦ rw (e, join_debt_set) (succeeds (refl, refl, refl, refl))
    | inr e ↦ rw (e, join_debt_set) (succeeds (refl, refl, refl, refl))
  ]

  module _ (checked : t.checks ≡ true) (pool : Pool) (id who amount : ℕ) (v : State Store) where
    pub borrow-Lent :
        Post
          (λ _ u. Lent pool id who amount v u)
          Anything
          ((do
            move_asset t t.account_id id who amount
            update_user_debt t pool id who amount true
            pool' ← or_panic (update_pool_debt t.checks pool amount true)
            deposit_event (borrowed id who amount)
            join_debt_set t id who
            put_pool id pool')
            v)
    borrow-Lent =
        Post->>= (move_asset t t.account_id id who amount) _ v
          (move_asset-Moved t.account_id id who amount v)
          λ _ w (paid, pools, supplies, debts).
            Post->>= (update_user_debt t pool id who amount true) _ w
              (update_debt-Raised t checked pool id who w amount)
              λ _ x r. Post-or_panic (update_pool_debt t.checks pool amount true) _ x λ pool' g.
                Post->>= (join_debt_set t id who) _ _ (joined_debt id who _) λ _ y (a, b, c, d).
                  succeeds (record {
                    owed = r.owed;
                    owes = rw (← debts) r.owes;
                    paid = rw (c, r.ledger) paid;
                    booked = rw a r.booked;
                    lent = rw (d, r.pools, pools, lent_pool checked pool amount g) refl;
                    supplies = b ∙ r.supplies ∙ supplies;
                  })

    pub withdraw-Withdrawn :
        (e : UserSupply)
        → v.user_supplies id who ≡ some e
        → Post
            (λ _ u. Withdrawn pool id who amount v u)
            Anything
            ((do
              move_asset t t.account_id id who amount
              update_user_supply t pool id who amount false
              pool' ← or_panic (update_pool_supply t.checks pool amount false)
              deposit_event (withdrawn id who amount)
              put_pool id pool')
              v)
    withdraw-Withdrawn entry found =
        Post->>= (move_asset t t.account_id id who amount) _ v
          (move_asset-Moved t.account_id id who amount v)
          λ _ w (paid, pools, supplies, debts).
            Post->>= (update_user_supply t pool id who amount false) _ w
              (update_supply-Lowered t checked pool id who w amount entry (rw supplies found))
              λ _ x r. Post-or_panic (update_pool_supply t.checks pool amount false) _ x λ pool' g.
                let (pool_left, total, same) = left_pool checked pool amount g in
                succeeds (record {
                  left = r.left;
                  pool_left = pool_left;
                  owns = rw (← supplies) r.owns;
                  paid = paid ∙ ap (ok tt) (sym r.ledger);
                  booked = r.booked;
                  total = total;
                  pools =
                      ap (λ f. update f id (some pool')) (r.pools ∙ pools)
                      ∙ ap (λ q. update v.pools id (some q)) same;
                  debts = r.debts ∙ debts;
                })
