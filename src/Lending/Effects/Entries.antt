-- ===== src/Lending/Effects/Entries.antt =====
-- pallets/lending/src/lib.rs: what `update_user_supply` and `update_user_debt` store.
use konomi_node.Base.{
  ℕ, ◌+◌, ◌≡◌, refl, true, false, Option, none, some, arith, inl, inr, Option-cases, Bool-cases,
  add_word, sub_word, u128_size, ◌==◌, if◌then◌else◌, Post, succeeds, Post-or_panic, Post-map,
  add_word_exact, sub_word_exact,
}
use konomi_node.Lending.State.{State, Config, Pool, UserSupply, UserDebt}
use konomi_node.Lending.Accounts.{
  update_user_supply, update_user_debt, update_found_supply, update_found_debt, store_supply,
  store_debt, with_interest, leave_supply_set, leave_debt_set,
}

-- Nothing is asked of where a call ends.
abbrev pub Anything : {S : Type 0} → S → Type 0
Anything s = Unit {0}

-- What is stored of an amount.
abbrev pub debt_entry : Pool → ℕ → Option UserDebt
debt_entry pool n =
    if n == 0 then none else some (record { amount = n; index = pool.total_debt_index })

abbrev pub supply_entry : Pool → ℕ → Option UserSupply
supply_entry pool n =
    if n == 0 then none else some (record { amount = n; index = pool.total_supply_index })

module _ {E Store : Type 0} (t : Config E Store) where
  -- The amount of an entry with its interest.
  abbrev pub Owes : Pool → Option UserDebt → ℕ → Type 0
  Owes pool none n = n ≡ 0
  Owes pool (some e) n = with_interest t pool.total_debt_index e.index e.amount ≡ some n

  abbrev pub Owns : Pool → Option UserSupply → ℕ → Type 0
  Owns pool none n = n ≡ 0
  Owns pool (some e) n = with_interest t pool.total_supply_index e.index e.amount ≡ some n

  module _ (checked : t.checks ≡ true) (pool : Pool) (id who : ℕ) (w : State Store) where
    -- What the entry's update leaves.
    pub record Raised (amount : ℕ) (x : State Store) : Type 0 where
      pub owed : ℕ
      pub owes : Owes pool (w.user_debts id who) owed
      pub booked : x.user_debts id who ≡ debt_entry pool (owed + amount)
      pub ledger : x.ledger ≡ w.ledger
      pub pools : x.pools ≡ w.pools
      pub supplies : x.user_supplies ≡ w.user_supplies

    pub record Lowered (amount : ℕ) (x : State Store) : Type 0 where
      pub left : ℕ
      pub owns : Owns pool (w.user_supplies id who) (left + amount)
      pub booked : x.user_supplies id who ≡ supply_entry pool left
      pub ledger : x.ledger ≡ w.ledger
      pub pools : x.pools ≡ w.pools
      pub debts : x.user_debts ≡ w.user_debts

    stored_debt :
        (n : ℕ)
        → Post
            (λ _ x.
              (x.user_debts id who ≡ debt_entry pool n)
              × (x.ledger ≡ w.ledger)
              × (x.pools ≡ w.pools)
              × (x.user_supplies ≡ w.user_supplies))
            Anything
            (store_debt t pool id who n w)
    unfolding store_debt leave_debt_set
    stored_debt n = elim (Bool-cases (n == 0)) [
      | inl e ↦ rw (e, store_debt) (succeeds (ground arith, refl, refl, refl))
      | inr e ↦ rw (e, store_debt) (succeeds (ground arith, refl, refl, refl))
    ]

    stored_supply :
        (n : ℕ)
        → Post
            (λ _ x.
              (x.user_supplies id who ≡ supply_entry pool n)
              × (x.ledger ≡ w.ledger)
              × (x.pools ≡ w.pools)
              × (x.user_debts ≡ w.user_debts))
            Anything
            (store_supply t pool id who n w)
    unfolding store_supply leave_supply_set
    stored_supply n = elim (Bool-cases (n == 0)) [
      | inl e ↦ rw (e, store_supply) (succeeds (ground arith, refl, refl, refl))
      | inr e ↦ rw (e, store_supply) (succeeds (ground arith, refl, refl, refl))
    ]

    -- The first entry of a user in an asset.
    opened_debt :
        (amount : ℕ)
        → w.user_debts id who ≡ none
        → Post
            (λ _ x. Raised amount x)
            Anything
            (update_found_debt t pool id who amount true none w)
    unfolding update_found_debt
    opened_debt amount e = elim (Bool-cases (amount == 0)) [
      | inl z ↦
          rw (z, update_found_debt)
            (succeeds (record {
              owed = 0;
              owes = rw e refl;
              booked = ground arith;
              ledger = refl;
              pools = refl;
              supplies = refl;
            }))
      | inr z ↦
          rw (z, update_found_debt)
            (succeeds (record {
              owed = 0;
              owes = rw e refl;
              booked = ground arith;
              ledger = refl;
              pools = refl;
              supplies = refl;
            }))
    ]

    grown_debt :
        (amount : ℕ) (e : UserDebt)
        → w.user_debts id who ≡ some e
        → Post
            (λ _ x. Raised amount x)
            Anything
            (update_found_debt t pool id who amount true (some e) w)
    unfolding update_found_debt
    grown_debt amount e found = Post-or_panic _ _ w λ owed grown.
        Post-or_panic (add_word u128_size t.checks owed amount) _ w λ total sum.
          Post-map
            (λ _ x (booked, ledger, pools, supplies). record {
              owed = owed;
              owes = rw found grown;
              booked = rw (← add_word_exact checked owed amount sum) booked;
              ledger = ledger;
              pools = pools;
              supplies = supplies;
            })
            (λ _ h. h) (stored_debt total)

    pub update_debt-Raised :
        (amount : ℕ)
        → Post (λ _ x. Raised amount x) Anything (update_user_debt t pool id who amount true w)
    unfolding update_user_debt
    update_debt-Raised amount = elim (Option-cases (w.user_debts id who)) [
      | inl e ↦ rw (e, update_user_debt) (opened_debt amount e)
      | inr (entry, e) ↦ rw (e, update_user_debt) (grown_debt amount entry e)
    ]

    pub update_supply-Lowered :
        (amount : ℕ) (e : UserSupply)
        → w.user_supplies id who ≡ some e
        → Post (λ _ x. Lowered amount x) Anything (update_user_supply t pool id who amount false w)
    unfolding update_user_supply update_found_supply
    update_supply-Lowered amount e found =
        rw (found, update_user_supply)
          (Post-or_panic _ _ w λ had grown.
            Post-or_panic (sub_word u128_size t.checks had amount) _ w λ left rest.
              Post-map
                (λ _ x (booked, ledger, pools, debts). record {
                  left = left;
                  owns = rw (found, sub_word_exact checked had amount rest) grown;
                  booked = booked;
                  ledger = ledger;
                  pools = pools;
                  debts = debts;
                })
                (λ _ h. h) (stored_supply left))
