-- ===== src/Lending/Sets/Debts.antt =====
-- pallets/lending/src/lib.rs: the sets of borrowed assets through each function that writes them
-- or the entries.
use konomi_node.Base.{
  List, ℕ, ◌≡◌, ◌≢◌, ◌⊎◌, inl, inr, true, false, some, refl, arith, contains, Distinct,
  contains-push, contains-retain_ne, push-Distinct, retain_ne-Distinct, add_word, sub_word,
  u128_size, is_some, Option-cases, Bool-cases, ==_ne, update₂, ◌==◌, Post-or_panic, is_none_some,
  raised_ne_zero, Post, succeeds,
}
use konomi_node.Lending.State.{Event, State, Config, Pool, UserDebt}
use konomi_node.Lending.Accounts.{
  store_debt, update_user_debt, update_found_debt, accrue_found_debt, with_interest,
  accrue_debt_with_interest, join_debt_set,
}
use konomi_node.Lending.Sets.{SetsAgree}

-- The sets agree with the entries but for one borrowed asset and user, which has an entry.
pub record AgreesBut {Store : Type 0} (id account : ℕ) (s : State Store) : Type 0 where
  pub others :
      (asset user : ℕ)
      → (asset ≢ id) ⊎ (user ≢ account)
      → contains asset (s.user_debt_set user) ≡ is_some (s.user_debts asset user)
  pub entry : is_some (s.user_debts id account) ≡ true
  pub supplies :
      (asset user : ℕ)
      → contains asset (s.user_supply_set user) ≡ is_some (s.user_supplies asset user)
  pub debt_distinct : (user : ℕ) → Distinct (s.user_debt_set user)
  pub supply_distinct : (user : ℕ) → Distinct (s.user_supply_set user)

-- An event changes nothing of that.
pub unlogged :
    {Store : Type 0} {id account : ℕ} {s : State Store} {log : List Event}
    → AgreesBut id account s
    → AgreesBut id account (record s { events = log })
unlogged a = record {
  others = a.others;
  entry = a.entry;
  supplies = a.supplies;
  supply_distinct = a.supply_distinct;
  debt_distinct = a.debt_distinct;
}

module _ {E Store : Type 0} (t : Config E Store) (pool : Pool) (id account : ℕ)
    (s : State Store) where
  pub join-SetsAgree :
      AgreesBut id account s → Post (λ _ u. SetsAgree u) SetsAgree (join_debt_set t id account s)
  unfolding join_debt_set
  join-SetsAgree a = succeeds (record {
    debts = λ asset user.
        ground
          (arith, a.others asset user, a.entry, contains-push id asset (s.user_debt_set account));
    supplies = λ asset user. ground (arith, a.supplies asset user);
    debt_distinct =
        λ user. ground (arith, a.debt_distinct user, push-Distinct id (s.user_debt_set account));
    supply_distinct = λ user. ground (arith, a.supply_distinct user);
  })

  pub accrue-SetsAgree :
      SetsAgree s
      → Post (λ _ u. SetsAgree u) SetsAgree (accrue_debt_with_interest t pool id account s)
  unfolding accrue_debt_with_interest
  accrue-SetsAgree a = elim (Option-cases (s.user_debts id account)) [
    | inl e ↦ rw (e, accrue_found_debt) (succeeds a)
    | inr (entry, e) ↦
        rw (e, accrue_found_debt)
          (Post-or_panic (with_interest t pool.total_debt_index entry.index entry.amount) _ s
            λ accrued _. succeeds (record {
              debts = λ asset user. ground (arith, a.debts asset user);
              supplies = a.supplies;
              debt_distinct = a.debt_distinct;
              supply_distinct = a.supply_distinct;
            }))
  ]

  -- An entry that is written anew leaves the sets in agreement but for itself.
  written-AgreesBut :
      (entry : UserDebt)
      → SetsAgree s
      → AgreesBut id account
          (record s { user_debts = update₂ s.user_debts id account (some entry) })
  written-AgreesBut entry a = record {
    others = λ asset user h. ground (arith, a.debts asset user);
    entry = ground arith;
    supplies = a.supplies;
    debt_distinct = a.debt_distinct;
    supply_distinct = a.supply_distinct;
  }

  stored-SetsAgree :
      (total : ℕ)
      → SetsAgree s
      → is_some (s.user_debts id account) ≡ true
      → Post
          (λ _ u. SetsAgree u × (u.user_supplies ≡ s.user_supplies))
          SetsAgree
          (store_debt t pool id account total s)
  unfolding store_debt
  stored-SetsAgree total a some_entry = elim (Bool-cases (total == 0)) [
    | inl e ↦
        rw (e, store_debt)
          (succeeds (
            record {
              debts = λ asset user. ground (
                arith,
                a.debts asset user,
                contains-retain_ne id asset (s.user_debt_set account),
              );
              supplies = a.supplies;
              debt_distinct = λ user.
                  ground
                    (arith, a.debt_distinct user, retain_ne-Distinct id (s.user_debt_set account));
              supply_distinct = a.supply_distinct;
            },
            refl,
          ))
    | inr e ↦
        rw (e, store_debt)
          (succeeds (
            record {
              debts = λ asset user. ground (arith, a.debts asset user, some_entry);
              supplies = a.supplies;
              debt_distinct = a.debt_distinct;
              supply_distinct = a.supply_distinct;
            },
            refl,
          ))
  ]

  -- A lowered entry stays, or goes along with its asset in the set.
  pub lower-SetsAgree :
      (amount : ℕ)
      → SetsAgree s
      → is_some (s.user_debts id account) ≡ true
      → Post
          (λ _ u. SetsAgree u × (u.user_supplies ≡ s.user_supplies))
          SetsAgree
          (update_user_debt t pool id account amount false s)
  unfolding update_user_debt
  lower-SetsAgree amount a some_entry = elim (Option-cases (s.user_debts id account)) [
    | inl e ↦ absurd (is_none_some e some_entry)
    | inr (entry, e) ↦
        rw (e, update_found_debt)
          (Post-or_panic (with_interest t pool.total_debt_index entry.index entry.amount) _ s
            λ accrued _.
              Post-or_panic (sub_word u128_size t.checks accrued amount) _ s
                λ total _. stored-SetsAgree total a some_entry)
  ]

  -- Where additions are checked, a raised entry is not zero, so it is written.
  pub raise-AgreesBut :
      t.checks ≡ true
      → (amount : ℕ) → SetsAgree s
      → amount ≢ 0
      → Post
          (λ _ u. AgreesBut id account u)
          SetsAgree
          (update_user_debt t pool id account amount true s)
  unfolding update_user_debt store_debt
  raise-AgreesBut checked amount a nz = elim (Option-cases (s.user_debts id account)) [
    | inl e ↦ rw (e, update_found_debt) (rw (==_ne amount 0 nz) (succeeds (written-AgreesBut _ a)))
    | inr (entry, e) ↦
        rw (e, update_found_debt)
          (Post-or_panic (with_interest t pool.total_debt_index entry.index entry.amount) _ s
            λ accrued _. Post-or_panic (add_word u128_size t.checks accrued amount) _ s λ total h.
              rw
                (
                  ==_ne total 0 (raised_ne_zero t.checks accrued amount total checked nz h),
                  store_debt,
                )
                (succeeds (written-AgreesBut _ a)))
  ]
