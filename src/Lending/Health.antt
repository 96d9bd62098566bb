-- ===== src/Lending/Health.antt =====
-- pallets/lending/src/lib.rs: the guards on the value of what a user supplied and borrowed.
use konomi_node.Base.{
  add_word_exact, sub_word_exact, subst, min, Bool-cases, inl, inr, ℕ, ◌+◌, ◌≤◌, ◌≡◌, refl, arith,
  true, not, some, Origin, Post, succeeds, refuses, panics, Post-ok_or, Post-or_panic, Post-ensure,
  Post-map, Post->>=, Post-or_panic_last, ltb, leb, leb→le, if◌then◌else◌, sub_word, add_word,
  u128_size, Outcome, ok, err, panic,
}
use konomi_node.Lending.State.{
  State, Config, Pool, UserSupply, bad_origin, user_no_supply, pool_not_exist,
  below_liquidation_threshold, not_enough_liquidity,
}
use konomi_node.Lending.Accounts.{accrue_supply_with_interest, accrue_debt_with_interest}
use konomi_node.Lending.Interest.{accrue_interest}
use konomi_node.Lending.Info.{get_user_info}
use konomi_node.Lending.Effects.{Anything, Lent, Withdrawn, borrow-Lent, withdraw-Withdrawn}
use konomi_node.Lending.Calls.{withdraw, borrow, accrued_pool}

pub Post-Anything :
    {E S A : Type 0} {R : Type 0} (o : Outcome E S A) → R → Post (λ _ (u : S). R) Anything o
Post-Anything (ok a s) r = succeeds r
Post-Anything (err e s) r = refuses tt
Post-Anything panic r = panics

-- The end of a call, with the equation that says so.
pub ends_as : {E S A : Type 0} (o : Outcome E S A) → Post (λ a u. o ≡ ok a u) Anything o
ends_as (ok a s) = succeeds refl
ends_as (err e s) = refuses tt
ends_as panic = panics

module _ {E Store : Type 0} (t : Config E Store) where
  -- What a user of an account had in some state of a call, and what the threshold makes of a debt.
  pub record Valued (v : State Store) (user : ℕ) : Type 0 where
    pub supplied : ℕ
    pub converted : ℕ
    pub borrowed : ℕ
    pub info : get_user_info t user v ≡ some (supplied, converted, borrowed)

  abbrev pub required : State Store → ℕ → ℕ
  required v debt = t.fixed.saturating_mul_int v.liquidation_threshold debt

  -- The pool is that of the asset, with its interest accrued.
  pub record IsCurrent (s : State Store) (id : ℕ) (pool : Pool) : Type 0 where
    pub stored : Pool
    pub found : s.pools id ≡ some stored
    pub grown : accrue_interest t.fixed t.checks s.block_number stored ≡ some pool

  accrued_same :
      (id : ℕ) (s : State Store)
      → Post (λ pool u. IsCurrent s id pool × (u ≡ s)) Anything (accrued_pool t id s)
  unfolding accrued_pool
  accrued_same id s = Post-ok_or (s.pools id) pool_not_exist _ s tt λ stored found.
      Post-or_panic_last (accrue_interest t.fixed t.checks s.block_number stored) s
        λ pool grown. (record { stored = stored; found = found; grown = grown }, refl)

  abbrev pub value :
      (v : State Store) (who : ℕ) (totals : ℕ × ℕ × ℕ)
      → get_user_info t who v ≡ some totals
      → Valued v who
  value v who totals info = record {
    supplied = totals.0;
    converted = totals.1;
    borrowed = totals.2;
    info = info;
  }

  least : (have asked : ℕ) → (if ltb have asked then have else asked) ≡ min have asked
  least have asked = ground arith

  covers :
      (r c left price have asked : ℕ)
      → left + t.fixed.saturating_mul_int price (if ltb have asked then have else asked) ≡ c
      → r ≤ left
      → r + t.fixed.saturating_mul_int price (min have asked) ≤ c
  covers r c left price have asked e le = elim (Bool-cases (ltb have asked)) [
    | inl lt ↦ let m : min have asked ≡ have = ground arith in rw m (ground arith)
    | inr ge ↦ let m : min have asked ≡ asked = ground arith in rw m (ground arith)
  ]

  -- In a build with overflow checks: a borrowing that succeeds was made by a signer in a state `v`,
  -- right after the interest on the signer's debt of the asset was accrued, in which the signer's
  -- supplies, reduced by their safe factors, are worth the threshold's multiple at least of all debts
  -- and the amount; and from there to the end the pallet paid out the amount by one transfer, the
  -- signer's debt of the asset and the pool's grew by exactly it, and no supply changed.
  pub borrow-Healthy :
      (origin : Origin) (id amount : ℕ) (s : State Store)
      → t.checks ≡ true
      → Post
          (λ _ end.
            (who : ℕ) × (pool : Pool) × (v : State Store) × (has : Valued v who) × (origin.signed_by
              ≡ some who)
            × IsCurrent s id pool
            × (accrue_debt_with_interest t pool id who s ≡ ok tt v)
            × (required v
                  (has.borrowed + t.fixed.saturating_mul_int (t.oracle.get_rate id v.ledger) amount)
                ≤ has.converted)
            × Lent t pool id who amount v end)
          Anything
          (borrow t origin id amount s)
  unfolding borrow
  borrow-Healthy origin id amount s checked =
      Post-ok_or origin.signed_by bad_origin _ s tt λ account signed.
        Post->>= (accrued_pool t id) _ s (accrued_same id s) λ pool u (current, same).
          Post-or_panic (sub_word u128_size t.checks pool.supply pool.debt) _ u λ cash _.
            Post-ensure (not (ltb cash amount)) not_enough_liquidity _ u tt λ _.
              Post->>= (accrue_debt_with_interest t pool id account) _ u (ends_as _) λ _ v e.
                Post-or_panic (get_user_info t account v) _ v λ totals info.
                  Post-or_panic
                    (add_word u128_size t.checks totals.2
                      (t.fixed.saturating_mul_int (t.oracle.get_rate id v.ledger) amount))
                    _ v
                    λ debt sum.
                      Post-ensure (leb (required v debt) totals.1) below_liquidation_threshold _ v
                        tt
                        λ enough.
                          let exact = add_word_exact checked totals.2 _ sum in
                          Post-map
                            (λ _ _ effects. (
                              account,
                              pool,
                              v,
                              value v account totals info,
                              signed,
                              current,
                              subst (λ w. accrue_debt_with_interest t pool id account w ≡ ok tt v)
                                  same e,
                              leb→le _ _
                                  (subst (λ d. leb (required v d) totals.1 ≡ true) exact enough),
                              effects,
                            ))
                            (λ _ h. h) (borrow-Lent t checked pool id account amount v)

  -- In a build with overflow checks: a withdrawal that succeeds was made by a signer in a state `v`,
  -- right after the interest on the signer's supply of the asset was accrued, of an amount that is at
  -- most what was asked for and what the signer has; without its value, reduced by the safe factor,
  -- the signer's supplies are worth the threshold's multiple of all debts at least; and from there to
  -- the end the pallet paid out that amount by one transfer, the signer's supply of the asset and the
  -- pool's fell by exactly it, and no debt changed.
  pub withdraw-Healthy :
      (origin : Origin) (id requested : ℕ) (s : State Store)
      → t.checks ≡ true
      → Post
          (λ _ end.
            (who : ℕ) × (pool : Pool) × (v : State Store) × (has : Valued v who)
            × (entry : UserSupply) × (price : ℕ) × (origin.signed_by ≡ some who)
            × IsCurrent s id pool
            × (accrue_supply_with_interest t pool id who s ≡ ok tt v)
            × (v.user_supplies id who ≡ some entry)
            × (t.fixed.mul (t.oracle.get_rate id v.ledger) pool.safe_factor ≡ some price)
            × (required v has.borrowed
                  + t.fixed.saturating_mul_int price (min entry.amount requested)
                ≤ has.converted)
            × Withdrawn t pool id who (min entry.amount requested) v end)
          Anything
          (withdraw t origin id requested s)
  unfolding withdraw
  withdraw-Healthy origin id requested s checked =
      Post-ok_or origin.signed_by bad_origin _ s tt λ account signed.
        Post->>= (accrued_pool t id) _ s (accrued_same id s) λ pool u (current, same).
          Post->>= (accrue_supply_with_interest t pool id account) _ u (ends_as _) λ _ v e.
            Post-ok_or (v.user_supplies id account) user_no_supply _ v tt λ entry has.
              Post-or_panic (get_user_info t account v) _ v λ totals info.
                Post-or_panic (t.fixed.mul (t.oracle.get_rate id v.ledger) pool.safe_factor) _ v
                  λ price priced.
                    let n = if ltb entry.amount requested then entry.amount else requested in
                    Post-or_panic
                      (sub_word u128_size t.checks totals.1 (t.fixed.saturating_mul_int price n)) _
                      v
                      λ left taken.
                        Post-ensure (leb (required v totals.2) left) below_liquidation_threshold _ v
                          tt
                          λ enough.
                            Post-or_panic (sub_word u128_size t.checks pool.supply pool.debt) _ v
                              λ cash _.
                                Post-ensure (not (ltb cash n)) not_enough_liquidity _ v tt λ _.
                                  Post-map
                                    (λ _ end effects. (
                                      account,
                                      pool,
                                      v,
                                      value v account totals info,
                                      entry,
                                      price,
                                      signed,
                                      current,
                                      subst
                                          (λ w.
                                            accrue_supply_with_interest t pool id account w
                                            ≡ ok tt v)
                                          same e,
                                      has,
                                      priced,
                                      covers (required v totals.2) totals.1 left price entry.amount
                                          requested (sub_word_exact checked totals.1 _ taken)
                                          (leb→le _ _ enough),
                                      subst (λ m. Withdrawn t pool id account m v end)
                                          (least entry.amount requested) effects,
                                    ))
                                    (λ _ h. h)
                                    (withdraw-Withdrawn t checked pool id account n v entry has)
