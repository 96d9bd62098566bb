-- ===== src/Swap/SharesKept.antt =====
-- pallets/swap/src/lib.rs: adding and removing liquidity keep the totals.
use konomi_node.Base.{
  add_word_exact, sub_word_exact, ℕ, ◌+◌, ◌≡◌, refl, ap, true, arith, List, contains, Distinct,
  le-sum_by, update, update₂, Post, succeeds, Post->>=, Post-or_panic, add_word, sub_word, mul_word,
  div_word, u128_size, inl, inr, Bool-cases, ◌==◌, if◌then◌else◌,
}
use konomi_node.Swap.State.{Exchange, Config, transfer}
use konomi_node.Swap.Exchange.{report_reserves}
use konomi_node.Swap.Liquidity.{
  increase_total_liquidity, decrease_total_liquidity, first_liquidity, more_liquidity,
  inject_liquidity, take_liquidity,
}
use konomi_node.Swap.Shares.{
  SumsUp, SameShares, transfer-SameShares, SameShares-trans, written-SumsUp, kept-SumsUp,
}

module _ (users : List ℕ) (distinct : Distinct users) where
  module _ (t : Config) (checked : t.checks ≡ true) (account asset : ℕ)
      (member : contains account users ≡ true) (s : Exchange) (h : SumsUp users s) where
    -- The write of `decrease_total_liquidity`, after the account's.
    decrease-SumsUp :
        (liquidity rest : ℕ) (v : Exchange)
        → SameShares s v
        → rest + liquidity ≡ s.account_liquidities asset account
        → Post
            (λ _ u. SumsUp users u)
            (SumsUp users)
            (decrease_total_liquidity t.checks asset liquidity
              (record v { account_liquidities = update₂ v.account_liquidities asset account rest }))
    unfolding decrease_total_liquidity
    decrease-SumsUp liquidity rest v same less =
        Post-or_panic (sub_word u128_size t.checks (v.total_liquidities asset) liquidity) _ _
          λ total' d.
            let less' = sub_word_exact checked (v.total_liquidities asset) liquidity d in
            let start = ap (λ f. f asset) same.totals in
            succeeds (
              written-SumsUp users distinct asset account rest total' s _ member h
                (ap (λ f. update f asset total') same.totals)
                (ap (λ f. update₂ f asset account rest) same.shares)
                (omega (arith, less, less', start)))

    -- With overflow checks, for an account among the users: removing liquidity keeps each pool's
    -- total liquidity equal to the sum of its accounts', whatever amount is removed, unless it panics.
    pub take_liquidity-SumsUp :
        (liquidity min_inherent_amount min_asset_amount : ℕ)
        → Post
            (λ _ u. SumsUp users u)
            (SumsUp users)
            (take_liquidity t account asset liquidity min_inherent_amount min_asset_amount s)
    unfolding take_liquidity report_reserves
    take_liquidity-SumsUp liquidity min_inherent_amount min_asset_amount =
        let inherent = s.assets.inherent_asset in
        let address = t.make_exchange_address inherent asset in
        let total = s.total_liquidities asset in
        Post-or_panic (mul_word u128_size t.checks (s.assets.balances inherent address) liquidity) _
          s
          λ product _. Post-or_panic (div_word product total) _ s λ inherent_amount _.
            Post-or_panic (mul_word u128_size t.checks (s.assets.balances asset address) liquidity)
              _ s
              λ product' _. Post-or_panic (div_word product' total) _ s λ asset_amount _.
                Post->>= (transfer t.checks address inherent account inherent_amount) _ s
                  (transfer-SameShares t.checks address inherent account inherent_amount s)
                  λ _ u a.
                    Post->>= (transfer t.checks address asset account asset_amount) _ u
                      (transfer-SameShares t.checks address asset account asset_amount u)
                      λ _ v b.
                        let same = SameShares-trans a b in
                        Post-or_panic
                          (sub_word u128_size t.checks (s.account_liquidities asset account)
                            liquidity)
                          _ v
                          λ rest c.
                            let w = record v {
                              account_liquidities =
                                  update₂ v.account_liquidities asset account rest;
                            } in
                            Post->>= {Q = λ _ x. SumsUp users x}
                              (decrease_total_liquidity t.checks asset liquidity)
                              (λ _. report_reserves address asset inherent) w
                              (decrease-SumsUp liquidity rest v same (
                                sub_word_exact checked (s.account_liquidities asset account)
                                  liquidity c))
                              λ _ x e. succeeds (
                                kept-SumsUp users distinct (record { totals = refl; shares = refl })
                                  e)

    -- The writes of `first_liquidity` and of `more_liquidity`, and what follows them.
    first_liquidity-SumsUp :
        (inherent address inherent_amount asset_amount : ℕ)
        → s.total_liquidities asset ≡ 0
        → Post
            (λ _ u. SumsUp users u)
            (SumsUp users)
            (first_liquidity t account asset inherent address inherent_amount asset_amount s)
    unfolding first_liquidity increase_total_liquidity
    first_liquidity-SumsUp inherent address inherent_amount asset_amount empty =
        Post->>= (transfer t.checks account inherent address inherent_amount) _ s
          (transfer-SameShares t.checks account inherent address inherent_amount s)
          λ _ u a.
            Post->>= (transfer t.checks account asset address asset_amount) _ u
              (transfer-SameShares t.checks account asset address asset_amount u)
              λ _ v b.
                let same = SameShares-trans a b in
                Post-or_panic
                  (add_word u128_size t.checks (v.total_liquidities asset) inherent_amount) _ _
                  λ total' d.
                    let more =
                      add_word_exact checked (v.total_liquidities asset) inherent_amount d in
                    let start = ap (λ f. f asset) same.totals in
                    let none_held = le-sum_by (s.account_liquidities asset) account users member in
                    succeeds (
                      written-SumsUp users distinct asset account inherent_amount total' s _ member
                        h (ap (λ f. update f asset total') same.totals)
                        (ap (λ f. update₂ f asset account inherent_amount) same.shares)
                        (omega (arith, more, start, none_held, empty, h.sums asset)))

    more_liquidity-SumsUp :
        (inherent address total inherent_amount asset_amount : ℕ)
        → Post
            (λ _ u. SumsUp users u)
            (SumsUp users)
            (more_liquidity t account asset inherent address total inherent_amount asset_amount s)
    unfolding more_liquidity increase_total_liquidity
    more_liquidity-SumsUp inherent address total inherent_amount asset_amount =
        Post->>= (transfer t.checks account inherent address inherent_amount) _ s
          (transfer-SameShares t.checks account inherent address inherent_amount s)
          λ _ u a.
            Post->>= (transfer t.checks account asset address asset_amount) _ u
              (transfer-SameShares t.checks account asset address asset_amount u)
              λ _ v b.
                let same = SameShares-trans a b in
                Post-or_panic (mul_word u128_size t.checks total inherent_amount) _ v λ product _.
                  Post-or_panic (div_word product (s.assets.balances inherent address)) _ v
                    λ minted _.
                      Post-or_panic
                        (add_word u128_size t.checks (v.account_liquidities asset account) minted) _
                        v
                        λ sum c.
                          Post-or_panic
                            (add_word u128_size t.checks (v.total_liquidities asset) minted) _ _
                            λ total' d.
                              let more =
                                add_word_exact checked (v.account_liquidities asset account) minted
                                  c in
                              let more' =
                                add_word_exact checked (v.total_liquidities asset) minted d in
                              let start = ap (λ f. f asset) same.totals in
                              let start' = ap (λ f. f asset account) same.shares in
                              succeeds (
                                written-SumsUp users distinct asset account sum total' s _ member h
                                  (ap (λ f. update f asset total') same.totals)
                                  (ap (λ f. update₂ f asset account sum) same.shares)
                                  (omega (arith, more, more', start, start')))

    -- With overflow checks, for an account among the users: adding liquidity keeps each pool's
    -- total liquidity equal to the sum of its accounts', to a new pool or to one that has some, unless it panics.
    pub inject_liquidity-SumsUp :
        (inherent_amount asset_amount min_liquidity : ℕ)
        → Post
            (λ _ u. SumsUp users u)
            (SumsUp users)
            (inject_liquidity t account asset inherent_amount asset_amount min_liquidity s)
    unfolding inject_liquidity report_reserves
    inject_liquidity-SumsUp inherent_amount asset_amount min_liquidity =
        let inherent = s.assets.inherent_asset in
        let address = t.make_exchange_address inherent asset in
        let total = s.total_liquidities asset in
        Post->>= {Q = λ _ x. SumsUp users x}
          (if total == 0
            then first_liquidity t account asset inherent address inherent_amount asset_amount
            else more_liquidity t account asset inherent address total inherent_amount asset_amount)
          _ s
          (elim (Bool-cases (total == 0)) [
            | inl e ↦ rw e (
                first_liquidity-SumsUp inherent address inherent_amount asset_amount (ground arith))
            | inr e ↦
                rw e (more_liquidity-SumsUp inherent address total inherent_amount asset_amount)
          ])
          λ _ u b. succeeds (kept-SumsUp users distinct (record { totals = refl; shares = refl }) b)
