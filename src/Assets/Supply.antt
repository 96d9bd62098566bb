-- ===== src/Assets/Supply.antt =====
-- pallets/assets/src/lib.rs: the total supply of an asset is what its holders hold.
use konomi_node.Base.{
  ℕ, ◌+◌, ◌≤◌, ◌<◌, ◌≡◌, Bool, true, false, List, some, arith, Origin, after, u64_size, u128_size,
  ◌==◌, if◌then◌else◌, contains, Distinct, sum_by, sum_by-update, sum_by-update₂, add-le-sum_by,
  le-sum_by, Option-cases, subst, sym, after-ignore_result, ok_or, ensure, inl, inr, update₂,
  Bool-cases, ◌-◌,
}
use konomi_node.Assets.State.{State}
use konomi_node.Assets.Transfer.{transfer_cases}
use konomi_node.Assets.Lifecycle.{issue_to_creates, destroy_cases}
use konomi_node.Assets.Calls.{
  Request, issues, destroys, transfers, sets_inherent, sets_price, dispatch, issue, issue_to,
  transfer, destroy, transfer_asset, set_inherent_asset, set_price, put_price,
}

module _ (accounts : List ℕ) where
  -- The supply of every asset is the sum over `accounts`, which hold all of it, and fits the
  -- word; identifiers that were not given out yet are unused.
  pub record IsBacked (s : State) : Type 0 where
    pub backed : (id : ℕ) → sum_by (s.balances id) accounts ≡ s.total_supply id
    pub elsewhere : (id who : ℕ) → contains who accounts ≡ false → s.balances id who ≡ 0
    pub fits : (id : ℕ) → s.total_supply id < u128_size
    pub unused : (id : ℕ) → s.next_asset_id ≤ id → s.total_supply id ≡ 0

  -- What one written balance does to the sums of all assets.
  put_balance-sum :
      (b : ℕ → ℕ → ℕ) (id who v j : ℕ)
      → Distinct accounts
      → contains who accounts ≡ true
      → sum_by (update₂ b id who v j) accounts + (if id == j then b j who else 0)
        ≡ sum_by (b j) accounts + (if id == j then v else 0)
  put_balance-sum b id who v j d h =
      ground (arith, sum_by-update₂ b id who v j accounts, sum_by-update (b j) who v accounts d h)

  module _ (distinct : Distinct accounts) where
    pub transfer-IsBacked :
        (checks : Bool) (from id to amount : ℕ) (s : State)
        → contains from accounts ≡ true
        → contains to accounts ≡ true
        → IsBacked s
        → IsBacked (after s (transfer checks from id to amount s))
    transfer-IsBacked checks from id to amount s hf ht b =
        transfer_cases checks from id to amount s (λ o. IsBacked (after s o))
          (omega (arith, b.backed id, b.fits id, le-sum_by (s.balances id) from accounts hf))
          (λ ne. omega (
            arith,
            b.backed id,
            b.fits id,
            add-le-sum_by (s.balances id) from to accounts ne hf ht,
          ))
          (λ _. b) (λ _. b)
          (λ nz enough. record {
            backed = λ j. ground (
              arith,
              b.backed j,
              put_balance-sum s.balances id from (s.balances id from - amount) j distinct hf,
              put_balance-sum (update₂ s.balances id from (s.balances id from - amount)) id to
                  (update₂ s.balances id from (s.balances id from - amount) id to + amount) j
                  distinct ht,
            );
            elsewhere = λ j who out. ground (arith, b.elsewhere j who out);
            fits = b.fits;
            unused = b.unused;
          })

    -- A new asset: the identifier is not in use, so nobody holds any of it.
    pub issue_to-IsBacked :
        (checks : Bool) (account total : ℕ) (s : State)
        → contains account accounts ≡ true
        → total < u128_size
        → s.next_asset_id + 1 < u64_size
        → IsBacked s
        → IsBacked (after s (issue_to checks account total s))
    issue_to-IsBacked checks account total s h small room b =
        let none_issued : s.total_supply s.next_asset_id ≡ 0 =
          b.unused s.next_asset_id (omega arith) in
        let none_held : s.balances s.next_asset_id account ≡ 0 = omega (
          arith,
          b.backed s.next_asset_id,
          le-sum_by (s.balances s.next_asset_id) account accounts h,
        ) in
        rw (issue_to_creates checks account total s room) (record {
          backed = λ j. ground (
            arith,
            b.backed j,
            put_balance-sum s.balances s.next_asset_id account total j distinct h,
          );
          elsewhere = λ j who out. ground (arith, b.elsewhere j who out);
          fits = λ j. ground (arith, b.fits j);
          unused = λ j le. ground (arith, b.unused j);
        })

    -- Whoever destroys an asset, and whatever comes of it.
    pub destroy-IsBacked :
        (checks : Bool) (origin : Origin) (id : ℕ) (s : State)
        → ((who : ℕ) → origin.signed_by ≡ some who → contains who accounts ≡ true)
        → IsBacked s
        → IsBacked (after s (destroy checks origin id s))
    destroy-IsBacked checks origin id s h b =
        destroy_cases checks origin id s (λ o. IsBacked (after s o))
          (λ who e. omega (arith, b.backed id, le-sum_by (s.balances id) who accounts (h who e))) b
          (λ who e z. record {
            backed = λ j.
                ground
                  (arith, b.backed j, put_balance-sum s.balances id who 0 j distinct (h who e));
            elsewhere = λ j k out. ground (arith, b.elsewhere j k out);
            fits = b.fits;
            unused = b.unused;
          })
          (λ who e nz. record {
            backed = λ j.
                ground
                  (arith, b.backed j, put_balance-sum s.balances id who 0 j distinct (h who e));
            elsewhere = λ j k out. ground (arith, b.elsewhere j k out);
            fits = λ j. ground (arith, b.fits j);
            unused = λ j le. ground (arith, b.unused j le);
          })

    -- The accounts that a call names are among `accounts`, an issued amount is a balance, and the
    -- counter of assets has room.
    abbrev pub IsCovered : Request → State → Type 0
    IsCovered (issues origin total) s =
        ((who : ℕ) → origin.signed_by ≡ some who → contains who accounts ≡ true)
        × (total < u128_size)
        × (s.next_asset_id + 1 < u64_size)
    IsCovered (destroys origin id) s =
        (who : ℕ) → origin.signed_by ≡ some who → contains who accounts ≡ true
    IsCovered (transfers origin id to amount) s =
        ((who : ℕ) → origin.signed_by ≡ some who → contains who accounts ≡ true)
        × (contains to accounts ≡ true)
    IsCovered (sets_inherent origin asset) s = Unit {0}
    IsCovered (sets_price origin id price) s = Unit {0}

    -- For a list of distinct accounts that holds those that the call names, an issued amount that
    -- is a balance, and a counter of assets with room: every dispatchable call, by success, error
    -- or panic, keeps the total supply of every asset equal to the sum of the balances over those
    -- accounts, within the word, and the identifiers not yet given out unused.
    pub dispatch-IsBacked :
        (checks : Bool) (r : Request) (s : State)
        → IsCovered r s
        → IsBacked s
        → IsBacked (after s (dispatch checks r s))
    unfolding dispatch issue transfer_asset set_inherent_asset set_price put_price
    dispatch-IsBacked checks (issues origin total) s c b = elim (Option-cases origin.signed_by) [
      | inl e ↦ rw (e, dispatch, ok_or) b
      | inr (who, e) ↦ rw (e, ok_or) (issue_to-IsBacked checks who total s (c.0 who e) c.1 c.2 b)
    ]
    dispatch-IsBacked checks (destroys origin id) s c b = destroy-IsBacked checks origin id s c b
    dispatch-IsBacked checks (transfers origin id to amount) s c b =
        elim (Option-cases origin.signed_by) [
          | inl e ↦ rw (e, ok_or) b
          | inr (who, e) ↦
              rw (e, ok_or)
                (subst IsBacked (sym (after-ignore_result _ (transfer checks who id to amount) s))
                  (transfer-IsBacked checks who id to amount s (c.0 who e) c.1 b))
        ]
    dispatch-IsBacked checks (sets_inherent origin asset) s c b = record {
      backed = b.backed;
      elsewhere = b.elsewhere;
      fits = b.fits;
      unused = b.unused;
    }
    dispatch-IsBacked checks (sets_price origin id price) s c b = elim (Bool-cases origin.is_root) [
      | inl e ↦
          rw (e, ensure)
            (record {
              backed = b.backed;
              elsewhere = b.elsewhere;
              fits = b.fits;
              unused = b.unused;
            })
      | inr e ↦ rw (e, ensure) b
    ]
