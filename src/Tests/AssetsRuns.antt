-- ===== src/Tests/AssetsRuns.antt =====
-- Runs of the assets pallet, and its theorems at concrete states.
use konomi_node.Base.{
  ℕ, ◌≡◌, ◌*◌, ◌^◌, refl, true, false, List, [], ◌∷◌, some, arith, after, Origin, add_word,
  sub_word,
}
use konomi_node.Traits.{IsMultiAsset}
use konomi_node.Assets.State.{State}
use konomi_node.Assets.Calls.{
  issue_to, transfer, genesis, genesis_asset, put_price, transfers, dispatch, balance,
}
use konomi_node.Assets.Transfer.{multi_asset, multi_asset-IsMultiAsset}
use konomi_node.Assets.Supply.{IsBacked, issue_to-IsBacked, dispatch-IsBacked}
use konomi_node.Tests.Fixed.{decimals}

abbrev signed : ℕ → Origin
signed who = record { signed_by = some who; is_root = false; is_none = false }

-- The storage before any asset was issued; account 2 is the owner.
abbrev pub blank : State
blank = record {
  next_asset_id = 0;
  total_supply = λ _. 0;
  balances = λ _ _. 0;
  inherent_asset = 0;
  price = λ _. 0;
  owner = 2;
  events = [];
}

abbrev pub users : List ℕ
users = 1 ∷ 2 ∷ 3 ∷ []

blank-IsBacked : IsBacked users blank
blank-IsBacked = record {
  backed = λ _. refl;
  elsewhere = λ _ _ _. refl;
  fits = λ _. omega arith;
  unused = λ _ _. refl;
}

-- Account 1 issued a million units of asset 0.
abbrev funded : State
funded = after blank (issue_to true 1 1_000_000 blank)

funded-IsBacked : IsBacked users funded
funded-IsBacked =
    issue_to-IsBacked users (refl, (refl, (refl, tt))) true 1 1_000_000 blank refl (omega arith)
      (omega arith) blank-IsBacked

-- The genesis of the mock runtime gives half a million units to the owner.
genesis_balances :
    let s =
      after blank (genesis true decimals ((1, 1_000_000, 100) ∷ (1, 900_000, 60) ∷ []) blank) in
    (balance 0 1 s ≡ 500_000) × (balance 1 2 s ≡ 500_000) × (s.price 1 ≡ 60 * 10 ^ 18)
unfolding genesis genesis_asset put_price transfer issue_to add_word sub_word
genesis_balances = (refl, refl, refl)

dispatch-IsBacked_example :
    IsBacked users (after funded (dispatch true (transfers (signed 1) 0 3 250) funded))
dispatch-IsBacked_example =
    dispatch-IsBacked users (refl, (refl, (refl, tt))) true (transfers (signed 1) 0 3 250) funded
      ((λ who e. ground arith), refl) funded-IsBacked

multi_asset-IsMultiAsset_example : IsMultiAsset (multi_asset true) balance
multi_asset-IsMultiAsset_example = multi_asset-IsMultiAsset true
