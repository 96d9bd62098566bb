-- ===== src/Assets/Genesis.antt =====
-- pallets/assets/src/lib.rs: what the genesis build makes of its configuration.
use konomi_node.Base.{
  ℕ, ◌+◌, ◌≤◌, ◌<◌, ◌≡◌, ◌≢◌, refl, ◌∙◌, subst, Bool, List, [], ◌∷◌, ok, err, panic, Outcome,
  ignore_result, length, arith, u64_size, u128_size, sub_word, update,
}
use konomi_node.FixedPoint.{FixedPoint}
use konomi_node.Assets.State.{State, Error}
use konomi_node.Assets.Calls.{transfer, put_price, genesis_asset, genesis}
use konomi_node.Assets.Transfer.{moved, transfer_cases}
use konomi_node.Assets.Lifecycle.{created, issue_to_creates}

-- Nobody has units of an asset that was not issued.
pub record IsFresh (s : State) : Type 0 where
  pub at : (id who : ℕ) → s.next_asset_id ≤ id → s.balances id who ≡ 0

-- What a transfer of `id` does not touch.
record Aside (id : ℕ) (s v : State) : Type 0 where
  counter : v.next_asset_id ≡ s.next_asset_id
  owner : v.owner ≡ s.owner
  supplies : v.total_supply ≡ s.total_supply
  prices : v.price ≡ s.price
  others : (j k : ℕ) → (j ≢ id) → v.balances j k ≡ s.balances j k

transfer-tried :
    (checks : Bool) (from id to amount : ℕ) (s : State)
    → s.balances id from < u128_size
    → (from ≢ to → s.balances id from + s.balances id to < u128_size)
    → (v : State) × (ignore_result {F = Error} (transfer checks from id to amount) s ≡ ok tt v)
      × Aside id s v
transfer-tried checks from id to amount s one two =
    transfer_cases checks from id to amount s
      (λ o.
        (v : State) × (elim o as (λ _. Outcome Error State (Unit {0})) [
          | ok _ s' ↦ ok tt s'
          | err _ s' ↦ ok tt s'
          | panic ↦ panic
        ]
          ≡ ok tt v)
        × Aside id s v)
      one two (λ z. (s, refl, unmoved)) (λ low. (s, refl, unmoved))
      (λ nz enough. (
        moved from id to amount s,
        refl,
        record {
          counter = refl;
          owner = refl;
          supplies = refl;
          prices = refl;
          others = λ j k ne. ground arith;
        },
      ))
  where
    unmoved : Aside id s s
    unmoved = record {
      counter = refl;
      owner = refl;
      supplies = refl;
      prices = refl;
      others = λ j k ne. refl;
    }

-- The supplies of the assets are balances.
abbrev pub AreBalances : List (ℕ × ℕ × ℕ) → Type 0
AreBalances [] = Unit {0}
AreBalances ((account, amount, price) ∷ assets) = (amount < u128_size) × AreBalances assets

-- The assets of the configuration have the identifiers from `id` on, their supplies and prices.
abbrev pub AreConfigured : FixedPoint → List (ℕ × ℕ × ℕ) → ℕ → State → Type 0
AreConfigured fixed [] id u = Unit {0}
AreConfigured fixed ((account, amount, price) ∷ assets) id u =
    (u.total_supply id ≡ amount)
    × (u.price id ≡ fixed.saturating_from_integer price)
    × AreConfigured fixed assets (id + 1) u

module _ (checks : Bool) (fixed : FixedPoint) where
  -- One entry of the configuration, built.
  record Built (amount price : ℕ) (s u : State) : Type 0 where
    counter : u.next_asset_id ≡ s.next_asset_id + 1
    fresh : IsFresh u
    supply : u.total_supply s.next_asset_id ≡ amount
    rate : u.price s.next_asset_id ≡ fixed.saturating_from_integer price
    kept :
        (id : ℕ)
        → (id < s.next_asset_id)
        → (u.total_supply id ≡ s.total_supply id) × (u.price id ≡ s.price id)

  asset_builds :
      (account amount price : ℕ) (s : State)
      → IsFresh s
      → s.next_asset_id + 1 < u64_size
      → amount < u128_size
      → (u : State) × (genesis_asset checks fixed (account, amount, price) s ≡ ok tt u)
        × Built amount price s u
  unfolding genesis_asset put_price sub_word
  asset_builds account amount price s fresh room small =
      let id = s.next_asset_id in
      let c = created account amount s in
      let issued = issue_to_creates checks account amount s room in
      let empty : s.balances id s.owner ≡ 0 = fresh.at id s.owner (omega arith) in
      let (v, tried, aside) =
        transfer-tried checks account id s.owner 500000 c (ground arith)
          (λ ne. ground (arith, empty)) in
      let up : v.next_asset_id ≡ s.next_asset_id + 1 = aside.counter in
      (
        record v { price = update v.price id (fixed.saturating_from_integer price) },
        ground (arith, issued, tried, up),
        record {
          counter = up;
          fresh = record {
            at = λ j k le.
                let past : j ≢ id = λ e. omega arith in
                let old : s.balances j k ≡ 0 = fresh.at j k (omega arith) in
                rw (aside.others j k past) (ground (arith, old));
          };
          supply = rw aside.supplies (ground arith);
          rate = ground arith;
          kept = λ j lt. (rw aside.supplies (ground arith), rw aside.prices (ground arith));
        },
      )

  -- While nobody has units of an asset that was not issued, the identifiers do not run out, and
  -- the amounts are balances: the genesis build succeeds, and gives the configured assets the
  -- next identifiers, with their supplies and prices; those of earlier assets stay.
  pub genesis_lem :
      (assets : List (ℕ × ℕ × ℕ)) (s : State)
      → IsFresh s
      → s.next_asset_id + length assets < u64_size
      → AreBalances assets
      → (u : State) × (genesis checks fixed assets s ≡ ok tt u)
        × (u.next_asset_id ≡ s.next_asset_id + length assets)
        × AreConfigured fixed assets s.next_asset_id u
        × ((id : ℕ)
            → (id < s.next_asset_id)
            → (u.total_supply id ≡ s.total_supply id) × (u.price id ≡ s.price id))
  unfolding genesis
  genesis_lem [] s fresh room typed = (s, refl, omega arith, tt, λ id lt. (refl, refl))
  genesis_lem ((account, amount, price) ∷ assets) s fresh room (small, typed) =
      let (v, first, built) = asset_builds account amount price s fresh (omega arith) small in
      let up = built.counter in
      let (u, rest, count, configured, kept) =
        genesis_lem assets v built.fresh (omega arith) typed in
      let (supply, rate) = kept s.next_asset_id (omega arith) in
      (
        u,
        ground (arith, first, rest),
        omega arith,
        (
          supply ∙ built.supply,
          rate ∙ built.rate,
          subst (λ n. AreConfigured fixed assets n u) up configured,
        ),
        λ id lt.
            let (one, two) = kept id (omega arith) in
            let (one', two') = built.kept id lt in (one ∙ one', two ∙ two'),
      )
