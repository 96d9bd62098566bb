-- ===== src/Assets/Lifecycle.antt =====
-- pallets/assets/src/lib.rs: how an asset is issued and destroyed.
use konomi_node.Base.{
  ℕ, ◌+◌, ◌-◌, ◌≤◌, ◌<◌, ◌≡◌, ◌≢◌, Bool, ◌∷◌, some, none, arith, ok, err, Origin, Outcome, u64_size,
  add_word, sub_word, update, update₂, ℕ_discrete, Option-cases, inl, inr,
}
use konomi_node.Assets.State.{State, Error, issued, destroyed, bad_origin, zero_balance}
use konomi_node.Assets.Calls.{issue_to, destroy}

-- The state with one more asset, all of which `account` holds.
abbrev pub created : ℕ → ℕ → State → State
created account total s = record s {
  next_asset_id = s.next_asset_id + 1;
  balances = update₂ s.balances s.next_asset_id account total;
  total_supply = update s.total_supply s.next_asset_id total;
  events = issued s.next_asset_id account total ∷ s.events;
}

-- The state without what `account` held of the asset.
abbrev pub burnt : ℕ → ℕ → State → State
burnt account id s = record s {
  balances = update₂ s.balances id account 0;
  total_supply = update s.total_supply id (s.total_supply id - s.balances id account);
  events = destroyed id account (s.balances id account) ∷ s.events;
}

-- While the counter has room, a new asset takes its value.
pub issue_to_creates :
    (checks : Bool) (account total : ℕ) (s : State)
    → s.next_asset_id + 1 < u64_size
    → issue_to checks account total s ≡ ok tt (created account total s)
unfolding issue_to add_word
issue_to_creates checks account total s room = ground arith

module _ (checks : Bool) (origin : Origin) (id : ℕ) (s : State) where
  destroy_unsigned : origin.signed_by ≡ none → destroy checks origin id s ≡ err bad_origin s
  unfolding destroy
  destroy_unsigned h = ground arith

  destroy_empty :
      {who : ℕ}
      → origin.signed_by ≡ some who
      → s.balances id who ≡ 0
      → destroy checks origin id s
        ≡ err zero_balance (record s { balances = update₂ s.balances id who 0 })
  unfolding destroy
  destroy_empty h z = ground arith

  destroy_burns :
      {who : ℕ}
      → origin.signed_by ≡ some who
      → s.balances id who ≢ 0
      → s.balances id who ≤ s.total_supply id
      → destroy checks origin id s ≡ ok tt (burnt who id s)
  unfolding destroy sub_word
  destroy_burns h nz le = ground arith

  -- The three ways in which `destroy` ends while no holder has more than the supply.
  pub destroy_cases :
      (P : Outcome Error State (Unit {0}) → Type 0)
      → ((who : ℕ) → origin.signed_by ≡ some who → s.balances id who ≤ s.total_supply id)
      → P (err bad_origin s)
      → ((who : ℕ)
          → origin.signed_by ≡ some who
          → s.balances id who ≡ 0
          → P (err zero_balance (record s { balances = update₂ s.balances id who 0 })))
      → ((who : ℕ)
          → origin.signed_by ≡ some who
          → s.balances id who ≢ 0
          → P (ok tt (burnt who id s)))
      → P (destroy checks origin id s)
  destroy_cases P le pb pz po = elim (Option-cases origin.signed_by) [
    | inl e ↦ rw (destroy_unsigned e) pb
    | inr (who, e) ↦ elim (ℕ_discrete (s.balances id who) 0) [
      | yes z ↦ rw (destroy_empty e z) (pz who e z)
      | no nz ↦ rw (destroy_burns e nz (le who e)) (po who e nz)
    ]
  ]
