-- ===== src/Lending/Cash.antt =====
-- pallets/lending/src/lib.rs: the pallet's balance of an asset beside the totals of its pool.
use konomi_node.Base.{
  ℕ, ◌+◌, ◌<◌, ◌≡◌, ◌≢◌, refl, sym, ap, ◌∙◌, Post-map, Bool, true, false, some, ok, err, panic,
  Outcome, arith, u128_size, update, Post, succeeds, refuses, Post-ok_or, Post-or_panic_last,
  add_word, sub_word,
}
use konomi_node.Traits.{IsMultiAsset, Transfers}
use konomi_node.Lending.State.{State, Config, Pool, Error, pool_not_exist, transfer_failed}
use konomi_node.Lending.Interest.{accrue_interest, update_pool_supply, update_pool_debt}
use konomi_node.Lending.Calls.{move_asset, accrued_pool}
use konomi_node.Lending.Untouched.{Untouched}

-- With checks, the new total is the exact one.
pub update_pool_supply-add :
    {checks : Bool}
    → checks ≡ true
    → (p : Pool) (amount : ℕ) {q : Pool} → update_pool_supply checks p amount true ≡ some q
    → (q.supply ≡ p.supply + amount) × (q.debt ≡ p.debt)
unfolding update_pool_supply add_word
update_pool_supply-add c p amount h = ground arith

pub update_pool_supply-sub :
    {checks : Bool}
    → checks ≡ true
    → (p : Pool) (amount : ℕ) {q : Pool} → update_pool_supply checks p amount false ≡ some q
    → (q.supply + amount ≡ p.supply) × (q.debt ≡ p.debt)
unfolding update_pool_supply sub_word
update_pool_supply-sub c p amount h = ground arith

pub update_pool_debt-add :
    {checks : Bool}
    → checks ≡ true
    → (p : Pool) (amount : ℕ) {q : Pool} → update_pool_debt checks p amount true ≡ some q
    → (q.debt ≡ p.debt + amount) × (q.supply ≡ p.supply)
unfolding update_pool_debt add_word
update_pool_debt-add c p amount h = ground arith

pub update_pool_debt-sub :
    {checks : Bool}
    → checks ≡ true
    → (p : Pool) (amount : ℕ) {q : Pool} → update_pool_debt checks p amount false ≡ some q
    → (q.debt + amount ≡ p.debt) × (q.supply ≡ p.supply)
unfolding update_pool_debt sub_word
update_pool_debt-sub c p amount h = ground arith

pub Untouched-trans :
    {Store : Type 0} {s u v : State Store} → Untouched s u → Untouched u v → Untouched s v
Untouched-trans a b = record {
  ledger = b.ledger ∙ a.ledger;
  pools = b.pools ∙ a.pools;
  threshold = b.threshold ∙ a.threshold;
  clock = b.clock ∙ a.clock;
}

module _ {E Store : Type 0} (t : Config E Store) (balance : ℕ → ℕ → Store → ℕ) where
  -- The pool `p` is that of the asset with its interest accrued.
  pub record Accrued (s : State Store) (id : ℕ) (p : Pool) : Type 0 where
    pub stored : Pool
    pub found : s.pools id ≡ some stored
    pub grown : accrue_interest t.fixed t.checks s.block_number stored ≡ some p

  -- From `s` to `u` only the pool of the asset was written, from `accrued` to `left`, and the
  -- pallet's balance changed as the pool's supply less its debt.
  pub record Settled (s u : State Store) (id : ℕ) : Type 0 where
    pub accrued : Pool
    pub left : Pool
    pub has_accrued : Accrued s id accrued
    pub pools : u.pools ≡ update s.pools id (some left)
    pub cash :
        balance id t.account_id u.ledger + accrued.supply + left.debt
        ≡ balance id t.account_id s.ledger + left.supply + accrued.debt

  pub accrued_pool-Accrued :
      (id : ℕ) (s : State Store)
      → Post (λ p u. Accrued s id p × Untouched s u) (Untouched s) (accrued_pool t id s)
  unfolding accrued_pool
  accrued_pool-Accrued id s = Post-ok_or (s.pools id) pool_not_exist _ s same λ stored e.
      Post-or_panic_last (accrue_interest t.fixed t.checks s.block_number stored) s
        λ p g. (record { stored = stored; found = e; grown = g }, same)
    where
      same : Untouched s s
      same = record { ledger = refl; pools = refl; threshold = refl; clock = refl }

  -- Over a transfer into the pallet's account, and over one out of it.
  moved-in :
      (from id amount : ℕ) (v : State Store) (o : Outcome E Store (Unit {0}))
      → Transfers balance from id t.account_id amount v.ledger o
      → Post
          (λ (_ : Unit {0}) w.
            (balance id t.account_id w.ledger ≡ balance id t.account_id v.ledger + amount)
            × (w.pools ≡ v.pools))
          (Untouched v)
          (elim o as (λ _. Outcome Error (State Store) (Unit {0})) [
            | ok _ ledger ↦ ok tt (record v { ledger = ledger })
            | err _ ledger ↦ err transfer_failed (record v { ledger = ledger })
            | panic ↦ panic
          ])
  moved-in from id amount v (ok _ l) (_, _, _, to, _) = succeeds (to, refl)
  moved-in from id amount v (err _ l) (same, _) =
      refuses (record { ledger = same; pools = refl; threshold = refl; clock = refl })
  moved-in from id amount v panic h = absurd h

  moved-out :
      (id to amount : ℕ) (v : State Store) (o : Outcome E Store (Unit {0}))
      → Transfers balance t.account_id id to amount v.ledger o
      → Post
          (λ (_ : Unit {0}) w.
            (balance id t.account_id w.ledger + amount ≡ balance id t.account_id v.ledger)
            × (w.pools ≡ v.pools))
          (Untouched v)
          (elim o as (λ _. Outcome Error (State Store) (Unit {0})) [
            | ok _ ledger ↦ ok tt (record v { ledger = ledger })
            | err _ ledger ↦ err transfer_failed (record v { ledger = ledger })
            | panic ↦ panic
          ])
  moved-out id to amount v (ok _ l) (_, le, from, _, _) = succeeds (omega (arith, le, from), refl)
  moved-out id to amount v (err _ l) (same, _) =
      refuses (record { ledger = same; pools = refl; threshold = refl; clock = refl })
  moved-out id to amount v panic h = absurd h

  module _ (contract : IsMultiAsset t.multi_asset balance) where
    -- From a state `v` in which `s` is untouched.
    pub move_asset-in :
        {s v : State Store} (from id amount : ℕ)
        → from ≢ t.account_id
        → balance id from s.ledger + balance id t.account_id s.ledger < u128_size
        → Untouched s v
        → Post
            (λ _ w.
              (balance id t.account_id w.ledger ≡ balance id t.account_id s.ledger + amount)
              × (w.pools ≡ s.pools))
            (Untouched s)
            (move_asset t from id t.account_id amount v)
    unfolding move_asset
    move_asset-in {s} {v} from id amount apart fits same =
        Post-map (λ _ w (b, p). (rw (b, same.ledger), p ∙ same.pools)) (λ w. Untouched-trans same)
          (moved-in from id amount v (t.multi_asset.transfer from id t.account_id amount v.ledger)
            (contract.transfers from id t.account_id amount v.ledger apart (rw same.ledger fits)))

    pub move_asset-out :
        {s v : State Store} (to id amount : ℕ)
        → to ≢ t.account_id
        → balance id to s.ledger + balance id t.account_id s.ledger < u128_size
        → Untouched s v
        → Post
            (λ _ w.
              (balance id t.account_id w.ledger + amount ≡ balance id t.account_id s.ledger)
              × (w.pools ≡ s.pools))
            (Untouched s)
            (move_asset t t.account_id id to amount v)
    unfolding move_asset
    move_asset-out {s} {v} to id amount apart fits same =
        Post-map (λ _ w (b, p). (b ∙ ap (balance id t.account_id) same.ledger, p ∙ same.pools))
          (λ w. Untouched-trans same)
          (moved-out id to amount v (t.multi_asset.transfer t.account_id id to amount v.ledger) (
            contract.transfers t.account_id id to amount v.ledger (λ e. apart (sym e))
              (rw same.ledger (omega (arith, fits)))))
