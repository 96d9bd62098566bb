-- ===== src/Lending/Opening.antt =====
-- pallets/lending/src/lib.rs: what the genesis build makes of its pools.
use konomi_node.Base.{
  ℕ, ◌≡◌, ◌≢◌, refl, ◌∙◌, true, Option, some, List, [], ◌∷◌, ok, arith, update, ℕ_discrete,
}
use konomi_node.FixedPoint.{FixedPoint}
use konomi_node.Lending.State.{State, Config, Pool}
use konomi_node.Lending.Calls.{init_pool_at, genesis}

-- What the code relies on of `saturating_from_rational`: it panics at most on a denominator of
-- zero.
pub record Divides (f : FixedPoint) : Type 0 where
  pub rational : (n d : ℕ) → d ≢ 0 → (q : ℕ) × (f.saturating_from_rational n d ≡ some q)

-- An enabled pool of the asset, with nothing in it.
pub record IsOpen (id : ℕ) (pools : ℕ → Option Pool) : Type 0 where
  pub pool : Pool
  pub found : pools id ≡ some pool
  pub own : pool.asset ≡ id
  pub enabled : pool.enabled ≡ true
  pub no_supply : pool.supply ≡ 0
  pub no_debt : pool.debt ≡ 0

abbrev pub AreOpen : List ℕ → (ℕ → Option Pool) → Type 0
AreOpen [] pools = Unit {0}
AreOpen (id ∷ ids) pools = IsOpen id pools × AreOpen ids pools

module _ {E Store : Type 0} (t : Config E Store) (divides : Divides t.fixed) where
  pool_opens :
      (id : ℕ) (s : State Store)
      → (u : State Store) × (init_pool_at t id true s ≡ ok tt u)
        × IsOpen id u.pools
        × ((j : ℕ) → IsOpen j s.pools → IsOpen j u.pools)
        × (u.ledger ≡ s.ledger)
  unfolding init_pool_at
  pool_opens id s =
      let (safe, e1) = divides.rational 7 10 (omega arith) in
      let (discount, e2) = divides.rational 95 100 (omega arith) in
      let (utilization, e3) = divides.rational 385 10_000_000_000 (omega arith) in
      let (initial, e4) = divides.rational 385 100_000_000_000 (omega arith) in
      let pool : Pool = record {
        enabled = true;
        can_be_collateral = true;
        asset = id;
        supply = 0;
        debt = 0;
        safe_factor = safe;
        close_factor = t.fixed.one_value;
        discount_factor = discount;
        total_supply_index = t.fixed.one_value;
        total_debt_index = t.fixed.one_value;
        last_updated = s.block_number;
        utilization_factor = utilization;
        initial_interest_rate = initial;
      } in
      let opened : IsOpen id (update s.pools id (some pool)) = record {
        pool = pool;
        found = ground arith;
        own = refl;
        enabled = refl;
        no_supply = refl;
        no_debt = refl;
      } in
      (
        record s { pools = update s.pools id (some pool) },
        ground (arith, e1, e2, e3, e4),
        opened,
        λ j open_j. elim (ℕ_discrete j id) [
          | yes e ↦ rw e opened
          | no ne ↦ record {
            pool = open_j.pool;
            found = ground (arith, open_j.found);
            own = open_j.own;
            enabled = open_j.enabled;
            no_supply = open_j.no_supply;
            no_debt = open_j.no_debt;
          }
        ],
        refl,
      )

  pub genesis_opens :
      (pools : List ℕ) (s : State Store)
      → (u : State Store) × (genesis t pools s ≡ ok tt u)
        × AreOpen pools u.pools
        × ((j : ℕ) → IsOpen j s.pools → IsOpen j u.pools)
        × (u.ledger ≡ s.ledger)
  unfolding genesis
  genesis_opens [] s = (s, refl, tt, λ j h. h, refl)
  genesis_opens (id ∷ pools) s =
      let (v, first, opened, keeps, same) = pool_opens id s in
      let (u, rest, others, keeps', same') = genesis_opens pools v in
      (
        u,
        ground (arith, first, rest),
        (keeps' id opened, others),
        λ j h. keeps' j (keeps j h),
        same' ∙ same,
      )
