-- ===== src/Lending/Words.antt =====
-- pallets/lending/src/lib.rs: the numbers that the pallet stores stay in their types.
use konomi_node.Base.{
  ℕ, ◌≤◌, ◌<◌, ◌≡◌, refl, Bool, none, some, arith, u64_size, u128_size, ltb, if◌then◌else◌,
  add_word, sub_word,
}
use konomi_node.Base.Keeps.{Keeps}
use konomi_node.FixedPoint.{FixedPoint, IsTypedFixed}
use konomi_node.Lending.State.{
  State, Pool, put_pool, put_supply, put_debt, deposit_event, Event, UserSupply, UserDebt,
}
use konomi_node.Lending.Interest.{accrue_interest, update_pool_supply, update_pool_debt}

-- A pool's asset is a u64, its other numbers are u128, and its last update is not in the future.
pub record PoolInRange (now : ℕ) (p : Pool) : Type 0 where
  pub asset : p.asset < u64_size
  pub supply : p.supply < u128_size
  pub debt : p.debt < u128_size
  pub safe_factor : p.safe_factor < u128_size
  pub close_factor : p.close_factor < u128_size
  pub discount_factor : p.discount_factor < u128_size
  pub total_supply_index : p.total_supply_index < u128_size
  pub total_debt_index : p.total_debt_index < u128_size
  pub utilization_factor : p.utilization_factor < u128_size
  pub initial_interest_rate : p.initial_interest_rate < u128_size
  pub last_updated : p.last_updated ≤ now

pub record InRange (Store : Type 0) (now : ℕ) (s : State Store) : Type 0 where
  pub clock : s.block_number ≡ now
  pub pools : (id : ℕ) (p : Pool) → s.pools id ≡ some p → PoolInRange now p
  pub supplies :
      (id who : ℕ) (e : UserSupply)
      → s.user_supplies id who ≡ some e
      → (e.amount < u128_size) × (e.index < u128_size)
  pub debts :
      (id who : ℕ) (e : UserDebt)
      → s.user_debts id who ≡ some e
      → (e.amount < u128_size) × (e.index < u128_size)
  pub threshold : s.liquidation_threshold < u128_size

module _ (fixed : FixedPoint) (typed : IsTypedFixed fixed) (checks : Bool) (now : ℕ) where
  pub accrue_interest-InRange :
      (p q : Pool)
      → accrue_interest fixed checks now p ≡ some q
      → PoolInRange now p
      → PoolInRange now q
  unfolding accrue_interest
  accrue_interest-InRange p q h r = grind (arith, typed.mul_small, typed.mul_int_small)

  pub update_pool_supply-InRange :
      (p q : Pool) (n : ℕ) (positive : Bool)
      → update_pool_supply checks p n positive ≡ some q
      → PoolInRange now p
      → PoolInRange now q
  unfolding update_pool_supply add_word sub_word
  update_pool_supply-InRange p q n positive h r = ground arith

  pub update_pool_debt-InRange :
      (p q : Pool) (n : ℕ) (positive : Bool)
      → update_pool_debt checks p n positive ≡ some q
      → PoolInRange now p
      → PoolInRange now q
  unfolding update_pool_debt add_word sub_word
  update_pool_debt-InRange p q n positive h r = ground arith

  pub limited : (a b : ℕ) → b < u128_size → (if ltb a b then a else b) < u128_size
  limited a b h = ground arith

module _ {Store : Type 0} (now : ℕ) where
  pub elsewhere :
      (s u : State Store)
      → u.block_number ≡ s.block_number
      → u.pools ≡ s.pools
      → u.user_supplies ≡ s.user_supplies
      → u.user_debts ≡ s.user_debts
      → u.liquidation_threshold ≡ s.liquidation_threshold
      → (InRange Store now) s
      → (InRange Store now) u
  elsewhere s u a b c d e h = record {
    clock = rw a h.clock;
    pools = rw b h.pools;
    supplies = rw c h.supplies;
    debts = rw d h.debts;
    threshold = rw e h.threshold;
  }

  pub put_pool-InRange :
      (id : ℕ) (p : Pool) → PoolInRange now p → Keeps (InRange Store now) (put_pool id p)
  put_pool-InRange id p r = record {
    at = λ s h. record {
      clock = h.clock;
      pools = λ j q e. ground (arith, h.pools j q);
      supplies = h.supplies;
      debts = h.debts;
      threshold = h.threshold;
    };
  }

  pub put_supply-InRange :
      (id who n i : ℕ)
      → n < u128_size
      → i < u128_size
      → Keeps (InRange Store now) (put_supply id who (some (record { amount = n; index = i })))
  put_supply-InRange id who n i a b = record {
    at = λ s h. record {
      clock = h.clock;
      pools = h.pools;
      supplies = λ j k e same. ground (arith, h.supplies j k e);
      debts = h.debts;
      threshold = h.threshold;
    };
  }

  pub remove_supply-InRange : (id who : ℕ) → Keeps (InRange Store now) (put_supply id who none)
  remove_supply-InRange id who = record {
    at = λ s h. record {
      clock = h.clock;
      pools = h.pools;
      supplies = λ j k e same. ground (arith, h.supplies j k e);
      debts = h.debts;
      threshold = h.threshold;
    };
  }

  pub put_debt-InRange :
      (id who n i : ℕ)
      → n < u128_size
      → i < u128_size
      → Keeps (InRange Store now) (put_debt id who (some (record { amount = n; index = i })))
  put_debt-InRange id who n i a b = record {
    at = λ s h. record {
      clock = h.clock;
      pools = h.pools;
      supplies = h.supplies;
      debts = λ j k e same. ground (arith, h.debts j k e);
      threshold = h.threshold;
    };
  }

  pub remove_debt-InRange : (id who : ℕ) → Keeps (InRange Store now) (put_debt id who none)
  remove_debt-InRange id who = record {
    at = λ s h. record {
      clock = h.clock;
      pools = h.pools;
      supplies = h.supplies;
      debts = λ j k e same. ground (arith, h.debts j k e);
      threshold = h.threshold;
    };
  }

  pub event-InRange : (e : Event) → Keeps (InRange Store now) (deposit_event e)
  event-InRange e = record { at = λ s h. elsewhere s _ refl refl refl refl refl h }
