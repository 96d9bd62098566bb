-- ===== src/Swap/Holders.antt =====
-- pallets/swap/src/lib.rs: over all calls, the total liquidity of a pool is what its finitely many
-- accounts have, whoever they are.
use konomi_node.Base.{
  ℕ, ◌≡◌, true, false, List, ◌∷◌, arith, Outcome, ok, err, panic, contains, Distinct, Bool-cases,
  inl, inr, Post, succeeds, refuses,
}
use konomi_node.Base.Keeps.{Keeps, Ends, keeps_rules}
use konomi_node.Swap.State.{Exchange, Config, Error}
use konomi_node.Swap.Liquidity.{inject_liquidity, take_liquidity}
use konomi_node.Swap.Calls.{set_fee_rate, add_liquidity, remove_liquidity}
use konomi_node.Swap.Trades.{IsTraded, exact_input-Keeps, exact_output-Keeps, transfer-Keeps_else}
use konomi_node.Swap.Deposits.{IsDeposited, inject-Keeps, take-Keeps}
use konomi_node.Swap.Shares.{SumsUp}
use konomi_node.Swap.SharesKept.{inject_liquidity-SumsUp, take_liquidity-SumsUp}
use konomi_node.Swap.Dispatch.{
  Request, sets_fee_rate, swaps_exact_input, swaps_exact_output, adds_liquidity, removes_liquidity,
  dispatch,
}

-- Accounts outside the list have no liquidity.
pub record NoneElsewhere (holders : List ℕ) (s : Exchange) : Type 0 where
  pub none_else : (id who : ℕ) → contains who holders ≡ false → s.account_liquidities id who ≡ 0

-- Some list of distinct accounts has all the liquidity of every pool.
abbrev pub IsShared : Exchange → Type 0
IsShared s = (holders : List ℕ) × Distinct holders × SumsUp holders s × NoneElsewhere holders s

with_account :
    (a : ℕ) (s : Exchange)
    → IsShared s
    → (holders : List ℕ) × Distinct holders
      × SumsUp holders s
      × NoneElsewhere holders s
      × (contains a holders ≡ true)
with_account a s (holders, distinct, sums, others) = elim (Bool-cases (contains a holders)) [
  | inl e ↦ (holders, distinct, sums, others, e)
  | inr e ↦ (
    a ∷ holders,
    (e, distinct),
    record { sums = λ id. omega (arith, sums.sums id, others.none_else id a e) },
    record { none_else = λ id who out. others.none_else id who (ground arith) },
    ground arith,
  )
]

module _ (t : Config) where
  IsTraded-else : (holders : List ℕ) → IsTraded t (NoneElsewhere holders)
  IsTraded-else holders = record {
    transfers = λ from id to n.
        transfer-Keeps_else (NoneElsewhere holders) t.checks from id to n
          (λ s a h. record { none_else = h.none_else });
    events = λ e. record { at = λ s h. record { none_else = h.none_else } };
  }

  traded : IsTraded t IsShared
  traded = record {
    transfers = λ from id to n.
        transfer-Keeps_else IsShared t.checks from id to n (λ s a (holders, distinct, sums, others).
          (
            holders,
            distinct,
            record { sums = sums.sums },
            record { none_else = others.none_else },
          ));
    events = λ e. record {
      at = λ s (holders, distinct, sums, others).
          (holders, distinct, record { sums = sums.sums }, record { none_else = others.none_else });
    };
  }

  IsDeposited-else :
      (holders : List ℕ) (who : ℕ)
      → contains who holders ≡ true
      → IsDeposited t (NoneElsewhere holders) who
  IsDeposited-else holders who has = record {
    traded = IsTraded-else holders;
    shares = λ id n. record {
      at = λ s h. record { none_else = λ j k out. ground (arith, h.none_else j k out) };
    };
    totals = λ id n. record { at = λ s h. record { none_else = h.none_else } };
    addresses = λ id address. record { at = λ s h. record { none_else = h.none_else } };
  }

  -- The two halves of the invariant at the end of a call.
  IsShared-end :
      (holders : List ℕ) (o : Outcome Error Exchange (Unit {0}))
      → Distinct holders
      → Post (λ _ u. SumsUp holders u) (SumsUp holders) o
      → Ends (NoneElsewhere holders) o
      → Ends IsShared o
  IsShared-end holders (ok _ s) d (succeeds p) h = (holders, d, p, h)
  IsShared-end holders (err _ s) d (refuses p) h = (holders, d, p, h)
  IsShared-end holders panic d p h = tt

  module _ (checked : t.checks ≡ true) where
    inject-IsShared : (who id n m l : ℕ) → Keeps IsShared (inject_liquidity t who id n m l)
    inject-IsShared who id n m l = record {
      at = λ s shared.
          let (holders, distinct, sums, others, has) = with_account who s shared in
          IsShared-end holders (inject_liquidity t who id n m l s) distinct
            (inject_liquidity-SumsUp holders distinct t checked who id has s sums n m l)
            ((inject-Keeps t (NoneElsewhere holders) who (IsDeposited-else holders who has) id n m
                l).at
              s others);
    }

    take-IsShared : (who id n m l : ℕ) → Keeps IsShared (take_liquidity t who id n m l)
    take-IsShared who id n m l = record {
      at = λ s shared.
          let (holders, distinct, sums, others, has) = with_account who s shared in
          IsShared-end holders (take_liquidity t who id n m l s) distinct
            (take_liquidity-SumsUp holders distinct t checked who id has s sums n m l)
            ((take-Keeps t (NoneElsewhere holders) who (IsDeposited-else holders who has) id n m
                l).at
              s others);
    }

    -- With overflow checks, each call of the swap pallet keeps, by success or error, that finitely
    -- many accounts have all of each pool's liquidity.
    pub dispatch-IsShared : (r : Request) → Keeps IsShared (dispatch t r)
    unfolding dispatch set_fee_rate add_liquidity remove_liquidity
    dispatch-IsShared (sets_fee_rate o f) = record {
      at = λ s (holders, distinct, sums, others).
          (holders, distinct, record { sums = sums.sums }, record { none_else = others.none_else });
    }
    dispatch-IsShared (swaps_exact_input o to i j n m) =
        exact_input-Keeps t IsShared traded o to i j n m
    dispatch-IsShared (swaps_exact_output o to i j n m) =
        exact_output-Keeps t IsShared traded o to i j n m
    dispatch-IsShared (adds_liquidity o id n m l) =
        search (keeps_rules, inject-IsShared, traded.events) depth 20
    dispatch-IsShared (removes_liquidity o id l n m) =
        search (keeps_rules, take-IsShared, traded.events) depth 20
