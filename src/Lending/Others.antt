-- ===== src/Lending/Others.antt =====
-- pallets/lending/src/lib.rs: a call leaves the entries and sets of all users but one alone.
use konomi_node.Base.{
  ℕ, ◌≡◌, ◌≢◌, refl, ◌∙◌, ap, some, arith, Bool-cases, inl, inr, contains, after, ok, err, panic,
  Outcome,
}
use konomi_node.Base.Keeps.{Keeps, Keeps-after, Ends}
use konomi_node.Lending.State.{State, Config, Error, transfer_failed}
use konomi_node.Lending.Accounts.{join_supply_set, join_debt_set, leave_supply_set, leave_debt_set}
use konomi_node.Lending.Calls.{move_asset}
use konomi_node.Lending.Dispatch.{Request, dispatch}
use konomi_node.Lending.Writes.{IsWritten, changes, dispatch-Keeps}

-- What a user has in the storage: entries by asset, and the two sets.
pub record SameEntries {Store : Type 0} (user : ℕ) (s u : State Store) : Type 0 where
  pub supplies : (id : ℕ) → u.user_supplies id user ≡ s.user_supplies id user
  pub debts : (id : ℕ) → u.user_debts id user ≡ s.user_debts id user
  pub supply_set : u.user_supply_set user ≡ s.user_supply_set user
  pub debt_set : u.user_debt_set user ≡ s.user_debt_set user

module _ {E Store : Type 0} (t : Config E Store) (user : ℕ) (s : State Store) where
  abbrev AsBefore : State Store → Type 0
  AsBefore = SameEntries user s

  elsewhere :
      (u v : State Store)
      → v.user_supplies ≡ u.user_supplies
      → v.user_debts ≡ u.user_debts
      → v.user_supply_set ≡ u.user_supply_set
      → v.user_debt_set ≡ u.user_debt_set
      → AsBefore u
      → AsBefore v
  elsewhere u v a b c d h = record {
    supplies = λ id. rw a (h.supplies id);
    debts = λ id. rw b (h.debts id);
    supply_set = rw c h.supply_set;
    debt_set = rw d h.debt_set;
  }

  moved-AsBefore :
      (u : State Store) (o : Outcome E Store (Unit {0}))
      → AsBefore u
      → Ends AsBefore (elim o as (λ _. Outcome Error (State Store) (Unit {0})) [
        | ok _ ledger ↦ ok tt (record u { ledger = ledger })
        | err _ ledger ↦ err transfer_failed (record u { ledger = ledger })
        | panic ↦ panic
      ])
  moved-AsBefore u (ok _ l) h = elsewhere u (record u { ledger = l }) refl refl refl refl h
  moved-AsBefore u (err _ l) h = elsewhere u (record u { ledger = l }) refl refl refl refl h
  moved-AsBefore u panic h = tt

  move-AsBefore : (from id to n : ℕ) → Keeps AsBefore (move_asset t from id to n)
  unfolding move_asset
  move-AsBefore from id to n = record {
    at = λ u h. moved-AsBefore u (t.multi_asset.transfer from id to n u.ledger) h;
  }

  module _ (who : ℕ) (other : who ≢ user) where
    leave_supply-AsBefore : (id : ℕ) → Keeps AsBefore (leave_supply_set t id who)
    unfolding leave_supply_set
    leave_supply-AsBefore id = record {
      at = λ u h. record {
        supplies = h.supplies;
        debts = h.debts;
        supply_set = ground (arith, h.supply_set);
        debt_set = h.debt_set;
      };
    }

    leave_debt-AsBefore : (id : ℕ) → Keeps AsBefore (leave_debt_set t id who)
    unfolding leave_debt_set
    leave_debt-AsBefore id = record {
      at = λ u h. record {
        supplies = h.supplies;
        debts = h.debts;
        debt_set = ground (arith, h.debt_set);
        supply_set = h.supply_set;
      };
    }

    join_supply-AsBefore : (id : ℕ) → Keeps AsBefore (join_supply_set t id who)
    unfolding join_supply_set
    join_supply-AsBefore id = record {
      at = λ u h. elim (Bool-cases (contains id (u.user_supply_set who))) [
        | inl e ↦ rw e h
        | inr e ↦ rw e (record {
          supplies = h.supplies;
          debts = h.debts;
          supply_set = ground (arith, h.supply_set);
          debt_set = h.debt_set;
        })
      ];
    }

    join_debt-AsBefore : (id : ℕ) → Keeps AsBefore (join_debt_set t id who)
    unfolding join_debt_set
    join_debt-AsBefore id = record {
      at = λ u h. elim (Bool-cases (contains id (u.user_debt_set who))) [
        | inl e ↦ rw e h
        | inr e ↦ rw e (record {
          supplies = h.supplies;
          debts = h.debts;
          debt_set = ground (arith, h.debt_set);
          supply_set = h.supply_set;
        })
      ];
    }

    written : IsWritten t AsBefore who
    written = record {
      pools = λ id p. record { at = λ u h. elsewhere u _ refl refl refl refl h };
      supplies = λ id e. record {
        at = λ u h. record {
          supplies = λ j. ground (arith, h.supplies j);
          debts = h.debts;
          supply_set = h.supply_set;
          debt_set = h.debt_set;
        };
      };
      debts = λ id e. record {
        at = λ u h. record {
          supplies = h.supplies;
          debts = λ j. ground (arith, h.debts j);
          supply_set = h.supply_set;
          debt_set = h.debt_set;
        };
      };
      leaves_supply = leave_supply-AsBefore;
      leaves_debt = leave_debt-AsBefore;
      joins_supply = join_supply-AsBefore;
      joins_debt = join_debt-AsBefore;
      events = λ e. record { at = λ u h. elsewhere u _ refl refl refl refl h };
      moves = move-AsBefore;
    }

  -- Over any assets, in any build: a call of the pallet, however it ends, leaves the entries and
  -- the two sets of every user alone, other than those of its signer or, for a liquidation, of its
  -- target.
  pub dispatch-SameEntries :
      (r : Request) → changes r ≢ some user → SameEntries user s (after s (dispatch t r s))
  dispatch-SameEntries r apart =
      Keeps-after
        (dispatch-Keeps t AsBefore
          (λ id p. record { at = λ u h. elsewhere u _ refl refl refl refl h }) r
          (λ who e. written who (λ same. apart (e ∙ ap some same))))
        s (record { supplies = λ id. refl; debts = λ id. refl; supply_set = refl; debt_set = refl })
