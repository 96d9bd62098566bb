-- ===== src/Assets/Holders.antt =====
-- pallets/assets/src/lib.rs: the total supply of an asset is what its finitely many holders hold,
-- whoever they are.
use konomi_node.Base.{
  ℕ, ◌+◌, ◌<◌, ◌≤◌, ◌≡◌, Bool, true, false, List, ◌∷◌, some, panic, arith, Origin, u64_size,
  u128_size, contains, Distinct, Bool-cases, inl, inr, dec_lt, Option-cases, ok_or, add_word,
}
use konomi_node.Base.Keeps.{Keeps, Ends, after-Ends}
use konomi_node.Assets.State.{State}
use konomi_node.Assets.Supply.{
  IsBacked, transfer-IsBacked, issue_to-IsBacked, IsCovered, dispatch-IsBacked,
}
use konomi_node.Assets.Calls.{
  Request, issues, destroys, transfers, sets_inherent, sets_price, dispatch, issue, issue_to,
  transfer,
}

-- Some list of distinct accounts holds all of every asset.
abbrev pub IsHeld : State → Type 0
IsHeld s = (holders : List ℕ) × Distinct holders × IsBacked holders s

-- An account outside the list holds nothing, so the list can be made longer by it.
joined-IsBacked :
    (who : ℕ) (holders : List ℕ) (s : State)
    → contains who holders ≡ false
    → IsBacked holders s
    → IsBacked (who ∷ holders) s
joined-IsBacked who holders s out b = record {
  backed = λ id. omega (arith, b.backed id, b.elsewhere id who out);
  elsewhere = λ id j e. b.elsewhere id j (ground arith);
  fits = b.fits;
  unused = b.unused;
}

-- A list of holders that has `a`, and one that has `a` and `b`.
with_account :
    (a : ℕ) (s : State)
    → IsHeld s
    → (holders : List ℕ) × Distinct holders × IsBacked holders s × (contains a holders ≡ true)
with_account a s (holders, distinct, backed) = elim (Bool-cases (contains a holders)) [
  | inl e ↦ (holders, distinct, backed, e)
  | inr e ↦ (a ∷ holders, (e, distinct), joined-IsBacked a holders s e backed, ground arith)
]

with_accounts :
    (a b : ℕ) (s : State)
    → IsHeld s
    → (holders : List ℕ) × Distinct holders
      × IsBacked holders s
      × (contains a holders ≡ true)
      × (contains b holders ≡ true)
with_accounts a b s held =
    let (holders, distinct, backed, has) = with_account a s held in
    elim (Bool-cases (contains b holders)) [
      | inl e ↦ (holders, distinct, backed, has, e)
      | inr e ↦ (
        b ∷ holders,
        (e, distinct),
        joined-IsBacked b holders s e backed,
        ground arith,
        ground arith,
      )
    ]

pub transfer-IsHeld :
    (checks : Bool) (from id to amount : ℕ) → Keeps IsHeld (transfer checks from id to amount)
transfer-IsHeld checks from id to amount = record {
  at = λ s held.
      let (holders, distinct, backed, has_from, has_to) = with_accounts from to s held in
      after-Ends IsHeld s (transfer checks from id to amount s) (
        holders,
        distinct,
        transfer-IsBacked holders distinct checks from id to amount s has_from has_to backed,
      );
}

-- With checks, a counter without room panics.
issue_to_full :
    (account total : ℕ) (s : State)
    → u64_size ≤ s.next_asset_id + 1
    → issue_to true account total s ≡ panic
unfolding issue_to add_word
issue_to_full account total s full = ground arith

pub issue_to-IsHeld :
    (checks : Bool) (account total : ℕ)
    → checks ≡ true
    → total < u128_size
    → Keeps IsHeld (issue_to checks account total)
issue_to-IsHeld checks account total checked small = record {
  at = λ s held. elim (dec_lt (s.next_asset_id + 1) u64_size) [
    | yes room ↦
        let (holders, distinct, backed, has) = with_account account s held in
        after-Ends IsHeld s (issue_to checks account total s) (
          holders,
          distinct,
          issue_to-IsBacked holders distinct checks account total s has small room backed,
        )
    | no full ↦ rw (checked, issue_to_full account total s (omega arith)) tt
  ];
}

-- The amounts and prices of a call are u128, and the inherent asset is a u64.
abbrev pub IsTyped : Request → Type 0
IsTyped (issues origin total) = total < u128_size
IsTyped (sets_price origin id price) = price < u128_size
IsTyped (sets_inherent origin asset) = asset < u64_size
IsTyped _ = Unit {0}

covered :
    (holders : List ℕ) (origin : Origin) (account : ℕ)
    → contains account holders ≡ true
    → origin.signed_by ≡ some account
    → (who : ℕ) → origin.signed_by ≡ some who
    → contains who holders ≡ true
covered holders origin account has signed who e = ground arith

-- A call, over holders that it covers.
dispatched :
    (checks : Bool) (r : Request) (s : State) (holders : List ℕ) (distinct : Distinct holders)
    → IsBacked holders s
    → IsCovered holders distinct r s
    → Ends IsHeld (dispatch checks r s)
dispatched checks r s holders distinct backed cover =
    after-Ends IsHeld s (dispatch checks r s)
      (holders, distinct, dispatch-IsBacked holders distinct checks r s cover backed)

-- With overflow checks, every call of the pallet whose amounts are balances keeps, by success or
-- error, that finitely many accounts hold all of each asset's supply.
pub dispatch-IsHeld :
    (checks : Bool) (r : Request) → checks ≡ true → IsTyped r → Keeps IsHeld (dispatch checks r)
unfolding dispatch issue
dispatch-IsHeld checks (issues origin total) checked small = record {
  at = λ s held. elim (Option-cases origin.signed_by) [
    | inl e ↦ rw (e, dispatch, ok_or) held
    | inr (who, e) ↦ rw (e, ok_or) ((issue_to-IsHeld checks who total checked small).at s held)
  ];
}
dispatch-IsHeld checks (destroys origin id) checked typed = record {
  at = λ s held. elim (Option-cases origin.signed_by) [
    | inl e ↦
        let (holders, distinct, backed) = held in
        dispatched checks (destroys origin id) s holders distinct backed (λ who h. ground arith)
    | inr (account, e) ↦
        let (holders, distinct, backed, has) = with_account account s held in
        dispatched checks (destroys origin id) s holders distinct backed
          (covered holders origin account has e)
  ];
}
dispatch-IsHeld checks (sets_inherent origin asset) checked typed = record {
  at = λ s (holders, distinct, backed).
      dispatched checks (sets_inherent origin asset) s holders distinct backed tt;
}
dispatch-IsHeld checks (sets_price origin id price) checked typed = record {
  at = λ s (holders, distinct, backed).
      dispatched checks (sets_price origin id price) s holders distinct backed tt;
}
dispatch-IsHeld checks (transfers origin id to amount) checked typed = record {
  at = λ s held. elim (Option-cases origin.signed_by) [
    | inl e ↦
        let (holders, distinct, backed, has) = with_account to s held in
        dispatched checks (transfers origin id to amount) s holders distinct backed
          ((λ who h. ground arith), has)
    | inr (account, e) ↦
        let (holders, distinct, backed, has_from, has_to) = with_accounts account to s held in
        dispatched checks (transfers origin id to amount) s holders distinct backed
          (covered holders origin account has_from e, has_to)
  ];
}
