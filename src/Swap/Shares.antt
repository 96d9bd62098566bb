-- ===== src/Swap/Shares.antt =====
-- pallets/swap/src/lib.rs: the total liquidity of a pool beside that of its accounts.
use konomi_node.Base.{
  ℕ, ◌+◌, ◌≡◌, refl, ◌∙◌, true, arith, List, Bool, contains, Distinct, sum_by, sum_by-update,
  sum_by-update₂, update, update₂, Post, succeeds, panics, ok, err, panic, Outcome,
}
use konomi_node.Assets.Calls as Assets
use konomi_node.Assets.State as Ledger
use konomi_node.Swap.State.{Exchange, Error, transfer}

-- Each pool's total liquidity is the sum of its accounts'.
pub record SumsUp (users : List ℕ) (s : Exchange) : Type 0 where
  pub sums : (asset : ℕ) → s.total_liquidities asset ≡ sum_by (s.account_liquidities asset) users

-- No liquidity was written.
pub record SameShares (s u : Exchange) : Type 0 where
  pub totals : u.total_liquidities ≡ s.total_liquidities
  pub shares : u.account_liquidities ≡ s.account_liquidities

moved-SameShares :
    {I : Exchange → Type 0} (s : Exchange) (o : Outcome Ledger.Error Ledger.State (Unit {0}))
    → Post
        (λ (_ : Unit {0}) u. SameShares s u)
        I
        (elim o as (λ _. Outcome Error Exchange (Unit {0})) [
          | ok _ assets ↦ ok tt (record s { assets = assets })
          | err _ assets ↦ ok tt (record s { assets = assets })
          | panic ↦ panic
        ])
moved-SameShares s (ok _ a) = succeeds (record { totals = refl; shares = refl })
moved-SameShares s (err _ a) = succeeds (record { totals = refl; shares = refl })
moved-SameShares s panic = panics

pub transfer-SameShares :
    {I : Exchange → Type 0} (checks : Bool) (from id to amount : ℕ) (s : Exchange)
    → Post (λ _ u. SameShares s u) I (transfer checks from id to amount s)
unfolding transfer
transfer-SameShares checks from id to amount s =
    moved-SameShares s (Assets.transfer checks from id to amount s.assets)

pub SameShares-trans : {s u v : Exchange} → SameShares s u → SameShares u v → SameShares s v
SameShares-trans a b = record { totals = b.totals ∙ a.totals; shares = b.shares ∙ a.shares }

-- A write of an account's liquidity and of the total that moves both alike.
module _ (users : List ℕ) (distinct : Distinct users) where
  pub written-SumsUp :
      (asset account share total : ℕ) (s u : Exchange)
      → contains account users ≡ true
      → SumsUp users s
      → u.total_liquidities ≡ update s.total_liquidities asset total
      → u.account_liquidities ≡ update₂ s.account_liquidities asset account share
      → total + s.account_liquidities asset account ≡ s.total_liquidities asset + share
      → SumsUp users u
  written-SumsUp asset account share total s u member h t a e = record {
    sums = λ id.
        let row = sum_by-update₂ s.account_liquidities asset account share id users in
        let moved = sum_by-update (s.account_liquidities id) account share users distinct member in
        let before = h.sums id in rw (t, a) (ground arith);
  }

  pub kept-SumsUp : {s u : Exchange} → SameShares s u → SumsUp users s → SumsUp users u
  kept-SumsUp same h = record { sums = λ id. rw (same.totals, same.shares) (h.sums id) }
