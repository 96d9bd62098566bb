-- ===== src/Swap/Provided.antt =====
-- pallets/swap/src/lib.rs: `_remove_liquidity`, what an account gets for its liquidity.
use konomi_node.Base.{
  ℕ, ◌+◌, ◌-◌, ◌*◌, ◌/◌, ◌≤◌, ◌<◌, ◌≡◌, ◌≢◌, refl, sym, ◌∙◌, ◌∷◌, Bool, arith, ok, u128_size,
  ℕ_discrete, update, update₂, mul_word_fits, sub_word_fits, div_word_pos,
}
use native.Mathlib.Nat.{div-le_of_le-mul, mul-le-mul_left, mul_comm, mul-sub, mul-div-le}
use konomi_node.Assets.Transfer.{moved}
use konomi_node.Swap.State.{Exchange, Config, transfer, reserve_changed}
use konomi_node.Swap.Exchange.{report_reserves}
use konomi_node.Swap.Liquidity.{take_liquidity, decrease_total_liquidity}
use konomi_node.Swap.Paid.{transfer-moved, transfer-nothing}

-- What a transfer from `from` to `to` leaves of an exchange, for an amount that may be zero.
pub record Given (id from to amount : ℕ) (s u : Exchange) : Type 0 where
  pub lowered : u.assets.balances id from ≡ s.assets.balances id from - amount
  pub raised : u.assets.balances id to ≡ s.assets.balances id to + amount
  pub others : (j k : ℕ) → j ≢ id → u.assets.balances j k ≡ s.assets.balances j k
  pub settings : u.assets.inherent_asset ≡ s.assets.inherent_asset
  pub totals : u.total_liquidities ≡ s.total_liquidities
  pub shares : u.account_liquidities ≡ s.account_liquidities

pub transfer-Given :
    (checks : Bool) (id from to amount : ℕ) (s : Exchange)
    → from ≢ to
    → amount ≤ s.assets.balances id from
    → s.assets.balances id from + s.assets.balances id to < u128_size
    → (u : Exchange) × (transfer checks from id to amount s ≡ ok tt u) × Given id from to amount s u
transfer-Given checks id from to amount s apart enough fits = elim (ℕ_discrete amount 0) [
  | yes z ↦ (
    s,
    transfer-nothing checks from id to amount s z,
    record {
      lowered = omega arith;
      raised = omega arith;
      others = λ j k ne. refl;
      settings = refl;
      totals = refl;
      shares = refl;
    },
  )
  | no nz ↦ (
    record s { assets = moved from id to amount s.assets },
    transfer-moved checks from id to amount s nz enough fits,
    record {
      lowered = ground arith;
      raised = ground arith;
      others = λ j k ne. ground arith;
      settings = refl;
      totals = refl;
      shares = refl;
    },
  )
]

-- What a part of a pool's balance leaves: at least what the other shares are worth.
pub part-le : (r l t : ℕ) → l ≤ t → r * l / t ≤ r
part-le r l t le = div-le_of_le-mul t (omega (arith, mul-le-mul_left r le, mul_comm r t))

part_fair : (r l t : ℕ) → r * (t - l) ≤ (r - r * l / t) * t
part_fair r l t =
    rw (mul-sub r t l, mul_comm (r - r * l / t) t, mul-sub t r (r * l / t))
      (omega (arith, mul-div-le (r * l) t, mul_comm r t))

-- What `_remove_liquidity` makes of an exchange: the account is paid its part of both balances of
-- the pool, rounded down, and its liquidity and the total fall alike. What is left is worth no less
-- to the shares that are left.
pub record Removed (i p account address l : ℕ) (s v : Exchange) : Type 0 where
  pub inherent_paid :
      v.assets.balances i account
      ≡ s.assets.balances i account + s.assets.balances i address * l / s.total_liquidities p
  pub paired_paid :
      v.assets.balances p account
      ≡ s.assets.balances p account + s.assets.balances p address * l / s.total_liquidities p
  pub share : v.account_liquidities p account + l ≡ s.account_liquidities p account
  pub total : v.total_liquidities p + l ≡ s.total_liquidities p
  pub inherent_fair :
      s.assets.balances i address * v.total_liquidities p
      ≤ v.assets.balances i address * s.total_liquidities p
  pub paired_fair :
      s.assets.balances p address * v.total_liquidities p
      ≤ v.assets.balances p address * s.total_liquidities p

module _ (t : Config) (account p l low low' : ℕ) (s : Exchange) where
  abbrev inherent : ℕ
  inherent = s.assets.inherent_asset

  abbrev address : ℕ
  address = t.make_exchange_address inherent p

  abbrev reserve : ℕ → ℕ
  reserve id = s.assets.balances id address

  abbrev part : ℕ → ℕ
  part id = reserve id * l / s.total_liquidities p

  -- The state that the removal ends in, from the one after its transfers.
  abbrev written : Exchange → Exchange
  written u = record u {
    account_liquidities =
        update₂ u.account_liquidities p account (s.account_liquidities p account - l);
    total_liquidities = update u.total_liquidities p (u.total_liquidities p - l);
    events =
        reserve_changed inherent (u.assets.balances inherent address)
        ∷ reserve_changed p (u.assets.balances p address)
        ∷ u.events;
  }

  take_runs :
      (w u : Exchange)
      → transfer t.checks address inherent account (part inherent) s ≡ ok tt w
      → transfer t.checks address p account (part p) w ≡ ok tt u
      → u.total_liquidities ≡ s.total_liquidities
      → 0 < s.total_liquidities p
      → l ≤ s.account_liquidities p account
      → l ≤ s.total_liquidities p
      → reserve inherent * l < u128_size
      → reserve p * l < u128_size
      → take_liquidity t account p l low low' s ≡ ok tt (written u)
  unfolding take_liquidity report_reserves decrease_total_liquidity
  take_runs w u first second same pos has within fits fits' =
      let mul_inherent = mul_word_fits u128_size t.checks (reserve inherent) l fits in
      let mul_paired = mul_word_fits u128_size t.checks (reserve p) l fits' in
      let div_inherent = div_word_pos (reserve inherent * l) (s.total_liquidities p) pos in
      let div_paired = div_word_pos (reserve p * l) (s.total_liquidities p) pos in
      let taken = sub_word_fits u128_size t.checks (s.account_liquidities p account) l has in
      let less = sub_word_fits u128_size t.checks (u.total_liquidities p) l (rw same within) in
      ground (
        arith, first, second, mul_inherent, div_inherent, mul_paired, div_paired, taken, less, same,
      )

  take_removes :
      (w u : Exchange)
      → p ≢ inherent
      → l ≤ s.account_liquidities p account
      → l ≤ s.total_liquidities p
      → Given inherent address account (part inherent) s w
      → Given p address account (part p) w u
      → Removed inherent p account address l s (written u)
  take_removes w u other has within g h =
      let left : (written u).total_liquidities p ≡ s.total_liquidities p - l =
        ground (arith, g.totals, h.totals) in
      let inherent_left : u.assets.balances inherent address ≡ reserve inherent - part inherent =
        omega (arith, g.lowered, h.others inherent address (λ e. other (sym e))) in
      let paired_left : u.assets.balances p address ≡ reserve p - part p =
        omega (arith, h.lowered, g.others p address other) in
      record {
        inherent_paid = omega (arith, g.raised, h.others inherent account (λ e. other (sym e)));
        paired_paid = omega (arith, g.others p account other, h.raised);
        share = ground (arith, g.shares, h.shares);
        total = ground (arith, g.totals, h.totals);
        inherent_fair =
            rw (left, inherent_left) (part_fair (reserve inherent) l (s.total_liquidities p));
        paired_fair = rw (left, paired_left) (part_fair (reserve p) l (s.total_liquidities p));
      }

  -- Where the account, not the pool's own, has the liquidity, the pool has it in its total, and the
  -- products and sums fit a u128: the removal succeeds and pays the account its part of both
  -- balances of the pool, rounded down, lowers the account's liquidity and the total alike, and
  -- leaves the other shares worth no less than before. The two minima are not looked at: this holds
  -- also where they are above what is paid.
  pub take_liquidity_pays :
      p ≢ inherent
      → account ≢ address
      → 0 < s.total_liquidities p
      → l ≤ s.account_liquidities p account
      → l ≤ s.total_liquidities p
      → reserve inherent * l < u128_size
      → reserve p * l < u128_size
      → reserve inherent + s.assets.balances inherent account < u128_size
      → reserve p + s.assets.balances p account < u128_size
      → (v : Exchange) × (take_liquidity t account p l low low' s ≡ ok tt v)
        × Removed inherent p account address l s v
  take_liquidity_pays other apart pos has within fits fits' sum sum' =
      let (w, first, g) =
        transfer-Given t.checks inherent address account (part inherent) s (λ e. apart (sym e))
          (part-le (reserve inherent) l (s.total_liquidities p) within) sum in
      let (u, second, h) =
        transfer-Given t.checks p address account (part p) w (λ e. apart (sym e))
          (rw (g.others p address other) (part-le (reserve p) l (s.total_liquidities p) within))
          (rw (g.others p address other, g.others p account other) sum') in
      (
        written u,
        take_runs w u first second (h.totals ∙ g.totals) pos has within fits fits',
        take_removes w u other has within g h,
      )
