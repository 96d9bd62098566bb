-- ===== src/Swap/Returned.antt =====
-- pallets/swap/src/lib.rs: `_add_liquidity` to a pool that has liquidity, and what the account gets
-- when it takes out at once what it was given for it.
use konomi_node.Base.{
  ℕ, ◌+◌, ◌-◌, ◌*◌, ◌/◌, ◌≤◌, ◌<◌, ◌≡◌, ◌≢◌, refl, sym, ◌∙◌, ◌∷◌, subst, dec_lt, ◌⊎◌, inl, inr,
  arith, ok, u128_size, update, update₂, mul_word_fits, add_word_fits, div_word_pos,
}
use native.Mathlib.Nat.{
  div-le_of_le-mul, mul-le-mul_left, mul-le-mul_right, mul_comm, mul-div-le, le_of_mul-le-mul_left,
}
use konomi_node.Swap.State.{Exchange, Config, transfer, reserve_changed}
use konomi_node.Swap.Exchange.{report_reserves}
use konomi_node.Swap.Liquidity.{
  inject_liquidity, more_liquidity, increase_total_liquidity, take_liquidity,
}
use konomi_node.Swap.Provided.{Given, transfer-Given, Removed, take_liquidity_pays}

-- What `_add_liquidity` makes of an exchange, `minted` being the new liquidity.
record Added (i p account address x y minted : ℕ) (s u : Exchange) : Type 0 where
  pub inherent_charged : u.assets.balances i account ≡ s.assets.balances i account - x
  pub inherent_reserve : u.assets.balances i address ≡ s.assets.balances i address + x
  pub paired_charged : u.assets.balances p account ≡ s.assets.balances p account - y
  pub paired_reserve : u.assets.balances p address ≡ s.assets.balances p address + y
  pub share : u.account_liquidities p account ≡ s.account_liquidities p account + minted
  pub total : u.total_liquidities p ≡ s.total_liquidities p + minted
  pub settings : u.assets.inherent_asset ≡ s.assets.inherent_asset

-- Of a reserve `r` with `x` more, the share `m` of `t` and `m` more is at most `x`, where `m` is at
-- most `x`'s proportion of `t`.
share-le : (r x t m : ℕ) → m * r ≤ t * x → (r + x) * m / (t + m) ≤ x
share-le r x t m h = div-le_of_le-mul (t + m) (grind (arith, h))

-- The same of the other asset, where `y` is at least in proportion to `x`.
proportion-le : (r a x y t : ℕ) → 0 < r → a * x ≤ y * r → t * x / r * a ≤ t * y
proportion-le r a x y t pos h =
    let one = mul-le-mul_right a (mul-div-le (t * x) r) in
    let two = mul-le-mul_left t h in le_of_mul-le-mul_left {k = r} (grind (arith, one, two)) pos

module _ (t : Config) (account p x y low : ℕ) (s : Exchange) where
  abbrev inherent : ℕ
  inherent = s.assets.inherent_asset

  abbrev address : ℕ
  address = t.make_exchange_address inherent p

  abbrev reserve : ℕ → ℕ
  reserve id = s.assets.balances id address

  abbrev minted : ℕ
  minted = s.total_liquidities p * x / reserve inherent

  abbrev written : Exchange → Exchange
  written u = record u {
    account_liquidities =
        update₂ u.account_liquidities p account (u.account_liquidities p account + minted);
    total_liquidities = update u.total_liquidities p (u.total_liquidities p + minted);
    exchange_accounts = update u.exchange_accounts p address;
    events =
        reserve_changed inherent (u.assets.balances inherent address)
        ∷ reserve_changed p (u.assets.balances p address)
        ∷ u.events;
  }

  inject_runs :
      (w u : Exchange)
      → transfer t.checks account inherent address x s ≡ ok tt w
      → transfer t.checks account p address y w ≡ ok tt u
      → u.total_liquidities ≡ s.total_liquidities
      → u.account_liquidities ≡ s.account_liquidities
      → 0 < s.total_liquidities p
      → 0 < reserve inherent
      → s.total_liquidities p * x < u128_size
      → s.account_liquidities p account + minted < u128_size
      → s.total_liquidities p + minted < u128_size
      → inject_liquidity t account p x y low s ≡ ok tt (written u)
  unfolding inject_liquidity more_liquidity report_reserves increase_total_liquidity
  inject_runs w u first second same same' some_total some_reserve fits fits' fits'' =
      let product = mul_word_fits u128_size t.checks (s.total_liquidities p) x fits in
      let quotient = div_word_pos (s.total_liquidities p * x) (reserve inherent) some_reserve in
      let given =
        add_word_fits u128_size t.checks (u.account_liquidities p account) minted
          (rw same' fits') in
      let more = add_word_fits u128_size t.checks (u.total_liquidities p) minted (rw same fits'') in
      ground (arith, first, second, product, quotient, given, more)

  inject_adds :
      (w u : Exchange)
      → p ≢ inherent
      → Given inherent account address x s w
      → Given p account address y w u
      → Added inherent p account address x y minted s (written u)
  inject_adds w u other g h = record {
    inherent_charged = omega (arith, g.lowered, h.others inherent account (λ e. other (sym e)));
    inherent_reserve = omega (arith, g.raised, h.others inherent address (λ e. other (sym e)));
    paired_charged = omega (arith, h.lowered, g.others p account other);
    paired_reserve = omega (arith, h.raised, g.others p address other);
    share = ground (arith, g.shares, h.shares);
    total = ground (arith, g.totals, h.totals);
    settings = h.settings ∙ g.settings;
  }

  -- What the account gets back where it takes out at once what it was given: the pool's liquidity
  -- is as before, and the account has no more of the inherent asset; nor of the paired one, if it
  -- put in at least in proportion.
  pub record Back (v : Exchange) : Type 0 where
    pub share : v.account_liquidities p account ≡ s.account_liquidities p account
    pub total : v.total_liquidities p ≡ s.total_liquidities p
    pub inherent_back :
        v.assets.balances inherent account
        ≡ s.assets.balances inherent account
          - x
          + (reserve inherent + x) * minted / (s.total_liquidities p + minted)
    pub paired_back :
        v.assets.balances p account
        ≡ s.assets.balances p account
          - y
          + (reserve p + y) * minted / (s.total_liquidities p + minted)
    pub no_gain : v.assets.balances inherent account ≤ s.assets.balances inherent account
    pub fair :
        (y * reserve inherent < reserve p * x)
        ⊎ (v.assets.balances p account ≤ s.assets.balances p account)

  returned-Back :
      (u v : Exchange)
      → Added inherent p account address x y minted s u
      → Removed inherent p account address minted u v
      → x ≤ s.assets.balances inherent account
      → y ≤ s.assets.balances p account
      → 0 < reserve inherent
      → Back v
  returned-Back u v a r enough enough' pos =
      let total = s.total_liquidities p in
      let inherent_back : v.assets.balances inherent account
          ≡ s.assets.balances inherent account
            - x
            + (reserve inherent + x) * minted / (total + minted) =
        rw (r.inherent_paid, a.inherent_charged, a.inherent_reserve, a.total) refl in
      let paired_back : v.assets.balances p account
          ≡ s.assets.balances p account - y + (reserve p + y) * minted / (total + minted) =
        rw (r.paired_paid, a.paired_charged, a.paired_reserve, a.total) refl in
      let at_most = mul-div-le (total * x) (reserve inherent) in
      let part =
        share-le (reserve inherent) x total minted
          (omega (arith, at_most, mul_comm minted (reserve inherent))) in
      record {
        share = omega (arith, a.share, r.share);
        total = omega (arith, a.total, r.total);
        inherent_back = inherent_back;
        paired_back = paired_back;
        no_gain = omega (arith, inherent_back, part);
        fair = elim (dec_lt (y * reserve inherent) (reserve p * x)) [
          | yes short ↦ inl short
          | no even ↦
              let in_proportion =
                proportion-le (reserve inherent) (reserve p) x y total pos (omega arith) in
              let part' = share-le (reserve p) y total minted in_proportion in
              inr (omega (arith, paired_back, part'))
        ];
      }

  take_back :
      (low' low_paired : ℕ) (u : Exchange)
      → Added inherent p account address x y minted s u
      → p ≢ inherent
      → account ≢ address
      → 0 < s.total_liquidities p
      → x ≤ s.assets.balances inherent account
      → y ≤ s.assets.balances p account
      → s.assets.balances inherent account + reserve inherent < u128_size
      → s.assets.balances p account + reserve p < u128_size
      → (reserve inherent + x) * minted < u128_size
      → (reserve p + y) * minted < u128_size
      → (v : Exchange) × (take_liquidity t account p minted low' low_paired u ≡ ok tt v)
        × Removed inherent p account address minted u v
  take_back low' low_paired u a other apart pos enough enough' sum sum' product product' =
      subst
        (λ i.
          (v : Exchange) × (take_liquidity t account p minted low' low_paired u ≡ ok tt v)
          × Removed i p account (t.make_exchange_address i p) minted u v)
        a.settings
        (take_liquidity_pays t account p minted low' low_paired u (rw a.settings other)
          (rw a.settings apart) (omega (arith, a.total)) (omega (arith, a.share))
          (omega (arith, a.total)) (rw (a.settings, a.inherent_reserve) product)
          (rw (a.settings, a.paired_reserve) product')
          (rw (a.settings, a.inherent_reserve, a.inherent_charged) (omega arith))
          (rw (a.settings, a.paired_reserve, a.paired_charged) (omega arith)))

  -- In a pool with liquidity and a reserve of the inherent asset, where the account, not the pool's
  -- own, has both amounts, and the sums and products fit a u128: adding liquidity succeeds, taking
  -- out at once what was minted for it succeeds too, and then the pool's liquidity is as before, the
  -- account has its part of both reserves in place of the amounts, no more of the inherent asset
  -- than before, and no more of the paired one if it put in at least in proportion to the reserves.
  -- The three minima are not looked at: this holds also where they are above what is minted or paid.
  pub add_then_remove :
      (low' low_paired : ℕ)
      → p ≢ inherent
      → account ≢ address
      → 0 < s.total_liquidities p
      → 0 < reserve inherent
      → x ≤ s.assets.balances inherent account
      → y ≤ s.assets.balances p account
      → s.assets.balances inherent account + reserve inherent < u128_size
      → s.assets.balances p account + reserve p < u128_size
      → s.total_liquidities p * x < u128_size
      → s.account_liquidities p account + minted < u128_size
      → s.total_liquidities p + minted < u128_size
      → (reserve inherent + x) * minted < u128_size
      → (reserve p + y) * minted < u128_size
      → (u : Exchange) × (v : Exchange) × (inject_liquidity t account p x y low s ≡ ok tt u)
        × (take_liquidity t account p minted low' low_paired u ≡ ok tt v)
        × Back v
  add_then_remove low' low_paired other apart pos pos' enough enough' sum sum' fits share total
        product product' =
      let (w, first, g) = transfer-Given t.checks inherent account address x s apart enough sum in
      let (z, second, h) =
        transfer-Given t.checks p account address y w apart (rw (g.others p account other) enough')
          (rw (g.others p address other, g.others p account other) sum') in
      let u = written z in
      let a = inject_adds w z other g h in
      let (v, taken, r) =
        take_back low' low_paired u a other apart pos enough enough' sum sum' product product' in
      (
        u,
        v,
        inject_runs w z first second (h.totals ∙ g.totals) (h.shares ∙ g.shares) pos pos' fits share
            total,
        taken,
        returned-Back u v a r enough enough' pos',
      )
