-- ===== src/Swap/Product.antt =====
-- pallets/swap/src/lib.rs: what the two prices promise of a pool, and what the second one does.
use konomi_node.Base.{
  ℕ, ◌+◌, ◌-◌, ◌*◌, ◌/◌, ◌≤◌, ◌<◌, ◌≡◌, true, arith, ok, add_word, mul_word, div_word, u128_size,
  subst,
}
use native.Mathlib.Nat.{
  mul-sub, mul-div-le, lt-mul-div-succ, div-lt_iff_lt-mul, mul-lt-mul_of_pos_left,
}
use konomi_node.Swap.State.{Exchange, Config}
use konomi_node.Swap.Pricing.{calc_output_at_known_input, calc_input_at_known_output}

-- The pool's part of the output asset falls by the quotient at most as the product allows.
quotient-lt : (a i o : ℕ) → 0 < i → 0 < o → o * a / (a + i) < o
quotient-lt a i o hi ho = (div-lt_iff_lt-mul (omega arith)).1 (grind arith)

quotient_product : (a i o : ℕ) → 0 < i → 0 < o → i * o ≤ (i + a) * (o - o * a / (a + i))
quotient_product a i o hi ho =
    rw (mul-sub (i + a) o (o * a / (a + i))) (omega (arith, mul-div-le (o * a) (a + i)))

quotient_best : (a i o : ℕ) → 0 < i → 0 < o → (i + a) * (o - (o * a / (a + i) + 1)) < i * o
quotient_best a i o hi ho =
    rw (mul-sub (i + a) o (o * a / (a + i) + 1))
      (omega (arith, lt-mul-div-succ (o * a) {b = a + i} (omega arith), mul-pos))
  where
    mul-pos : 0 < i * o
    mul-pos = grind arith

drained_by : (a i k : ℕ) → 0 < a → k < i → (i + a) * k < i * (k + a)
drained_by a i k pos poor = let less = mul-lt-mul_of_pos_left poor pos in grind arith

drained : (a i o : ℕ) → 0 < a → a < o → o - a < i → (i + a) * (o - a) < i * o
drained a i o pos lt poor =
    let e : o - a + a ≡ o = omega arith in
    subst (λ z. (i + a) * (o - a) < i * z) e (drained_by a i (o - a) pos poor)

module _ (t : Config) (amount input_part output_part fee_rate : ℕ) (s : Exchange) where
  -- With both parts of the pool present and the product in range, the output is the quotient.
  pub calc_output_lem :
      0 < input_part
      → 0 < output_part
      → amount + input_part < u128_size
      → output_part * amount < u128_size
      → calc_output_at_known_input t amount input_part output_part fee_rate s
        ≡ ok (output_part * amount / (amount + input_part)) s
  unfolding calc_output_at_known_input add_word mul_word div_word
  calc_output_lem hi ho hs hp = ground arith

  -- Under overflow checks a quote is given only where nothing overflows.
  calc_output_inverse :
      {out : ℕ} {s' : Exchange}
      → t.checks ≡ true
      → calc_output_at_known_input t amount input_part output_part fee_rate s ≡ ok out s'
      → (0 < input_part)
        × (0 < output_part)
        × (out ≡ output_part * amount / (amount + input_part))
        × (s' ≡ s)
  unfolding calc_output_at_known_input add_word mul_word div_word
  calc_output_inverse c h = ground arith

  -- Where the build has overflow checks: a quoted output for an exact input leaves something in
  -- the pool, keeps the product of its two parts from falling, and is the largest that does. The
  -- quote writes no storage.
  pub calc_output-keeps_product :
      {out : ℕ} {s' : Exchange}
      → t.checks ≡ true
      → calc_output_at_known_input t amount input_part output_part fee_rate s ≡ ok out s'
      → (out < output_part)
        × (input_part * output_part ≤ (input_part + amount) * (output_part - out))
        × ((input_part + amount) * (output_part - (out + 1)) < input_part * output_part)
        × (s' ≡ s)
  calc_output-keeps_product c h =
      let (hi, ho, e, same) = calc_output_inverse c h in
      rw e (
        quotient-lt amount input_part output_part hi ho,
        quotient_product amount input_part output_part hi ho,
        quotient_best amount input_part output_part hi ho,
        same,
      )

  -- A quoted input for an exact output below the pool's part is the output amount itself,
  -- whatever the parts of the pool are.
  pub calc_input-eq_output :
      {cost : ℕ} {s' : Exchange}
      → calc_input_at_known_output t amount input_part output_part fee_rate s ≡ ok cost s'
      → amount < output_part
      → cost ≡ amount
  unfolding calc_input_at_known_output
  calc_input-eq_output h lt = ground arith

  -- So where the pool would hold less of the output asset than it holds of the input asset, the
  -- quoted input is too small: the product of the two parts falls.
  pub calc_input_drains :
      {cost : ℕ} {s' : Exchange}
      → calc_input_at_known_output t amount input_part output_part fee_rate s ≡ ok cost s'
      → 0 < amount
      → amount < output_part
      → output_part - amount < input_part
      → (input_part + cost) * (output_part - amount) < input_part * output_part
  calc_input_drains h pos lt poor =
      rw (calc_input-eq_output h lt) (drained amount input_part output_part pos lt poor)
