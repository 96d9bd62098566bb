-- ===== src/Swap/Encoding.antt =====
-- pallets/swap/src/lib.rs: different pools have different address preimages.
use konomi_node.Base.{
  ℕ, zero, suc, ◌+◌, ◌*◌, ◌/◌, ◌^◌, ◌<◌, ◌≡◌, refl, ap, List, [], ◌∷◌, ◌++◌, arith, u64_size,
}
use mathlib.Core.List.{append_cancel_left}
use native.Mathlib.Nat.{pow-succ'}
use konomi_node.Swap.Address.{le_bytes, u64_to_bytes, prefix, address_preimage}

-- The number that bytes stand for, the lowest first.
abbrev of_bytes : List ℕ → ℕ
of_bytes [] = 0
of_bytes (b ∷ bs) = b + 256 * of_bytes bs

-- The bytes of a number below 256 ^ n give it back.
of_bytes-le_bytes : (n x : ℕ) → x < 256 ^ n → of_bytes (le_bytes n x) ≡ x
unfolding le_bytes
of_bytes-le_bytes zero x h = omega arith
of_bytes-le_bytes (suc n) x h =
    let bound : x < 256 * 256 ^ n = rw (← pow-succ' 256 n) h in
    omega (arith, of_bytes-le_bytes n (x / 256) (omega (arith, bound)), bound)

-- A list of 8 bytes and a rest are found back.
le_bytes-append_injective :
    (n x y : ℕ) (xs ys : List ℕ)
    → le_bytes n x ++ xs ≡ le_bytes n y ++ ys
    → (le_bytes n x ≡ le_bytes n y) × (xs ≡ ys)
unfolding le_bytes
le_bytes-append_injective zero x y xs ys e = (refl, e)
le_bytes-append_injective (suc n) x y xs ys e =
    grind (arith, le_bytes-append_injective n (x / 256) (y / 256) xs ys)

le_bytes_injective : (x y : ℕ) → x < u64_size → y < u64_size → le_bytes 8 x ≡ le_bytes 8 y → x ≡ y
le_bytes_injective x y hx hy e =
    omega (arith, of_bytes-le_bytes 8 x hx, of_bytes-le_bytes 8 y hy, ap of_bytes e)

-- Two pairs of 64-bit identifiers with the same preimage are the same pair.
pub address_preimage_injective :
    (a b c d : ℕ)
    → a < u64_size
    → b < u64_size
    → c < u64_size
    → d < u64_size
    → address_preimage a b ≡ address_preimage c d
    → (a ≡ c) × (b ≡ d)
unfolding address_preimage u64_to_bytes
address_preimage_injective a b c d ha hb hc hd e =
    let (first, second) =
      le_bytes-append_injective 8 a c (u64_to_bytes b) (u64_to_bytes d)
        (append_cancel_left prefix _ _ e) in
    (le_bytes_injective a c ha hc first, le_bytes_injective b d hb hd second)
