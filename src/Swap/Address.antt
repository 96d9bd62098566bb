-- ===== src/Swap/Address.antt =====
-- pallets/swap/src/lib.rs: the account of an exchange pool. The hash is frame_system's, a
-- parameter; bytes are numbers below 256.
use konomi_node.Base.{ℕ, zero, suc, ◌+◌, ◌/◌, ◌%◌, List, [], ◌∷◌, ◌++◌, u64_size}

-- The first `n` bytes of a number, the lowest first.
unfoldable pub le_bytes : ℕ → ℕ → List ℕ
le_bytes zero x = []
le_bytes (suc n) x = x % 256 ∷ le_bytes n (x / 256)

unfoldable pub u64_to_bytes : ℕ → List ℕ
unfolding le_bytes
u64_to_bytes x = le_bytes 8 x

-- b"substrate-uniswap:"
abbrev pub prefix : List ℕ
prefix =
    b's' ∷ b'u' ∷ b'b' ∷ b's' ∷ b't' ∷ b'r' ∷ b'a' ∷ b't' ∷ b'e' ∷ b'-' ∷ b'u' ∷ b'n' ∷ b'i' ∷ b's'
    ∷ b'w' ∷ b'a' ∷ b'p' ∷ b':' ∷ []

unfoldable pub address_preimage : ℕ → ℕ → List ℕ
unfolding u64_to_bytes
address_preimage inherent_asset_id asset_id =
    prefix ++ (u64_to_bytes inherent_asset_id ++ u64_to_bytes asset_id)

-- `ExchangeAddress`
unfoldable pub hashed_address : (List ℕ → ℕ) → ℕ → ℕ → ℕ
unfolding address_preimage
hashed_address hash inherent_asset_id asset_id = hash (address_preimage inherent_asset_id asset_id)

-- `ExchangeAddressMock`; the sum wraps, as in a build without overflow checks.
unfoldable pub mock_address : ℕ → ℕ → ℕ
mock_address inherent_asset_id asset_id = (10000 + asset_id) % u64_size
