-- ===== src/Node/Answers.antt =====
-- pallets/lending/rpc and pallets/swap/rpc: what a node answers whose client runs this runtime.
use konomi_node.Base.{
  ℕ, ◌≡◌, ◌≢◌, arith, Option, none, some, min, u64_size, ◌-◌, inl, inr, Option-cases, dec_lt,
}
use konomi_node.Lending.Info as Lending
use konomi_node.Runtime.State.{Chain, Platform, lending}
use konomi_node.Runtime.Calls.{lending_config}
use konomi_node.Runtime.Api as Api
use konomi_node.Runtime.Api.{Saturates}
use konomi_node.Node.Rpc.{Client, Result, success, failure, block_of, or_rpc_error, get_user_info}

-- A runtime call at a block: an error where the block is unknown or the runtime panics, else its
-- answer.
pub record Answers {ApiError A : Type 0} (chain_at : ℕ → Option Chain) (api : Chain → Option A)
    (call : ℕ → Result ApiError A) : Type 0 where
  pub answered :
      (hash : ℕ) (c : Chain) (a : A)
      → chain_at hash ≡ some c
      → api c ≡ some a
      → call hash ≡ success a
  pub unknown : (hash : ℕ) → chain_at hash ≡ none → (a : A) → call hash ≢ success a
  pub panicked :
      (hash : ℕ) (c : Chain)
      → chain_at hash ≡ some c
      → api c ≡ none
      → (a : A) → call hash ≢ success a

-- A client whose calls run this runtime on the stores of the blocks that it knows.
pub record Runs (p : Platform) (into : ℕ → ℕ) {ApiError : Type 0} (client : Client ApiError)
    (chain_at : ℕ → Option Chain) : Type 0 where
  pub supply_rates :
      (id : ℕ) → Answers chain_at (Api.supply_rate p id) (λ h. client.supply_rate_at h id)
  pub debt_rates : (id : ℕ) → Answers chain_at (Api.debt_rate p id) (λ h. client.debt_rate_at h id)
  pub user_infos :
      (user : ℕ)
      → Answers chain_at (Api.get_user_info p into user) (λ h. client.user_info_at h user)
  pub user_debts :
      (id user : ℕ)
      → Answers chain_at
          (Api.get_user_debt_with_interest p id user)
          (λ h. client.user_debt_at h id user)
  pub user_supplies :
      (id user : ℕ)
      → Answers chain_at
          (Api.get_user_supply_with_interest p id user)
          (λ h. client.user_supply_at h id user)
  pub outputs :
      (i o n : ℕ) → Answers chain_at (Api.calculate_output p i o n) (λ h. client.output_at h i o n)

module _ {ApiError : Type 0} (client : Client ApiError) (chain_at : ℕ → Option Chain) where
  unwrapped :
      {A : Type 0} (r : Result ApiError A) (a : A)
      → or_rpc_error client r ≡ success a
      → r ≡ success a
  unwrapped (success b) a e = cc
  unwrapped (failure b) a e = absurd cc

  from_success :
      {A : Type 0} (api : Chain → Option A) (call : ℕ → Result ApiError A)
      → Answers chain_at api call
      → (hash : ℕ) (a : A) → call hash ≡ success a
      → (c : Chain) × (chain_at hash ≡ some c) × (api c ≡ some a)
  from_success api call answers hash a h = elim (Option-cases (chain_at hash)) [
    | inl e ↦ absurd (answers.unknown hash e a h)
    | inr (c, e) ↦ elim (Option-cases (api c)) [
      | inl f ↦ absurd (answers.panicked hash c e f a h)
      | inr (b, f) ↦ let g = answers.answered hash c b e f in (c, e, cc)
    ]
  ]

into_min : (into : ℕ → ℕ) → Saturates into → (n : ℕ) → into n ≡ min n (u64_size - 1)
into_min into s n = elim (dec_lt n u64_size) [
  | yes lt ↦ rw (s.keeps n lt) (omega arith)
  | no ge ↦ rw (s.caps n (omega arith)) (omega arith)
]

capped_info :
    (p : Platform) (into : ℕ → ℕ)
    → Saturates into
    → (user : ℕ) (c : Chain) (a b d : ℕ) → Api.get_user_info p into user c ≡ some (a, b, d)
    → (x : ℕ) × (y : ℕ) × (z : ℕ) × (Lending.get_user_info (lending_config p) user (lending c)
        ≡ some (x, y, z))
      × (a ≡ min x (u64_size - 1))
      × (b ≡ min y (u64_size - 1))
      × (d ≡ min z (u64_size - 1))
unfolding Api.get_user_info
capped_info p into s user c a b d h =
    elim (Option-cases (Lending.get_user_info (lending_config p) user (lending c))) [
      | inl e ↦ absurd (ground arith)
      | inr ((x, y, z), e) ↦
          let u = into_min into s x in
          let v = into_min into s y in
          let w = into_min into s z in (x, y, z, e, ground arith, ground arith, ground arith)
    ]

module _ (p : Platform) (into : ℕ → ℕ) {ApiError : Type 0} (client : Client ApiError)
    (chain_at : ℕ → Option Chain) (runs : Runs p into client chain_at) where
  -- Over a client that runs this runtime, with a conversion that saturates: what
  -- `lending_getUserInfo` answers of a block fits a u64, and each of its three values is the lending
  -- pallet's, or less, where the pallet's does not fit a u64.
  pub user_info_capped :
      (user : ℕ) (at : Option ℕ) (a b d : ℕ)
      → Saturates into
      → get_user_info client user at ≡ success (a, b, d)
      → (c : Chain) × (x : ℕ) × (y : ℕ) × (z : ℕ) × (chain_at (block_of client at) ≡ some c)
        × (Lending.get_user_info (lending_config p) user (lending c) ≡ some (x, y, z))
        × (a ≡ min x (u64_size - 1))
        × (b ≡ min y (u64_size - 1))
        × (d ≡ min z (u64_size - 1))
  unfolding get_user_info
  user_info_capped user at a b d saturates h =
      let (c, e, f) =
        from_success client chain_at (Api.get_user_info p into user)
          (λ k. client.user_info_at k user) (runs.user_infos user) (block_of client at) (a, b, d)
          (unwrapped client chain_at _ _ h) in
      let (x, y, z, g, i, j, k) = capped_info p into saturates user c a b d f in
      (c, x, y, z, e, g, i, j, k)
