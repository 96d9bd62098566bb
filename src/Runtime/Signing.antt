-- ===== src/Runtime/Signing.antt =====
-- runtime/src/lib.rs: `create_transaction`, which signs a call for the offchain workers. The era,
-- the payload and the keys are Substrate's, parameters: `none` is an error.
use konomi_node.Base.{ℕ, ◌-◌, Option, some, List, [], ◌∷◌}
use konomi_node.Base.Panic.{◌>>=◌}
use konomi_node.Runtime.Constants.{block_hash_count}

-- The signed extensions, in the order of `SignedExtra`.
pub data Check (Era : Type 0) : Type 0 where
  check_spec_version check_tx_version check_genesis check_weight : Check Era
  check_era : Era → Check Era
  check_nonce charge_transaction_payment : ℕ → Check Era

-- `Era::mortal`, `SignedPayload::new` and `deconstruct`, and `C::sign` on the encoded payload.
pub record Signer (Era Call Payload Public Signature : Type 0) : Type 0 where
  pub mortal : ℕ → ℕ → Era
  pub new_payload : Call → List (Check Era) → Option Payload
  pub deconstruct : Payload → Call × List (Check Era)
  pub sign : Payload → Public → Option Signature

module _ {Era Call Payload Public Signature : Type 0}
    (signer : Signer Era Call Payload Public Signature) where
  -- `SignedExtra`; subtraction saturates, as in the source.
  abbrev pub signed_extra : ℕ → ℕ → List (Check Era)
  signed_extra block_number index =
      check_spec_version
      ∷ check_tx_version
      ∷ check_genesis
      ∷ check_era (signer.mortal block_hash_count (block_number - 1))
      ∷ check_nonce index
      ∷ check_weight
      ∷ charge_transaction_payment 0
      ∷ []

  unfoldable pub create_transaction :
      ℕ → Call → Public → ℕ → ℕ → Option (Call × ℕ × Signature × List (Check Era))
  create_transaction block_number call public account index = do
    raw_payload ← signer.new_payload call (signed_extra block_number index)
    signature ← signer.sign raw_payload public
    let (call', extra) = signer.deconstruct raw_payload
    some (call', account, signature, extra)
