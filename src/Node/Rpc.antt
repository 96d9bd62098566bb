-- ===== src/Node/Rpc.antt =====
-- pallets/lending/rpc/src/lib.rs and pallets/swap/rpc/src/lib.rs: the RPC methods, which ask the
-- runtime API at a block. The client is sp_api's and sp_blockchain's, a parameter: the hash of
-- its best block, and the calls of the runtime API at a block, which may fail. `debug` is how an
-- API error is written by `{:?}`.
use Prim.Native.String.{String}
use konomi_node.Base.{ℕ, Option, none, some}

pub data Result (E A : Type 0) : Type 0 where
  success : A → Result E A
  failure : E → Result E A

-- `jsonrpc_core::Error`, with the number of `ErrorCode::ServerError`.
pub record RpcError : Type 0 where
  pub code : ℕ
  pub message : String
  pub data_text : String

-- The first argument of a call is the hash of a block.
pub record Client (ApiError : Type 0) : Type 0 where
  pub best_hash : ℕ
  pub debug : ApiError → String
  pub supply_rate_at : ℕ → ℕ → Result ApiError ℕ
  pub debt_rate_at : ℕ → ℕ → Result ApiError ℕ
  pub user_info_at : ℕ → ℕ → Result ApiError (ℕ × ℕ × ℕ)
  pub user_debt_at : ℕ → ℕ → ℕ → Result ApiError ℕ
  pub user_supply_at : ℕ → ℕ → ℕ → Result ApiError ℕ
  pub output_at : ℕ → ℕ → ℕ → ℕ → Result ApiError ℕ

module _ {ApiError : Type 0} (client : Client ApiError) where
  -- `at.unwrap_or_else(|| self.client.info().best_hash)`
  abbrev pub block_of : Option ℕ → ℕ
  block_of none = client.best_hash
  block_of (some hash) = hash

  -- `runtime_api_result.map_err(..)`
  abbrev pub or_rpc_error : {A : Type 0} → Result ApiError A → Result RpcError A
  or_rpc_error (success a) = success a
  or_rpc_error (failure e) =
      failure record { code = 9876; message = "Something wrong"; data_text = client.debug e }

  unfoldable pub supply_rate : ℕ → Option ℕ → Result RpcError ℕ
  supply_rate id at = or_rpc_error (client.supply_rate_at (block_of at) id)

  unfoldable pub debt_rate : ℕ → Option ℕ → Result RpcError ℕ
  debt_rate id at = or_rpc_error (client.debt_rate_at (block_of at) id)

  unfoldable pub get_user_info : ℕ → Option ℕ → Result RpcError (ℕ × ℕ × ℕ)
  get_user_info user at = or_rpc_error (client.user_info_at (block_of at) user)

  unfoldable pub get_user_debt_with_interest : ℕ → ℕ → Option ℕ → Result RpcError ℕ
  get_user_debt_with_interest asset_id user at =
      or_rpc_error (client.user_debt_at (block_of at) asset_id user)

  unfoldable pub get_user_supply_with_interest : ℕ → ℕ → Option ℕ → Result RpcError ℕ
  get_user_supply_with_interest asset_id user at =
      or_rpc_error (client.user_supply_at (block_of at) asset_id user)

  unfoldable pub calculate_output : ℕ → ℕ → ℕ → Option ℕ → Result RpcError ℕ
  calculate_output in_id out_id amount_in at =
      or_rpc_error (client.output_at (block_of at) in_id out_id amount_in)
