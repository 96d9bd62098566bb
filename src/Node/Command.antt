-- ===== src/Node/Command.antt =====
-- node/src/command.rs: `load_spec`, which chain the node is started on, and `run`, what a command
-- does. The reader of a chain specification's file is sc_service's, a parameter; `none` is an
-- error. The commands themselves are sc_cli's.
use Prim.Native.String.{String}
use text.Mathlib.Text.{◌==◌}
use konomi_node.Base.{ℕ, Option, none, some, List, [], ◌∷◌, Bool, fail, ◌>>◌, ◌||◌, if◌then◌else◌}
use konomi_node.Node.Service.{
  Libraries, Configuration, Start, Subcommand, build_spec, check_block, export_blocks, export_state,
  import_blocks, purge_chain, revert, benchmark, Component, chain_spec, network_config, client,
  queue, database, backend, executor, command_run, runner, command, log, require, new_partial,
  new_full, new_light,
}
use konomi_node.Node.ChainSpec.{Keys, ChainSpec, development_config, local_testnet_config}

-- `wasm_binary` is the runtime's, where it was built.
unfoldable pub load_spec :
    Keys → Option (List ℕ) → (String → Option ChainSpec) → String → Option ChainSpec
load_spec keys wasm_binary from_json_file id =
    if id == "dev"
    then development_config keys wasm_binary
    else if id == "" || id == "local"
    then local_testnet_config keys wasm_binary
    else from_json_file id

module _ {E : Type 0} (libraries : Libraries E) where
  -- `cmd.run(..)`
  unfoldable pub run_command : Subcommand → List Component → Start E
  run_command cmd parts = do log libraries (command_run cmd parts); require libraries command

  -- A command that needs the parts of a full client.
  unfoldable pub run_with_client : Subcommand → List Component → Start E
  unfolding run_command new_partial
  run_with_client cmd parts = do new_partial libraries; run_command cmd parts

  -- The node itself: `match config.role`
  unfoldable pub run_node : Configuration → Start E
  run_node config =
      if config.role.is_light then new_light libraries config else new_full libraries config

  -- `benchmarks` is the feature "runtime-benchmarks", `disabled` the error where it is off.
  unfoldable pub run : Bool → E → Configuration → Option Subcommand → Start E
  unfolding run_command run_with_client run_node
  run benchmarks disabled config (some build_spec) = do
    require libraries runner
    run_command build_spec (chain_spec ∷ network_config ∷ [])
  run benchmarks disabled config (some check_block) = do
    require libraries runner
    run_with_client check_block (client ∷ queue ∷ [])
  run benchmarks disabled config (some export_blocks) = do
    require libraries runner
    run_with_client export_blocks (client ∷ database ∷ [])
  run benchmarks disabled config (some export_state) = do
    require libraries runner
    run_with_client export_state (client ∷ chain_spec ∷ [])
  run benchmarks disabled config (some import_blocks) = do
    require libraries runner
    run_with_client import_blocks (client ∷ queue ∷ [])
  run benchmarks disabled config (some purge_chain) = do
    require libraries runner
    run_command purge_chain (database ∷ [])
  run benchmarks disabled config (some revert) = do
    require libraries runner
    run_with_client revert (client ∷ backend ∷ [])
  run benchmarks disabled config (some benchmark) =
      if benchmarks
      then (do require libraries runner; run_command benchmark (executor ∷ []))
      else fail disabled
  run benchmarks disabled config none = do require libraries runner; run_node config
