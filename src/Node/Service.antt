-- ===== src/Node/Service.antt =====
-- node/src/service.rs and node/src/rpc.rs: how a full and a light node are put together. The
-- libraries of Substrate are a parameter: which of the calls that may fail do so. What is kept is
-- the order of the calls, and a log of what the node has set to work.
use Prim.Native.String.{String}
use konomi_node.Base.{
  ℕ, Bool, true, false, not, Option, none, some, List, [], ◌∷◌, Action, ok, err, ◌>>◌, pure, modify,
  if◌then◌else◌,
}

-- The calls that end in `?`.
pub data Part : Type 0 where
  full_parts grandpa_import import_slot_duration import_queue network tasks : Part
  authoring_slot_duration aura voter disabled_grandpa light_parts light_import : Part
  runner command : Part

-- Which calls fail, and with what error.
abbrev pub Libraries : Type 0 → Type 0
Libraries E = Part → Option E

-- `sc_service::Role`: what it answers.
pub record Role : Type 0 where
  pub is_light : Bool
  pub is_authority : Bool
  pub is_network_authority : Bool

-- `sc_service::Configuration`, as far as the code looks into it.
pub record Configuration : Type 0 where
  pub role : Role
  pub force_authoring : Bool
  pub node_name : String
  pub disable_grandpa : Bool
  pub offchain_worker_enabled : Bool

-- `sc_finality_grandpa::Config`; the keystore is there or not.
pub record GrandpaConfig : Type 0 where
  pub gossip_milliseconds : ℕ
  pub justification_period : ℕ
  pub name : String
  pub observer_enabled : Bool
  pub has_keystore : Bool
  pub is_authority : Bool

-- The APIs of the RPC handler; the first one is told whether to deny unsafe calls.
pub data Extension : Type 0 where
  system_api : Bool → Extension
  transaction_payment_api swap_api lending_api : Extension

-- `create_full`
unfoldable pub create_full : Bool → List Extension
create_full deny_unsafe =
    system_api deny_unsafe ∷ transaction_payment_api ∷ swap_api ∷ lending_api ∷ []

-- What the other commands of the node are given.
pub data Component : Type 0 where
  chain_spec network_config client queue database backend executor : Component

pub data Subcommand : Type 0 where
  build_spec check_block export_blocks export_state import_blocks purge_chain revert : Subcommand
  benchmark : Subcommand

-- `network_built` says whether it asks for data on demand, `tasks_spawned` how the RPC handler is
-- built, and for a light node that it is, with a remote chain.
pub data Event : Type 0 where
  network_built : Bool → Event
  offchain_workers_built : Event
  tasks_spawned : (Bool → List Extension) → Bool → Event
  authoring_spawned : Bool → Event
  voter_spawned : GrandpaConfig → Event
  grandpa_disabled : Event
  network_started : Event
  command_run : Subcommand → List Component → Event

abbrev pub Start : Type 0 → Type 0
Start E = Action E (List Event) (Unit {0})

abbrev pub grandpa_config : Configuration → GrandpaConfig
grandpa_config config = record {
  gossip_milliseconds = 333;
  justification_period = 512;
  name = config.node_name;
  observer_enabled = false;
  has_keystore = config.role.is_authority;
  is_authority = config.role.is_network_authority;
}

module _ {E : Type 0} (libraries : Libraries E) where
  abbrev pub log : Event → Start E
  log e = modify (λ events. e ∷ events)

  -- `part(..)?`
  abbrev pub require : Part → Start E
  require part events = elim (libraries part) [ none ↦ ok tt events | some e ↦ err e events ]

  unfoldable pub new_partial : Start E
  new_partial = do
    require full_parts
    require grandpa_import
    require import_slot_duration
    require import_queue

  -- `if config.offchain_worker.enabled`
  abbrev pub build_offchain_workers : Configuration → Start E
  build_offchain_workers config =
      if config.offchain_worker_enabled then log offchain_workers_built else pure tt

  -- `if role.is_authority()`
  unfoldable pub start_authoring : Configuration → Start E
  start_authoring config =
      if config.role.is_authority
      then (do
        require authoring_slot_duration
        require aura
        log (authoring_spawned config.force_authoring))
      else pure tt

  -- `if enable_grandpa`
  unfoldable pub start_grandpa : Configuration → Start E
  start_grandpa config =
      if not config.disable_grandpa
      then (do require voter; log (voter_spawned (grandpa_config config)))
      else (do require disabled_grandpa; log grandpa_disabled)

  unfoldable pub new_full : Configuration → Start E
  unfolding new_partial start_authoring start_grandpa
  new_full config = do
    new_partial
    require network
    log (network_built false)
    build_offchain_workers config
    require tasks
    log (tasks_spawned create_full false)
    start_authoring config
    start_grandpa config
    log network_started

  unfoldable pub new_light : Configuration → Start E
  new_light config = do
    require light_parts
    require light_import
    require import_slot_duration
    require import_queue
    require network
    log (network_built true)
    build_offchain_workers config
    require tasks
    log (tasks_spawned (λ deny_unsafe. []) true)
    log network_started
