-- ===== src/Node/Started.antt =====
-- node/src/service.rs and node/src/command.rs: what a node has set to work when a command ended.
use konomi_node.Base.{
  Bool, true, false, not, ◌&&◌, ◌||◌, ◌≡◌, Option, none, some, List, [], ◌∷◌, Outcome, ok, err,
  panic,
}
use konomi_node.Node.Service.{command_run}
use konomi_node.Node.Service.{
  Configuration, Subcommand, Event, offchain_workers_built, authoring_spawned, voter_spawned,
  network_started,
}

abbrev pub any : (Event → Bool) → List Event → Bool
any p [] = false
any p (e ∷ events) = p e || any p events

abbrev pub is_start : Event → Bool
is_start network_started = true
is_start _ = false

abbrev pub is_authoring : Event → Bool
is_authoring (authoring_spawned force) = true
is_authoring _ = false

-- A voter with the keystore, or one without.
abbrev pub is_voter : Bool → Event → Bool
is_voter true (voter_spawned g) = g.has_keystore
is_voter false (voter_spawned g) = not g.has_keystore
is_voter keyed _ = false

abbrev pub is_offchain : Event → Bool
is_offchain offchain_workers_built = true
is_offchain _ = false

-- A node at work: its network was started last, it authors blocks as a full node that is an
-- authority, votes as a full node unless that is switched off, with the keys of an authority
-- exactly if it is one, and has offchain workers as configured.
pub record Serves (config : Configuration) (events : List Event) : Type 0 where
  pub earlier : List Event
  pub last : events ≡ network_started ∷ earlier
  pub once : any is_start earlier ≡ false
  pub authors : any is_authoring events ≡ (not config.role.is_light && config.role.is_authority)
  pub keyed :
      any (is_voter true) events
      ≡ (not config.role.is_light && not config.disable_grandpa && config.role.is_authority)
  pub keyless :
      any (is_voter false) events
      ≡ (not config.role.is_light && not config.disable_grandpa && not config.role.is_authority)
  pub offchain : any is_offchain events ≡ config.offchain_worker_enabled

-- A command of sc_cli was run; all else is something that is set to work.
abbrev pub is_work : Event → Bool
is_work (command_run cmd parts) = false
is_work _ = true

-- No network was built or started, no offchain worker, task, author or voter set to work.
abbrev pub IsIdle : List Event → Type 0
IsIdle events = any is_work events ≡ false

-- What is logged when a command succeeds, and when it fails.
abbrev pub Expected : Configuration → Option Subcommand → List Event → Type 0
Expected config none events = Serves config events
Expected config (some cmd) events = IsIdle events

abbrev pub Failed : Option Subcommand → List Event → Type 0
Failed none events = any is_start events ≡ false
Failed (some cmd) events = IsIdle events

-- The two ends that a start has.
abbrev Ended :
    {E : Type 0}
    → (List Event → Type 0)
    → (List Event → Type 0)
    → Outcome E (List Event) (Unit {0})
    → Type 0
Ended Q I (ok _ events) = Q events
Ended Q I (err _ events) = I events
Ended Q I panic = Unit {0}
