-- ===== src/Runtime/Constants.antt =====
-- runtime/src/lib.rs: the constants of the runtime. `WEIGHT_PER_SECOND` and `Perbill` are
-- frame_support's and sp_arithmetic's: a weight is given to the definitions that use it.
use konomi_node.Base.{ℕ, ◌*◌, ◌/◌}

abbrev pub milliseconds_per_block : ℕ
milliseconds_per_block = 6000

abbrev pub slot_duration : ℕ
slot_duration = milliseconds_per_block

-- Time is measured by number of blocks.
abbrev pub minutes : ℕ
minutes = 60_000 / milliseconds_per_block

abbrev pub hours : ℕ
hours = minutes * 60

abbrev pub days : ℕ
days = hours * 24

abbrev pub block_hash_count : ℕ
block_hash_count = 2400

abbrev pub maximum_block_length : ℕ
maximum_block_length = 5 * 1024 * 1024

abbrev pub minimum_period : ℕ
minimum_period = slot_duration / 2

abbrev pub existential_deposit : ℕ
existential_deposit = 500

abbrev pub unsigned_interval : ℕ
unsigned_interval = 4

abbrev pub unsigned_priority : ℕ
unsigned_priority = 5
