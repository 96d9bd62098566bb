-- ===== src/Lib.antt =====
-- konomi-node: the pallets of a Substrate runtime for lending and swapping assets.
--
-- The parts and where they stand:
-- * pallets/assets/src/lib.rs is `Assets`: many assets, their balances and prices. `State` has
--   the storage, `Calls` the dispatchable calls (`issue`, `destroy`, `set_inherent_asset`,
--   `transfer_asset`, `set_price`), `transfer`, `_issue` (`issue_to`), `_set_price` (`put_price`)
--   and the genesis build.
-- * pallets/traits/src/lib.rs is `Traits`: the interfaces `Oracle` and `MultiAsset`, with the
--   contract `IsMultiAsset` that the lending proofs use.
-- * pallets/lending/src/lib.rs is `Lending`: `Interest` has the rates and `accrue_interest`,
--   `Accounts` the users' entries and sets, `Info` the runtime API, `Calls` `supply`, `withdraw`,
--   `borrow`, `repay` and `init_pool`, `Liquidate` and `Seizure` the liquidation, `Dispatch` the
--   steps of the chain.
-- * pallets/swap/src/lib.rs is `Swap`: `Pricing` has the `calc_` functions, `Exchange` the six ways
--   to swap, `Liquidity` `_add_liquidity` (`inject_liquidity`) and `_remove_liquidity`
--   (`take_liquidity`), `Calls` the dispatchable calls, `Address` the exchange accounts.
-- * pallets/offchain-worker/src/lib.rs is `Offchain`: `Parse` reads a price, `Calls` submits one
--   and validates the unsigned transaction.
-- * runtime/src/lib.rs is `Runtime`: `Constants`, `State` with one store of the four pallets and
--   each pallet's view of it, `Calls` with the pallets' configurations, the runtime's call, its
--   dispatch and the steps of the chain, `Genesis` the genesis build, `Api` the runtime APIs,
--   `Signing` `create_transaction`.
-- * node/src/chain_spec.rs is `Node.ChainSpec`: the two chain specifications; `load_spec` and
--   `run` of node/src/command.rs are `Node.Command`. node/src/service.rs with the APIs of
--   node/src/rpc.rs and the subcommands of node/src/cli.rs is `Node.Service`: the calls of
--   libraries that may fail, in their order, and a log of what the node has set to work. The crates
--   pallets/lending/rpc and pallets/swap/rpc are `Node.Rpc`: their methods on a client.
-- The lending pallet calls the assets pallet through `MultiAsset` and `Oracle`, the swap and
-- offchain pallets call it directly, so their states hold its state.
--
-- How code is modelled. A call takes the storage to an outcome: a result or an error, each with
-- the storage as written so far, since the calls are not transactional; or a panic, which the host
-- undoes. A storage map is a function with the map's default. Balances are u128, asset identifiers
-- u64, block numbers u32, as in runtime/src/lib.rs, and the chain has no block whose number is none; arithmetic panics on overflow where the
-- configuration says that the build has overflow checks, and wraps where it has none, as in a
-- release build. Loops are recursion on the list that they walk; nothing takes fuel. An origin is
-- what FRAME's checks answer of it. `events` is what is handed to `deposit_event`.
--
-- Proofs stand beside the definitions, in modules named for what they are about: `Base.Keeps` has
-- the rules by which a call keeps a predicate on the storage, for `search`. `Assets.Holders`,
-- `Lending.Sets` and `Swap.Holders` keep the invariants of the pallets, `Runtime.Parts`, `Held`,
-- `Sound` and `Birth` put them together for the chain; `Lending.Ledger` and `Swap.Assets` say what
-- a pallet does to the assets that it shares. `Lending.Writes` has what a call of the lending
-- pallet may write, `Others` and `Booking` what it leaves alone and what it books, `Effects` what
-- the end of a borrowing or a withdrawal is; `Words`, the modules named `Typed` and `Runtime.Typed`
-- are about the types of the stored numbers, `Swap.Provided` and `Returned` about liquidity,
-- `Node.Started` about a node's log. `Tests` has runs and the theorems at concrete inputs, with
-- `Tests.Fixed` as an instance of `FixedPoint`.
--
-- Parameters, not modelled: `FixedU128` of sp_runtime (`FixedPoint`, with the laws `IsFixedPoint`,
-- `IsTypedFixed` and `Divides`), the pallet's account `PALLET_ID.into_account()`, the hash of the
-- exchange address, the JSON parser and the HTTP response, the client of the RPC methods, the keys
-- and payloads of `create_transaction` (`Signer`), the key pairs of the chain specifications, the
-- reader of a specification's file, and which calls of Substrate's libraries fail when a node
-- starts (`Libraries`). Not modelled: the debug prints and log lines; what the node builds without
-- a possible failure, such as its transaction pool; Substrate's own pallets, the executive and the
-- benchmarks in the runtime; the declarations of the runtime APIs; the tests and their mock
-- runtime.
pub mod Base
pub mod FixedPoint
pub mod Traits
pub mod Assets
pub mod Lending
pub mod Swap
pub mod Offchain
pub mod Runtime
pub mod Node
pub mod Tests
