-- ===== src/Node.antt =====
-- node/src: the chain specifications, the RPC methods and the command line of the node.
pub mod ChainSpec
pub mod Rpc
pub mod Service
pub mod Command
pub mod Started
pub mod Launch
pub mod Answers
