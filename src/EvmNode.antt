-- ===== src/EvmNode.antt =====
-- evm-contracts/node/src: an earlier node, which watches the EVM contract and pays on Solana.
pub mod Services
pub mod Monitor
pub mod Transfer
pub mod RelayerApi
pub mod Process
pub mod Startup
mod Tests
