-- ===== src/Relayer.antt =====
-- relayer/: the service that verifies a transfer on one chain and settles on the other.
pub mod TokenMapping
pub mod Chain
pub mod Solana
pub mod Ethereum
pub mod Repository
pub mod Writes
pub mod World
pub mod Verification
pub mod Api
pub mod Tests
