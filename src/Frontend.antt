-- ===== src/Frontend.antt =====
-- frontend/lib/bridge: what the web page computes before it asks a wallet to sign.
pub mod Units
pub mod Amount
pub mod Words
pub mod EvmBridge
pub mod SolanaInitiate
pub mod EvmError
mod Tests
