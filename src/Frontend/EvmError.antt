-- ===== src/Frontend/EvmError.antt =====
-- frontend/lib/bridge/evm/error.ts: reverts of the EVM by their selectors, and what the page says of
-- them.
pub mod ArgTypes
pub mod Known
pub mod Decode
pub mod Pretty
pub mod Signatures
pub mod Messages
