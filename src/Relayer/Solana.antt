-- ===== src/Relayer/Solana.antt =====
-- relayer/src/sol/sol.service.ts: reads a Solana transaction and checks that it credited an
-- account, and closes a request on the Solana program.
pub mod Retry
pub mod Balances
pub mod Verify
pub mod Settle
