-- ===== src/Relayer/Verification.antt =====
-- relayer/src/verification/verification.service.ts: the two flows.
pub mod EvmToSol
pub mod SolToEvm
