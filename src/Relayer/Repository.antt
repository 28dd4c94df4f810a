-- ===== src/Relayer/Repository.antt =====
-- The two tables of the relayer. TypeORM's `Repository` is a parameter: an interface with the
-- laws of a table whose rows have a unique `requestId`. What both repository classes do with it
-- (relayer/src/common/repositories) is `upsert`, `update` and `update_if_found`.
pub mod EvmToSol
pub mod SolToEvm
pub mod Core
pub mod Laws
pub mod Isolation
pub mod Table
