-- ===== src/Node.antt =====
-- node/src: the solver's process. It watches both chains, pays the user on the other chain, and
-- asks the relayer to settle.
pub mod Configuration
pub mod TokenMapping
pub mod Services
pub mod EvmToSol
pub mod Agreement
pub mod Destination
pub mod SolToEvm
pub mod SolanaProgram
pub mod ArciumReader
pub mod SolanaMonitor
pub mod Fhe
mod Tests
