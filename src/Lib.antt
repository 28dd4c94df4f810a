-- ===== src/Lib.antt =====
-- Lunarys Bridge moves tokens between an EVM chain and Solana. A user locks tokens on one chain,
-- from the page of frontend; a solver's node (node/src) sees the event and pays on the other; the
-- relayer (relayer/src) checks both sides and settles. An earlier node stands in
-- evm-contracts/node/src. This library models the relayer's TypeScript, both nodes' handlers with
-- the services behind them, what the programs exchange, and what the frontend sends.
--
-- Prelude is what the language gives: Text (strings as lists of UTF-16 units), Int (bigint),
-- Numeral and Hex (BigInt(text), toString, parseInt), and Effect: `async` code is a function from
-- a state to a result or a thrown error and the state after it, so that what was written before a
-- throw stays written. Effect.Ends, Effect.Leads and Effect.Outcome are the rules for promises of
-- such code; Prefix is about texts that begin with a text. Double is `Number` of a bigint, Json
-- is `JSON.parse`.
--
-- Relayer: TokenMapping is relayer/src/common/config/token-mapping.ts. Chain is what is asked of
-- the outside: each request to ethers, web3.js, spl-token, anchor and the clock is written to a
-- trace, and the answer is any function of the trace so far, and of what is asked where that
-- matters, so the chains may change in any way between two requests. Solana (Retry, Balances,
-- Verify, Settle) is relayer/src/sol/sol.service.ts; Ethereum and Ethereum.Delivery are
-- relayer/src/eth/eth.service.ts; Repository is the two tables of relayer/src/common;
-- Verification.EvmToSol and Verification.SolToEvm are handleEvmToSol and handleSolToEvm of
-- relayer/src/verification/verification.service.ts, cut into one function for each numbered step
-- of the source; Api is the guard and the routes. World is the state of a request: both tables
-- and the trace. Writes says which requests change a chain.
--
-- Node: TokenMapping is node/src/common/token-mapping.service.ts; EvmToSol and EvmToSol.Handler
-- are node/src/bridge-evm-to-sol; SolToEvm and SolToEvm.Handler are node/src/bridge-sol-to-evm,
-- and Destination is the address arithmetic of its services/destination-decrypt.service.ts;
-- Agreement puts the node's request beside the relayer's reading of it. SolanaMonitor,
-- SolanaProgram and ArciumReader are the services of the same folder by those names, the last one
-- with solver-key.service.ts: they read the program's logs, build the claim, and read what Arcium
-- resealed. Fhe and Fhe.Decryptor are node/src/fhe/fheSignature.ts and fheDescrypt.ts.
-- Configuration is node/src/config/configuration.ts, with Number on texts of integers only.
--
-- EvmNode is evm-contracts/node/src: Monitor is services/ethereumMonitor.ts with the start of
-- utils/fheDecryption.ts, Transfer is services/solanaTransfer.ts, RelayerApi is
-- services/relayerApi.ts; Process and Startup are processBridgeRequest, initialize, start and
-- stop of index.ts. Process.Exclusion lets the handlers of events interleave at their waits, as
-- steps of a system whose steps are the parts of processBridgeRequest.
--
-- Frontend: Units is frontend/lib/bridge/utils.ts; Amount and SolanaInitiate are toU64FromHuman
-- and useSolanaInitiateReown of frontend/app/bridge/page.tsx; Words is lib/bridge/solana/evm.ts;
-- EvmBridge is lib/bridge/evm/bridge.ts with the hook hooks/bridge/useEvmBridge.ts around it; and
-- EvmError is lib/bridge/evm/error.ts, which turns revert data into texts.
--
-- Parameters: TypeORM is an interface with the laws of a table whose key is unique
-- (Relayer.Repository.Core; Relayer.Repository.Table meets it); the libraries of the chains and
-- of the wallets are the fields of Chain, Config, Ethers and of the records named Services,
-- FheServices, SolServices and ProgramServices, with three hypotheses on them: that of
-- Relayer.Verification.SolToEvm.NoHash on receipts, that of Frontend.EvmError.Messages that no
-- two errors share a selector, and that of Node.SolanaProgram.Claimed that a digest of SHA-256
-- has 32 bytes. The retry of getTxWithRetry is recursion on the number of tries; printing a
-- number takes one unit of fuel more than the number, which is enough since each step divides it;
-- `Number(n)` halves at most 256 times, enough below 2^256; JSON.parse is given two units for
-- each character, and one more.
--
-- Not modelled: logging and toasts, generated ids and dates, a database that fails, toLowerCase
-- outside ASCII, the validation of request bodies by class-validator, the node's subscriptions to
-- both chains, the parsing of its wallet's key, Zama's FHE library, the rest of the frontend (its
-- second way to send from Solana, init-request.anchor.ts, its claims, and all that only draws),
-- fhevm-react, and the contracts in Solidity and Rust.

pub mod Prelude
pub mod Relayer
pub mod Node
pub mod EvmNode
pub mod Frontend
