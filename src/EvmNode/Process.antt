-- ===== src/EvmNode/Process.antt =====
-- `processBridgeRequest` of evm-contracts/node/src/index.ts.
pub mod Sets
pub mod Holds
pub mod Bond
pub mod NeverPays
pub mod Exclusion
use lunarys_bridge.Prelude.{
  ℕ, Bool, true, false, not, ◌||◌, Option, none, some, List, [], ◌∷◌, ◌++◌, any, select,
  if◌then◌else◌,
}
use lunarys_bridge.Prelude.Text.{Text, lit, text_eq}
use lunarys_bridge.Prelude.Numeral.{digits}
use lunarys_bridge.Prelude.Effect.{Eff, pure, raise, try_catch, plain, ◌>>=◌, ◌>>◌}
use lunarys_bridge.Node.Services.{VerificationRequest}
use lunarys_bridge.EvmNode.Services.{Config, NodeState}
use lunarys_bridge.EvmNode.Monitor.{
  BridgeRequest, is_request_claimed, claim_bridge_request, decrypt_solana_address,
}
use lunarys_bridge.EvmNode.Transfer.{TransferResult, transfer_sol}
use lunarys_bridge.EvmNode.RelayerApi.{submit_verification}

-- `Set<string>`
unfoldable pub has : Text → List Text → Bool
has id ids = any (text_eq id) ids

unfoldable pub add : Text → List Text → List Text
add id ids = if has id ids then ids else ids ++ id ∷ []

unfoldable pub delete : Text → List Text → List Text
delete id ids = select (λ k. not (text_eq id k)) ids

unfoldable pub start_processing : Text → Eff NodeState (Unit {0})
start_processing id n = pure tt (record n { processing = add id n.processing })

unfoldable pub stop_processing : Text → Eff NodeState (Unit {0})
stop_processing id n = pure tt (record n { processing = delete id n.processing })

abbrev pub text_or_undefined : Option Text → Text
text_or_undefined none = lit "undefined"
text_or_undefined (some s) = s

module _ (cfg : Config) (request : BridgeRequest) where
  abbrev pub request_id_str : Text
  request_id_str = digits 10 request.request_id

  -- The members `fheDecryptor` and `fhevmInstance` are read when the step begins.
  unfoldable pub decrypt_with : Bool → Bool → Eff NodeState Text
  decrypt_with false ready = raise plain (lit "FHE decryptor not initialized")
  decrypt_with true ready =
      decrypt_solana_address cfg ready request.request_id cfg.new_relayer_address

  unfoldable pub decrypt : Eff NodeState Text
  decrypt n =
      try_catch (decrypt_with n.decryptor n.instance_ready)
        (λ e. raise plain (lit "FHE decryption not available - cannot proceed with transfer")) n

  abbrev pub verification_of : Text → Text → Text → VerificationRequest
  verification_of claim_tx_hash solana_destination signature = record {
    request_id = request_id_str;
    eth_claim_tx_hash = claim_tx_hash;
    solana_transfer_signature = signature;
    solana_destination = solana_destination;
    amount = digits 10 request.amount;
    token = request.token;
  }

  unfoldable pub report : Text → Text → TransferResult → Eff NodeState (Unit {0})
  report claim_tx_hash solana_destination result =
      if result.success
      then (do
        submit_verification cfg (verification_of claim_tx_hash solana_destination result.signature)
        pure tt)
      else raise plain (lit "Solana transfer failed: " ++ text_or_undefined result.error)

  -- Steps 2 to 5: the amount is paid in lamports, whatever the token.
  unfoldable pub fulfil : Eff NodeState (Unit {0})
  fulfil = do
    claim_tx_hash ← claim_bridge_request cfg request.request_id
    solana_destination ← decrypt
    result ← transfer_sol cfg solana_destination request.amount
    report claim_tx_hash solana_destination result

  -- The body of the `try`.
  unfoldable pub process : Eff NodeState (Unit {0})
  process = do
    is_claimed ← is_request_claimed cfg request.request_id
    if is_claimed then pure tt else fulfil

  -- Past the guard; `finally` deletes the id, and the `catch` has only logged.
  unfoldable pub guarded : Eff NodeState (Unit {0})
  guarded = do
    start_processing request_id_str
    try_catch process (λ e. pure tt)
    stop_processing request_id_str

  unfoldable pub process_bridge_request : Eff NodeState (Unit {0})
  process_bridge_request n = (if has request_id_str n.processing then pure tt else guarded) n
