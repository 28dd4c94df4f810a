-- ===== src/Node/SolToEvm.antt =====
-- node/src/bridge-sol-to-evm: the services that the handler of a request on
-- Solana calls, and its map of statuses.
pub mod Handler
use lunarys_bridge.Prelude.{
  ℕ, ◌==◌, Bool, true, false, not, ◌||◌, Option, none, some, List, [], ◌∷◌, ◌++◌, length,
  if◌then◌else◌,
}
use lunarys_bridge.Prelude.Int.{ℤ, pos, pos_part}
use lunarys_bridge.Prelude.Text.{Text, lit, text_eq, is_empty}
use lunarys_bridge.Prelude.Numeral.{to_text}
use lunarys_bridge.Prelude.Effect.{
  Result, ok, thrown, Failure, Eff, pure, raise, lift, try_catch, plain, ◌>>=◌, ◌>>◌,
}
use lunarys_bridge.Node.TokenMapping.{TokenMapping, Table, find_by_mint, convert_sol_to_evm}
use lunarys_bridge.Node.Services.{ApiResponse}
use lunarys_bridge.Node.EvmToSol.{
  BridgeStatus, detected, decrypted, transferred, verified, failed, VerificationResponse, judged,
  failure_message, mined_well,
}
use lunarys_bridge.Node.Destination.{evm_destination}

pub record SolBridgeRequest : Type 0 where
  pub request_id : ℕ
  pub payer : Text
  pub mint : Text
  pub amount_after_fee : ℕ

-- The body of the POST to the relayer, `VerificationRequestSolToEvm`.
pub record SolVerificationRequest : Type 0 where
  pub request_id : Text
  pub sol_claim_signature : Text
  pub evm_transfer_tx_hash : Text
  pub evm_destination : Text
  pub amount : Text
  pub token : Text

pub data SolCall : Type 0 where
  pick_computation_offset : SolCall
  claim_request : ℕ → Text → ℕ → SolCall
  wait_finalization : ℕ → SolCall
  fetch_reseal_output : ℕ → SolCall
  get_mxe_public_key : SolCall
  send_native : Text → ℕ → SolCall
  send_erc20 : Text → Text → ℕ → SolCall
  wait_mined : Text → SolCall
  post_verification : SolVerificationRequest → SolCall

-- The latest request first.
abbrev pub SolTrace : Type 0
SolTrace = List SolCall

pub record ResealOutput : Type 0 where
  pub ct_words : Option (List (List ℕ))
  pub nonce : List ℕ

-- The outside: Arcium's client, web3.js, ethers and axios. `decrypt` is the key agreement and the
-- cipher, given the key of the cluster, the words and the nonce.
pub record SolServices : Type 0 where
  pub public_key : Text → Result Text
  pub offset : SolTrace → ℕ
  pub sent : SolTrace → Result Text
  pub finalized : SolTrace → Result (Unit {0})
  -- the output that was resealed for an offset
  pub output : ℕ → SolTrace → Result ResealOutput
  pub mxe_key : SolTrace → Result (List ℕ)
  pub decrypt : List ℕ → List (List ℕ) → List ℕ → Result (List ℕ)
  pub mined : SolTrace → Result (Option ℕ)
  pub answer : SolTrace → Result ApiResponse
  -- `e.response.data.message` of what axios throws
  pub response_message : Failure → Option Text

pub record SolConfig : Type 0 where
  pub services : SolServices
  pub solver_public_key : List ℕ
  pub tokens : Table
  pub chain_id : ℕ
  pub has_relayer_api : Bool

-- The members of `details`; one that no step has set is missing.
pub record SolDetails : Type 0 where
  pub mint : Option Text
  pub amount : Option Text
  pub evm_destination : Option Text
  pub claim_sig : Option Text
  pub tx_hash : Option Text
  pub message : Option Text
  pub error : Option Text

abbrev pub no_sol_details : SolDetails
no_sol_details = record {
  mint = none;
  amount = none;
  evm_destination = none;
  claim_sig = none;
  tx_hash = none;
  message = none;
  error = none;
}

pub record SolEntry : Type 0 where
  pub status : BridgeStatus
  pub details : SolDetails

pub record SolState : Type 0 where
  pub status : List (Text × SolEntry)
  pub calls : SolTrace

unfoldable pub find_sol_entry : Text → List (Text × SolEntry) → Option SolEntry
find_sol_entry id [] = none
find_sol_entry id ((k, e) ∷ es) = if text_eq k id then some e else find_sol_entry id es

abbrev new_or : Option Text → Option Text → Option Text
new_or none old = old
new_or (some a) old = some a

-- `{ ...prev, ...details }`
unfoldable pub merge_sol : SolDetails → SolDetails → SolDetails
merge_sol prev d = record {
  mint = new_or d.mint prev.mint;
  amount = new_or d.amount prev.amount;
  evm_destination = new_or d.evm_destination prev.evm_destination;
  claim_sig = new_or d.claim_sig prev.claim_sig;
  tx_hash = new_or d.tx_hash prev.tx_hash;
  message = new_or d.message prev.message;
  error = new_or d.error prev.error;
}

abbrev pub sol_details_of : Option SolEntry → SolDetails
sol_details_of none = no_sol_details
sol_details_of (some e) = e.details

-- `setStatus`; of two entries of an id the newer one counts.
unfoldable pub set_sol_status : Text → BridgeStatus → SolDetails → Eff SolState (Unit {0})
set_sol_status id status d n = (
  ok tt,
  record n {
    status =
        (
          id,
          record {
            status = status;
            details = merge_sol (sol_details_of (find_sol_entry id n.status)) d;
          },
        )
        ∷ n.status;
  },
)

unfoldable pub sol_call : {A : Type 0} → SolCall → (SolTrace → Result A) → Eff SolState A
sol_call c answer n = (answer n.calls, record n { calls = c ∷ n.calls })

-- services/destination-decrypt.service.ts: the two tests of the resealed output.
unfoldable pub check_output : ResealOutput → Result (List (List ℕ))
check_output out = elim out.ct_words [
  | none ↦
      thrown (record {
        kind = plain;
        message = lit "Invalid reseal output: expected 4 ciphertext words";
      })
  | some words ↦
      if length words == 4
      then (if length out.nonce == 16
          then ok words
          else thrown (record {
            kind = plain;
            message = lit "Invalid reseal output: nonce must be 16 bytes";
          }))
      else thrown (record {
        kind = plain;
        message = lit "Invalid reseal output: expected 4 ciphertext words";
      })
]

unfoldable pub claim_and_read : SolConfig → ℕ → Text → ℕ → Eff SolState (Text × Text)
claim_and_read cfg id owner offset = do
  sig ← sol_call (claim_request id owner offset) cfg.services.sent
  sol_call (wait_finalization offset) cfg.services.finalized
  out ← sol_call (fetch_reseal_output offset) (cfg.services.output offset)
  words ← lift (check_output out)
  key ← sol_call get_mxe_public_key cfg.services.mxe_key
  plains ← lift (cfg.services.decrypt key words out.nonce)
  dest ← lift (evm_destination plains)
  pure (dest, sig)

unfoldable pub resolve_evm_destination : SolConfig → ℕ → Text → Eff SolState (Text × Text)
resolve_evm_destination cfg id owner = do
  offset ← sol_call pick_computation_offset (λ t. ok (cfg.services.offset t))
  if length cfg.solver_public_key == 32
      then claim_and_read cfg id owner offset
      else raise plain (lit "Solver x25519 public key must be 32 bytes")

-- services/ethereum-transfer.service.ts: `{ txHash, success, error }`
pub record EvmTransferResult : Type 0 where
  pub tx_hash : Text
  pub success : Bool
  pub error : Option Text

unfoldable pub send_and_wait : SolConfig → SolCall → Text → Eff SolState EvmTransferResult
send_and_wait cfg c reverted =
    try_catch
      (do
        hash ← sol_call c cfg.services.sent
        status ← sol_call (wait_mined hash) cfg.services.mined
        if mined_well status
            then pure (record { tx_hash = hash; success = true; error = none })
            else raise plain reverted)
      (λ e. pure (record { tx_hash = lit "0x"; success = false; error = some e.message }))

unfoldable pub transfer_native : SolConfig → Text → ℕ → Eff SolState EvmTransferResult
transfer_native cfg to amount =
    send_and_wait cfg (send_native to amount) (lit "Native transfer reverted")

unfoldable pub transfer_erc20 : SolConfig → Text → Text → ℕ → Eff SolState EvmTransferResult
transfer_erc20 cfg token to amount =
    send_and_wait cfg (send_erc20 token to amount) (lit "ERC20 transfer reverted")

-- `submitVerificationSolToEvm` of services/relayer-api.service.ts
unfoldable pub submit_verification_sol_to_evm :
    SolConfig → SolVerificationRequest → Eff SolState VerificationResponse
submit_verification_sol_to_evm cfg q =
    if cfg.has_relayer_api
    then try_catch (do res ← sol_call (post_verification q) cfg.services.answer; pure (judged res))
        (λ e. pure (record {
          success = false;
          message = failure_message (cfg.services.response_message e) e;
        }))
    else pure (record { success = true; message = lit "Skipped (no external relayer configured)" })
