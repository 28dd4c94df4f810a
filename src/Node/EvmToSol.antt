-- ===== src/Node/EvmToSol.antt =====
-- node/src/bridge-evm-to-sol: the handler of the event `BridgeInitiated` of the EVM contract
-- (services/bridge-processor.service.ts), with the services that it calls.
pub mod Handler
use lunarys_bridge.Prelude.{
  ℕ, ◌/◌, ltb, ◌==◌, Bool, true, false, ◌||◌, not, Option, none, some, List, [], ◌∷◌, ◌++◌,
  if◌then◌else◌,
}
use lunarys_bridge.Prelude.Int.{ℤ, pos, pos_part}
use lunarys_bridge.Prelude.Text.{Text, lit, text_eq, is_empty}
use lunarys_bridge.Prelude.Numeral.{digits}
use lunarys_bridge.Prelude.Effect.{
  Result, ok, thrown, Failure, Eff, pure, raise, lift, try_catch, plain, ◌>>=◌, ◌>>◌,
}
use lunarys_bridge.Node.TokenMapping.{
  TokenMapping, Table, get_token_mapping, is_native_token, convert_evm_to_sol,
}
use lunarys_bridge.Node.Services.{
  VerificationRequest, NodeCall, NodeTrace, ClaimState, ApiResponse, Services, request_claim,
  date_now, claim_bridge, wait, decrypt_solana_address, get_or_create_account, send_lamports,
  send_tokens, post, to_number,
}

-- The members of the event that the processor reads.
pub record BridgeRequest : Type 0 where
  pub request_id : ℕ
  pub token : Text
  pub amount : ℕ

pub data BridgeStatus : Type 0 where
  detected claimed decrypted transferred verified failed : BridgeStatus

-- The members of `details`; one that no step has set is missing.
pub record Details : Type 0 where
  pub token : Option Text
  pub amount_raw : Option Text
  pub claim_tx_hash : Option Text
  pub solana_destination : Option Text
  pub fallback : Option Bool
  pub signature : Option Text
  pub message : Option Text
  pub eth_tx : Option Text
  pub error : Option Text

pub record Entry : Type 0 where
  pub status : BridgeStatus
  pub details : Details

abbrev pub no_details : Details
no_details = record {
  token = none;
  amount_raw = none;
  claim_tx_hash = none;
  solana_destination = none;
  fallback = none;
  signature = none;
  message = none;
  eth_tx = none;
  error = none;
}

-- The map `status`, and the trace.
pub record NodeState : Type 0 where
  pub status : List (Text × Entry)
  pub calls : NodeTrace

-- The services and the configuration that the processor is built from.
pub record Config : Type 0 where
  pub services : Services
  pub tokens : Table
  pub chain_id : ℕ
  pub new_relayer : Text
  pub test_sol_dest : Option Text
  pub has_relayer_api : Bool

unfoldable pub find_entry : Text → List (Text × Entry) → Option Entry
find_entry id [] = none
find_entry id ((k, e) ∷ es) = if text_eq k id then some e else find_entry id es

abbrev new_or : {A : Type 0} → Option A → Option A → Option A
new_or none old = old
new_or (some a) old = some a

-- `{ ...prev, ...details }`
unfoldable pub merge : Details → Details → Details
merge prev d = record {
  token = new_or d.token prev.token;
  amount_raw = new_or d.amount_raw prev.amount_raw;
  claim_tx_hash = new_or d.claim_tx_hash prev.claim_tx_hash;
  solana_destination = new_or d.solana_destination prev.solana_destination;
  fallback = new_or d.fallback prev.fallback;
  signature = new_or d.signature prev.signature;
  message = new_or d.message prev.message;
  eth_tx = new_or d.eth_tx prev.eth_tx;
  error = new_or d.error prev.error;
}

abbrev details_of : Option Entry → Details
details_of none = no_details
details_of (some e) = e.details

-- `setStatus`; of two entries of an id the newer one counts.
unfoldable pub set_status : Text → BridgeStatus → Details → Eff NodeState (Unit {0})
set_status id status d n = (
  ok tt,
  record n {
    status =
        (id, record { status = status; details = merge (details_of (find_entry id n.status)) d })
        ∷ n.status;
  },
)

abbrev or_unknown : Option Entry → Entry
or_unknown none = record {
  status = failed;
  details = record no_details { error = some (lit "unknown id") };
}
or_unknown (some e) = e

unfoldable pub get_status : Text → NodeState → Entry
get_status id n = or_unknown (find_entry id n.status)

unfoldable pub call : {A : Type 0} → NodeCall → (NodeTrace → Result A) → Eff NodeState A
call c answer n = (answer n.calls, record n { calls = c ∷ n.calls })

abbrev zero_address : Text
zero_address = lit "0x0000000000000000000000000000000000000000"

-- services/ethereum-monitor.service.ts
unfoldable pub is_request_claimed : Services → ℕ → Eff NodeState Bool
is_request_claimed s id = do
  claim ← call (request_claim id) s.claim
  if text_eq claim.solver zero_address then pure false else (do
    millis ← call date_now (λ t. ok (s.now t))
    pure (ltb (millis / 1000) claim.deadline))

abbrev pub mined_well : Option ℕ → Bool
mined_well none = false
mined_well (some n) = n == 1

unfoldable pub claim_bridge_request : Services → ℕ → Eff NodeState Text
claim_bridge_request s id = do
  hash ← call (claim_bridge id) s.sent
  status ← call (wait hash) s.mined
  if mined_well status then pure hash else raise plain (lit "Claim failed #" ++ digits 10 id)

-- services/solana-transfer.service.ts
unfoldable pub transfer_sol : Services → Text → ℕ → Eff NodeState Text
transfer_sol s destination lamports = do
  dest ← lift (s.public_key destination)
  call (send_lamports dest (to_number lamports)) s.signature

unfoldable pub transfer_spl_token : Services → Text → Text → ℕ → Eff NodeState Text
transfer_spl_token s mint_address destination amount = do
  mint ← lift (s.public_key mint_address)
  dest ← lift (s.public_key destination)
  call (get_or_create_account mint s.wallet) s.account
  call (get_or_create_account mint dest) s.account
  call (send_tokens mint dest (to_number amount)) s.signature

pub record VerificationResponse : Type 0 where
  pub success : Bool
  pub message : Text

abbrev message_or : Option Text → Bool → Text
message_or none success = if success then lit "Verified by relayer" else lit "Unexpected response"
message_or (some m) success = m

unfoldable pub judged : ApiResponse → VerificationResponse
judged res =
    let success = res.verified || (res.success || res.status == 201) in
    record { success = success; message = message_or res.message success }

-- `a || b`
abbrev or_else : Text → Text → Text
or_else [] b = b
or_else (c ∷ a) b = c ∷ a

abbrev or_none : Option Text → Text
or_none none = []
or_none (some a) = a

-- `e?.response?.data?.message || e?.message || 'Unknown error'`
abbrev pub failure_message : Option Text → Failure → Text
failure_message answered e = or_else (or_none answered) (or_else e.message (lit "Unknown error"))

-- `submitVerification` of services/relayer-api.service.ts
unfoldable pub submit_verification :
    Config → VerificationRequest → Eff NodeState VerificationResponse
submit_verification cfg q =
    if cfg.has_relayer_api
    then try_catch (do res ← call (post q) cfg.services.answer; pure (judged res))
        (λ e. pure (record {
          success = false;
          message = failure_message (cfg.services.response_message e) e;
        }))
    else pure (record { success = true; message = lit "Skipped (no external relayer configured)" })
