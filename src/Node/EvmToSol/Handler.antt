-- ===== src/Node/EvmToSol/Handler.antt =====
-- `handleBridgeInitiated` of node/src/bridge-evm-to-sol/services/bridge-processor.service.ts.
pub mod Payment
pub mod Final
use lunarys_bridge.Prelude.{ℕ, Bool, true, false, Option, none, some, [], ◌∷◌, ◌++◌, if◌then◌else◌}
use lunarys_bridge.Prelude.Int.{ℤ, pos, pos_part}
use lunarys_bridge.Prelude.Text.{Text, lit, is_empty}
use lunarys_bridge.Prelude.Numeral.{digits, to_text}
use lunarys_bridge.Prelude.Effect.{Failure, Eff, pure, raise, try_catch, plain, ◌>>=◌, ◌>>◌}
use lunarys_bridge.Node.TokenMapping.{
  TokenMapping, get_token_mapping, is_native_token, convert_evm_to_sol,
}
use lunarys_bridge.Node.Services.{VerificationRequest, decrypt_solana_address}
use lunarys_bridge.Node.EvmToSol.{
  BridgeRequest, detected, claimed, decrypted, transferred, verified, failed, no_details, NodeState,
  Config, VerificationResponse, set_status, call, is_request_claimed, claim_bridge_request,
  transfer_sol, transfer_spl_token, submit_verification,
}

module _ (cfg : Config) (req : BridgeRequest) where
  abbrev pub id : Text
  id = to_text (pos req.request_id)

  -- 1): the claim, if nobody holds one.
  unfoldable pub claim_step : Bool → Eff NodeState Text
  claim_step true = pure (lit "(already-claimed)")
  claim_step false = claim_bridge_request cfg.services req.request_id

  unfoldable pub fall_back : Failure → Option Text → Eff NodeState (Text × Bool)
  fall_back e none =
      raise plain
        (lit "FHE decryption failed and no TEST_SOLANA_DESTINATION configured: " ++ e.message)
  fall_back e (some dest) =
      if is_empty dest
      then raise plain
          (lit "FHE decryption failed and no TEST_SOLANA_DESTINATION configured: " ++ e.message)
      else pure (dest, true)

  -- 2): where to pay, and whether that is the configured fallback.
  unfoldable pub find_destination : Eff NodeState (Text × Bool)
  find_destination =
      try_catch
        (do
          dest ←
              call (decrypt_solana_address req.request_id cfg.new_relayer)
                (cfg.services.decrypted req.request_id cfg.new_relayer)
          pure (dest, false))
        (λ e. fall_back e cfg.test_sol_dest)

  unfoldable pub pay_mapped : Text → Option TokenMapping → Eff NodeState Text
  pay_mapped dest none =
      raise plain
        (lit "No token mapping for " ++ req.token ++ lit " on chainId=" ++ digits 10 cfg.chain_id)
  pay_mapped dest (some m) =
      transfer_spl_token cfg.services m.solana_address dest
        (pos_part (convert_evm_to_sol (pos req.amount) m))

  -- 3)
  unfoldable pub pay_out : Text → Eff NodeState Text
  pay_out dest =
      if is_native_token req.token
      then transfer_sol cfg.services dest req.amount
      else pay_mapped dest (get_token_mapping cfg.tokens req.token cfg.chain_id)

  abbrev pub verification_of : Text → Text → Text → VerificationRequest
  verification_of claim_tx_hash signature dest = record {
    request_id = id;
    eth_claim_tx_hash = claim_tx_hash;
    solana_transfer_signature = signature;
    solana_destination = dest;
    amount = to_text (pos req.amount);
    token = req.token;
  }

  -- 4): only a verification that succeeded is written down.
  unfoldable pub note_verification : Text → VerificationResponse → Eff NodeState (Unit {0})
  note_verification claim_tx_hash v =
      if v.success
      then set_status id verified
          (record no_details { message = some v.message; eth_tx = some claim_tx_hash })
      else pure tt

  unfoldable pub before_payment : Eff NodeState (Text × Text)
  before_payment = do
    set_status id detected
        (record no_details { token = some req.token; amount_raw = some (to_text (pos req.amount)) })
    is_claimed ← is_request_claimed cfg.services req.request_id
    hash ← claim_step is_claimed
    set_status id claimed (record no_details { claim_tx_hash = some hash })
    dest ← find_destination
    set_status id decrypted
        (record no_details { solana_destination = some dest.0; fallback = some dest.1 })
    pure (hash, dest.0)

  unfoldable pub after_payment : Text → Text → Text → Eff NodeState (Unit {0})
  after_payment hash dest signature = do
    set_status id transferred (record no_details { signature = some signature })
    v ← submit_verification cfg (verification_of hash signature dest)
    note_verification hash v

  -- The body of the `try`.
  unfoldable pub process : Eff NodeState (Unit {0})
  process = do
    start ← before_payment
    signature ← pay_out start.1
    after_payment start.0 start.1 signature

  unfoldable pub handle_bridge_initiated : Eff NodeState (Unit {0})
  handle_bridge_initiated =
      try_catch process (λ e. set_status id failed (record no_details { error = some e.message }))
