-- ===== src/Node/SolToEvm/Handler.antt =====
-- `onSolBridgeInitiated` of node/src/bridge-sol-to-evm/services/bridge-processor.service.ts.
pub mod Payment
pub mod Final
use lunarys_bridge.Prelude.{Bool, true, false, Option, none, some, [], ◌∷◌, if◌then◌else◌}
use lunarys_bridge.Prelude.Int.{pos, pos_part}
use lunarys_bridge.Prelude.Text.{Text, lit, is_empty}
use lunarys_bridge.Prelude.Numeral.{to_text}
use lunarys_bridge.Prelude.Effect.{Eff, pure, raise, lift, try_catch, plain, ◌>>=◌, ◌>>◌}
use lunarys_bridge.Node.TokenMapping.{TokenMapping, find_by_mint, convert_sol_to_evm}
use lunarys_bridge.Node.EvmToSol.{detected, decrypted, transferred, verified, failed}
use lunarys_bridge.Node.SolToEvm.{
  SolBridgeRequest, SolConfig, SolState, no_sol_details, set_sol_status, resolve_evm_destination,
  EvmTransferResult, transfer_native, transfer_erc20, submit_verification_sol_to_evm,
}

-- `res.error || text`
abbrev error_or : Option Text → Text → Text
error_or none text = text
error_or (some e) text = if is_empty e then text else e

module _ (cfg : SolConfig) (ev : SolBridgeRequest) where
  abbrev pub sol_id : Text
  sol_id = to_text (pos ev.request_id)

  -- `if (!res.success) throw …; txHash = res.txHash;`
  unfoldable pub hash_or_throw : Text → EvmTransferResult → Eff SolState Text
  hash_or_throw text res =
      if res.success then pure res.tx_hash else raise plain (error_or res.error text)

  unfoldable pub pay_on_evm : Text → Option TokenMapping → Eff SolState Text
  pay_on_evm dest none = do
    res ← transfer_native cfg dest ev.amount_after_fee
    hash_or_throw (lit "Native transfer failed") res
  pay_on_evm dest (some m) = do
    res ←
        transfer_erc20 cfg m.evm_address dest
          (pos_part (convert_sol_to_evm (pos ev.amount_after_fee) m))
    hash_or_throw (lit "ERC20 transfer failed") res

  abbrev pub token_of_mapping : Option TokenMapping → Text
  token_of_mapping none = lit "0xeeeeeeeeeeeeeeeeeeeeeeeeeeeeeeeeeeeeeeee"
  token_of_mapping (some m) = m.evm_address

  unfoldable pub report : Text → Text → Text → Option TokenMapping → Eff SolState (Unit {0})
  report dest claim_sig hash mapping = do
    set_sol_status sol_id transferred (record no_sol_details { tx_hash = some hash })
    v ← submit_verification_sol_to_evm cfg (record {
      request_id = sol_id;
      sol_claim_signature = claim_sig;
      evm_transfer_tx_hash = hash;
      evm_destination = dest;
      amount = to_text (pos ev.amount_after_fee);
      token = token_of_mapping mapping;
    })
    set_sol_status sol_id verified (record no_sol_details { message = some v.message })

  unfoldable pub resolve_step : Eff SolState (Text × Text)
  resolve_step = do
    set_sol_status sol_id detected (record no_sol_details {
      mint = some ev.mint;
      amount = some (to_text (pos ev.amount_after_fee));
    })
    owner ← lift (cfg.services.public_key ev.payer)
    out ← resolve_evm_destination cfg ev.request_id owner
    set_sol_status sol_id decrypted
        (record no_sol_details { evm_destination = some out.0; claim_sig = some out.1 })
    pure out

  -- The body of the `try`.
  unfoldable pub process_sol : Eff SolState (Unit {0})
  process_sol = do
    out ← resolve_step
    hash ← pay_on_evm out.0 (find_by_mint cfg.tokens ev.mint cfg.chain_id)
    report out.0 out.1 hash (find_by_mint cfg.tokens ev.mint cfg.chain_id)

  unfoldable pub on_sol_bridge_initiated : Eff SolState (Unit {0})
  on_sol_bridge_initiated =
      try_catch process_sol
        (λ e. set_sol_status sol_id failed (record no_sol_details { error = some e.message }))
