-- ===== src/Node/Agreement.antt =====
-- What the node posts is what the relayer reads: `submitVerification` of the node
-- (node/src/bridge-evm-to-sol/services/relayer-api.service.ts) against `handleEvmToSol` of the
-- relayer (relayer/src/verification/verification.service.ts).
use mathlib.Core.Path.{subst}
use lunarys_bridge.Prelude.Effect.{ok}
use lunarys_bridge.Relayer.Chain.{Trace, Tx, BridgeRequestView}
use lunarys_bridge.Relayer.Solana.Verify.Sound.{Verified}
use lunarys_bridge.Prelude.{false, ◌≡◌, sym, ◌∙◌, ap, none, some}
use lunarys_bridge.Prelude.Int.{pos}
use lunarys_bridge.Prelude.Text.{Text}
use lunarys_bridge.Prelude.Numeral.RoundTrip.{big_int-to_text}
use lunarys_bridge.Relayer.TokenMapping.{TokenInfo, find_token_info, adjust_to_sol_decimals}
use lunarys_bridge.Relayer.World.{World, Relayer}
use lunarys_bridge.Relayer.Verification.EvmToSol.{EvmToSolVerificationDto, Evidence, prepare}
use lunarys_bridge.Relayer.Verification.EvmToSol.Checked.{prepare-Checked}
use lunarys_bridge.Node.TokenMapping.{TokenMapping, convert_evm_to_sol}
use lunarys_bridge.Node.TokenMapping.Agreement.{SameDecimals, node_agrees_evm_to_sol}
use lunarys_bridge.Node.Services.{VerificationRequest}
use lunarys_bridge.Node.EvmToSol.{BridgeRequest, Config}
use lunarys_bridge.Node.EvmToSol.Handler.{verification_of}

-- The body of the POST, whose members have the same names on both sides.
abbrev pub received_body : VerificationRequest → EvmToSolVerificationDto
received_body q = record {
  request_id = q.request_id;
  eth_claim_tx_hash = q.eth_claim_tx_hash;
  solana_transfer_signature = q.solana_transfer_signature;
  solana_destination = q.solana_destination;
  amount = q.amount;
  token = q.token;
  evidence_url = none;
}

some-injective : {A : Type 0} {a b : A} → some a ≡ some b → a ≡ b
some-injective h = cc

-- If the relayer's checks of a request that the node sends return, and the mapping that the relayer
-- has for the event's token has the decimals of the node's, then an executed transaction with the
-- signature that was sent credits the destination that was sent with the node's converted amount or
-- more (`Verified`, with that mapping's mint); and what the relayer has read on the EVM is
-- the request under the event's id, which was not finalized.
pub relayer_reads_what_node_sends :
    {D E : Type 0} (r : Relayer D E) (cfg : Config) (req : BridgeRequest)
    (hash signature dest : Text) (m : TokenMapping) (info : TokenInfo)
    → find_token_info r.tokens req.token ≡ some info
    → SameDecimals m info
    → (w : World D E) {ev : Evidence}
    → (prepare r (received_body (verification_of cfg req hash signature dest)) w).0 ≡ ok ev
    → ((tx : Tx) × Verified r.chain signature dest
          (some info.sol.mint)
          (convert_evm_to_sol (pos req.amount) m)
          tx)
      × ((asked : Trace) × (br : BridgeRequestView) × (r.chain.bridge_request asked
              (pos req.request_id)
            ≡ ok br)
          × (br.finalized ≡ false))
relayer_reads_what_node_sends r cfg req hash signature dest m info known same w h =
    let (c, _) = prepare-Checked r _ w h in
    let mapping : c.mapping ≡ info = some-injective (sym c.mapped ∙ known) in
    let amount : c.amount ≡ pos req.amount =
      some-injective (sym c.read_amount ∙ big_int-to_text (pos req.amount)) in
    let id : c.id ≡ pos req.request_id =
      some-injective (sym c.read_id ∙ big_int-to_text (pos req.request_id)) in
    (
      (
        c.tx,
        subst (λ z. Verified r.chain signature dest (some info.sol.mint) z c.tx)
            (ap (λ z. (adjust_to_sol_decimals z info).0) amount
              ∙ sym (node_agrees_evm_to_sol m info (pos req.amount) same))
            (subst
              (λ i.
                Verified r.chain signature dest (some i.sol.mint)
                  (adjust_to_sol_decimals c.amount i).0 c.tx)
              mapping c.paid),
      ),
      (
        c.asked_request,
        c.br,
        subst (λ z. r.chain.bridge_request c.asked_request z ≡ ok c.br) id c.requested,
        c.open_request,
      ),
    )
