-- ===== src/Node/Tests/Agreed.antt =====
-- A request of the node that the relayer of the relayer's tests accepts.
use lunarys_bridge.Prelude.{some, false, ◌≡◌, refl, List}
use lunarys_bridge.Prelude.Int.{pos}
use lunarys_bridge.Prelude.Text.{lit}
use lunarys_bridge.Prelude.Effect.{ok}
use lunarys_bridge.Relayer.TokenMapping.{usdc, find_token_info}
use lunarys_bridge.Relayer.Chain.{Trace, Tx, BridgeRequestView}
use lunarys_bridge.Relayer.Solana.Verify.Sound.{Verified}
use lunarys_bridge.Relayer.Repository.EvmToSol.{EvmToSolRecord, upsert_received}
use lunarys_bridge.Relayer.Repository.SolToEvm.{SolToEvmRecord}
use lunarys_bridge.Relayer.World.{World, on_e2s}
use lunarys_bridge.Relayer.Verification.EvmToSol.{
  EvmToSolVerificationDto, evidence, prepare, reception,
}
use lunarys_bridge.Relayer.Tests.{running, relayer, empty_world, tokens, chain}
use lunarys_bridge.Node.TokenMapping.{TokenMapping, convert_evm_to_sol}
use lunarys_bridge.Node.TokenMapping.Agreement.{SameDecimals}
use lunarys_bridge.Node.EvmToSol.{BridgeRequest}
use lunarys_bridge.Node.EvmToSol.Handler.{verification_of}
use lunarys_bridge.Node.Agreement.{received_body, relayer_reads_what_node_sends}
use lunarys_bridge.Node.Tests.{config}

abbrev small_event : BridgeRequest
small_event = record { request_id = 7; token = lit "0xAB"; amount = 1000 }

abbrev accepted_dto : EvmToSolVerificationDto
accepted_dto =
    received_body (verification_of config small_event (lit "0xclaim") (lit "sig") (lit "dest"))

abbrev received_world : World (List EvmToSolRecord) (List SolToEvmRecord)
received_world = (on_e2s (upsert_received relayer.e2s (reception accepted_dto)) empty_world).1

prepared :
    (prepare relayer accepted_dto received_world).0 ≡ ok (evidence chain accepted_dto (pos 7))
unfolding running
prepared = refl

-- The decimals of the relayer's tests.
abbrev small_mapping : TokenMapping
small_mapping = record {
  evm_address = lit "0xab";
  solana_address = lit "M";
  decimals = record { evm = 8; solana = 6 };
}

known_mapping : find_token_info tokens small_event.token ≡ some (usdc tokens)
unfolding running
known_mapping = refl

accepted_decimals : SameDecimals small_mapping (usdc tokens)
unfolding SameDecimals running
accepted_decimals = (refl, refl)

relayer_reads_what_node_sends_example :
    ((tx : Tx) × Verified chain
        (lit "sig")
        (lit "dest")
        (some (usdc tokens).sol.mint)
        (convert_evm_to_sol (pos 1000) small_mapping)
        tx)
    × ((asked : Trace) × (br : BridgeRequestView) × (chain.bridge_request asked (pos 7) ≡ ok br)
        × (br.finalized ≡ false))
relayer_reads_what_node_sends_example =
    relayer_reads_what_node_sends relayer config small_event (lit "0xclaim") (lit "sig")
      (lit "dest") small_mapping (usdc tokens) known_mapping accepted_decimals received_world
      prepared
