-- ===== src/Node/Tests/OnSolana.antt =====
-- The node on one request on Solana, which the relayer refuses.
use lunarys_bridge.Prelude.{◌≡◌, refl, ◌⊎◌, true, false, Option, none, some, [], ◌∷◌, replicate}
use lunarys_bridge.Prelude.Int.{scale, tdiv}
use lunarys_bridge.Prelude.Text.{lit, text_eq, pad_start}
use lunarys_bridge.Prelude.Numeral.{digit_char, emit, digits, to_text}
use lunarys_bridge.Prelude.Effect.{ok, ◌>>=◌, try_catch}
use lunarys_bridge.Node.TokenMapping.{list, find_by_mint, convert, convert_sol_to_evm}
use lunarys_bridge.Node.EvmToSol.{verified, judged}
use lunarys_bridge.Node.SolToEvm.{
  SolBridgeRequest, SolCall, SolEntry, SolServices, SolConfig, SolState, send_erc20, find_sol_entry,
  merge_sol, set_sol_status, sol_call, check_output, claim_and_read, resolve_evm_destination,
  send_and_wait, transfer_native, transfer_erc20, submit_verification_sol_to_evm,
}
use lunarys_bridge.Node.SolToEvm.Handler.{
  hash_or_throw, pay_on_evm, report, resolve_step, process_sol, on_sol_bridge_initiated,
}
use lunarys_bridge.Node.SolToEvm.Handler.Payment.{transfers, IsOwed, sends_at_most_once}
use lunarys_bridge.Node.SolToEvm.Handler.Final.{SolEnded, sol_handler_ends}
use lunarys_bridge.Node.Destination.{evm_u256, address_text, evm_destination}
use lunarys_bridge.Node.Tests.{mapping}

abbrev sol_services : SolServices
sol_services = record {
  public_key = λ s. ok s;
  offset = λ t. 3;
  sent = λ t. ok (lit "0xsent");
  finalized = λ t. ok tt;
  output =
      λ offset t. ok (record { ct_words = some ([] ∷ [] ∷ [] ∷ [] ∷ []); nonce = replicate 16 0 });
  mxe_key = λ t. ok [];
  decrypt = λ key words nonce. ok (0x1111222233334444 ∷ 5 ∷ 6 ∷ 7 ∷ []);
  mined = λ t. ok (some 1);
  answer = λ t. ok (record { status = 500; verified = false; success = false; message = none });
  response_message = λ e. none;
}

abbrev sol_config : SolConfig
sol_config = record {
  services = sol_services;
  solver_public_key = replicate 32 1;
  tokens = record { chain_id = 5; mappings = mapping ∷ [] };
  chain_id = 5;
  has_relayer_api = true;
}

abbrev deposit : SolBridgeRequest
deposit = record { request_id = 9; payer = lit "payer"; mint = lit "M"; amount_after_fee = 2 }

abbrev sol_start : SolState
sol_start = record { status = []; calls = [] }

abbrev IsVerified : Option SolEntry → Type 0
IsVerified none = ⊥
IsVerified (some e) = e.status ≡ verified

-- The low word alone is the address, and the refused request is called verified.
on_sol_bridge_initiated_test :
    (transfers (on_sol_bridge_initiated sol_config deposit sol_start).1.calls
      ≡ send_erc20 (lit "0xab") (lit "0x1111222233334444") 2000000000000 ∷ [])
    × IsVerified
        (find_sol_entry (lit "9") (on_sol_bridge_initiated sol_config deposit sol_start).1.status)
unfolding lit text_eq pad_start digit_char emit digits to_text scale tdiv ◌>>=◌ try_catch list
    find_by_mint convert convert_sol_to_evm judged find_sol_entry merge_sol set_sol_status sol_call
    check_output claim_and_read resolve_evm_destination send_and_wait transfer_native transfer_erc20
    submit_verification_sol_to_evm hash_or_throw pay_on_evm report resolve_step process_sol
    on_sol_bridge_initiated evm_u256 address_text evm_destination
on_sol_bridge_initiated_test = (refl, refl)

sends_at_most_once_example :
    (transfers (on_sol_bridge_initiated sol_config deposit sol_start).1.calls
      ≡ transfers sol_start.calls)
    ⊎ ((c : SolCall) × IsOwed sol_config deposit c
        × (transfers (on_sol_bridge_initiated sol_config deposit sol_start).1.calls
            ≡ c ∷ transfers sol_start.calls))
sends_at_most_once_example = sends_at_most_once sol_config deposit sol_start

sol_handler_ends_example :
    (after : SolState) × (on_sol_bridge_initiated sol_config deposit sol_start ≡ (ok tt, after))
    × SolEnded sol_config deposit sol_start after
sol_handler_ends_example = sol_handler_ends sol_config deposit sol_start
