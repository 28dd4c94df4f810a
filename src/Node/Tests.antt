-- ===== src/Node/Tests.antt =====
-- The node of node/src on one event, and the theorems about it at that event.
mod Watching
mod Decrypting
mod Agreed
mod Configured
mod OnSolana
use lunarys_bridge.Prelude.{
  ℕ, ◌≡◌, refl, ◌⊎◌, Bool, true, false, Option, none, some, List, [], ◌∷◌, ◌∙◌, length, take,
}
use lunarys_bridge.Prelude.Int.{ℤ, pos, scale, tdiv}
use lunarys_bridge.Prelude.Text.{Text, lit, text_eq, starts_with, lower, to_lower, pad_start}
use lunarys_bridge.Prelude.Numeral.{digit_char, emit, digits, to_text}
use lunarys_bridge.Prelude.Effect.{Result, ok, ◌>>=◌, try_catch}
use lunarys_bridge.Relayer.TokenMapping.{TokenInfo, adjust_to_sol_decimals, adjust_to_evm_decimals}
use lunarys_bridge.Node.TokenMapping.{
  TokenMapping, Table, list, get_token_mapping, convert, convert_evm_to_sol, convert_sol_to_evm,
  is_native_token,
}
use lunarys_bridge.Node.TokenMapping.Agreement.{
  SameDecimals, node_agrees_evm_to_sol, node_agrees_sol_to_evm,
}
use lunarys_bridge.Node.Services.{
  NodeCall, NodeTrace, ApiResponse, Services, send_tokens, exponent, to_number,
}
use lunarys_bridge.Node.EvmToSol.{
  BridgeRequest, verified, NodeState, Config, find_entry, merge, set_status, get_status, call,
  is_request_claimed, claim_bridge_request, transfer_sol, transfer_spl_token, judged,
  submit_verification,
}
use lunarys_bridge.Node.EvmToSol.Handler.{
  claim_step, fall_back, find_destination, pay_mapped, pay_out, note_verification, before_payment,
  after_payment, process, handle_bridge_initiated,
}
use lunarys_bridge.Node.EvmToSol.Handler.Payment.{payments, IsDue, pays_at_most_once}
use lunarys_bridge.Node.EvmToSol.Handler.Final.{Ended, handler_ends}
use lunarys_bridge.Node.Destination.{evm_u256, address_text, evm_destination}
use lunarys_bridge.Node.Destination.Width.{destination_is_short}

running_node : Unit {0}
unfolding lit text_eq starts_with lower to_lower pad_start digit_char emit digits to_text ◌>>=◌
    try_catch scale tdiv list get_token_mapping convert convert_evm_to_sol convert_sol_to_evm
    is_native_token exponent to_number find_entry merge set_status get_status call
    is_request_claimed claim_bridge_request transfer_sol transfer_spl_token judged
    submit_verification claim_step fall_back find_destination pay_mapped pay_out note_verification
    before_payment after_payment process handle_bridge_initiated
running_node = tt

-- 18 decimals on the EVM and 6 on Solana.
abbrev mapping : TokenMapping
mapping = record {
  evm_address = lit "0xab";
  solana_address = lit "M";
  decimals = record { evm = 18; solana = 6 };
}

abbrev answered : ApiResponse
answered = record { status = 201; verified = true; success = false; message = none }

abbrev services : Services
services = record {
  wallet = lit "node";
  public_key = λ s. ok s;
  claim =
      λ t. ok (record { solver = lit "0x0000000000000000000000000000000000000000"; deadline = 0 });
  now = λ t. 60000;
  sent = λ t. ok (lit "0xclaim");
  mined = λ t. ok (some 1);
  decrypted = λ id contract t. ok (lit "dest");
  account = λ t. ok (lit "account");
  signature = λ t. ok (lit "sig");
  answer = λ t. ok answered;
  response_message = λ e. none;
}

abbrev config : Config
config = record {
  services = services;
  tokens = record { chain_id = 5; mappings = mapping ∷ [] };
  chain_id = 5;
  new_relayer = lit "0xee";
  test_sol_dest = none;
  has_relayer_api = true;
}

abbrev event : BridgeRequest
event = record { request_id = 7; token = lit "0xAB"; amount = 2500000000000 }

abbrev start : NodeState
start = record { status = []; calls = [] }

handle_bridge_initiated_test :
    ((get_status (lit "7") (handle_bridge_initiated config event start).1).status ≡ verified)
    × (payments (handle_bridge_initiated config event start).1.calls
        ≡ send_tokens (lit "M") (lit "dest") 2 ∷ [])
unfolding running_node
handle_bridge_initiated_test = (refl, refl)

-- Above 2^53 a number of tokens is rounded: this one loses a unit.
to_number_test :
    (to_number 9007199254740993 ≡ 9007199254740992)
    × (to_number 9007199254740995 ≡ 9007199254740996)
unfolding to_number exponent
to_number_test = (refl, refl)

pays_at_most_once_example :
    (payments (handle_bridge_initiated config event start).1.calls ≡ payments start.calls)
    ⊎ ((c : NodeCall) × IsDue config event c
        × (payments (handle_bridge_initiated config event start).1.calls
            ≡ c ∷ payments start.calls))
pays_at_most_once_example = pays_at_most_once config event start

handler_ends_example :
    (after : NodeState) × (handle_bridge_initiated config event start ≡ (ok tt, after))
    × Ended config event start after
handler_ends_example = handler_ends config event start

abbrev info : TokenInfo
info = record {
  name = lit "USDC";
  evm = record { address = lit "0xab"; decimals = 18 };
  sol = record { mint = lit "M"; decimals = 6 };
}

same_decimals : SameDecimals mapping info
unfolding SameDecimals
same_decimals = (refl, refl)

node_agrees_evm_to_sol_example :
    convert_evm_to_sol (pos 2500000000000) mapping
    ≡ (adjust_to_sol_decimals (pos 2500000000000) info).0
node_agrees_evm_to_sol_example =
    node_agrees_evm_to_sol mapping info (pos 2500000000000) same_decimals

node_agrees_sol_to_evm_example :
    adjust_to_evm_decimals (pos 2) info ≡ ok (convert_sol_to_evm (pos 2) mapping, lit "0xab")
node_agrees_sol_to_evm_example = node_agrees_sol_to_evm mapping info 2 same_decimals

abbrev words : List ℕ
words = 0x1111222233334444 ∷ 5 ∷ 6 ∷ 7 ∷ []

short_address : Text
unfolding address_text
short_address = address_text (evm_u256 0x1111222233334444 5 6 7)

destination_is_short_example : length (address_text (evm_u256 0x1111222233334444 5 6 7)) ≡ 18
unfolding evm_destination
destination_is_short_example =
    destination_is_short words (address_text (evm_u256 0x1111222233334444 5 6 7)) refl
