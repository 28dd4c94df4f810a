-- ===== src/Frontend/Tests/Sending.antt =====
-- The two ways across the bridge on concrete pages.
use lunarys_bridge.Prelude.{◌≡◌, refl, true, false, none, some, [], ◌∷◌}
use lunarys_bridge.Prelude.Int.{pos}
use lunarys_bridge.Prelude.Text.{Text, lit}
use lunarys_bridge.Prelude.Numeral.{trim}
use lunarys_bridge.Prelude.Effect.{ok, ◌>>=◌, try_catch}
use lunarys_bridge.Prelude.Effect.Ends.{Post}
use lunarys_bridge.Frontend.Units.{every, is_base58, is_valid_solana_address}
use lunarys_bridge.Frontend.EvmBridge
use lunarys_bridge.Frontend.EvmBridge.{
  Encrypted, Hook, TokenConfig, bridge, connect, change_network, set_running, set_complete, run,
  stop_loading, bridge_with, with_relayer, with_token, evm_to_sol_bridge, send_amount,
  approve_if_needed, initiate_bridge, approve, params_of,
}
use lunarys_bridge.Frontend.EvmBridge.Amounts.{Asked, moves, asks_for_one_amount}
use lunarys_bridge.Frontend.EvmBridge.Ended.{Done, Left, bridge_ends}
use lunarys_bridge.Frontend.SolanaInitiate
use lunarys_bridge.Frontend.SolanaInitiate.{Args, Initiated, initiate, number}
use lunarys_bridge.Frontend.SolanaInitiate.Sent.{Submitted, sent, sends_what_was_typed}
use lunarys_bridge.Frontend.SolanaInitiate.Phases.{Sending, Covered, failure_keeps_phase}

abbrev encrypted : Encrypted
encrypted = record { handle = lit "0xh"; proof = lit "0xp" }

-- An allowance of 3 for an amount of 5.
abbrev services : EvmBridge.Services
services = record {
  encrypted = λ t. ok encrypted;
  parse_units = λ s d. ok (pos 5);
  allowed = λ owner spender t. ok (pos 3);
  sent = λ t. ok (lit "0xtx");
  receipt = λ t. ok none;
  has_ethereum = true;
  has_request = true;
  granted = λ t. ok tt;
  switched = λ t. ok tt;
}

abbrev hook : Hook
hook = record {
  services = services;
  amount = lit "5";
  amount_is_positive = true;
  solana_destination = lit "11111111111111111111111111111111";
  token_config = some (record { address = lit "0xtoken"; decimals = 0 });
  new_relayer_address = some (lit "0xrelayer");
  fhe_is_ready = true;
  is_connected = true;
  has_signer = true;
  is_correct_network = true;
  account = lit "0xme";
}

abbrev blank : EvmBridge.Page
blank = record { phase = EvmBridge.idle; loading = false; error = none; calls = [] }

abbrev params : EvmBridge.Params
params = params_of hook (record { address = lit "0xtoken"; decimals = 0 }) (lit "0xrelayer")

bridge_test :
    ((bridge hook blank).1.phase ≡ EvmBridge.complete)
    × (moves (bridge hook blank).1.calls
        ≡ initiate_bridge (lit "0xtoken") (pos 5) encrypted
          ∷ approve (lit "0xrelayer") (pos 5)
          ∷ [])
unfolding bridge connect change_network set_running set_complete run stop_loading bridge_with
    with_relayer with_token evm_to_sol_bridge send_amount approve_if_needed EvmBridge.initiate
    EvmBridge.call ◌>>=◌ try_catch is_valid_solana_address every is_base58 lit trim
bridge_test = (refl, refl)

asks_for_one_amount_example :
    Asked services params
      (moves blank.calls)
      (moves (evm_to_sol_bridge services params blank).1.calls)
asks_for_one_amount_example = asks_for_one_amount services params blank

bridge_ends_example : Post (Done hook blank) (Left hook blank) (bridge hook blank)
bridge_ends_example = bridge_ends hook blank

abbrev solana : SolanaInitiate.Services
solana = record {
  public_key = λ s. ok s;
  program_id = ok (lit "program");
  pda = λ seeds program. program;
  key_bytes = λ s. s;
  associated = λ mint owner off. ok owner;
  sha256 = λ bs. bs;
  arcium_program = lit "arcium";
  mxe = λ s. s;
  mempool = λ s. s;
  executing_pool = λ s. s;
  plan_offset = number 9;
  comp_def = λ s n. s;
  computation = λ s n. s;
  spl_mint_env = lit "mint";
  sign_seed = lit "SignerAccount";
  cluster = lit "cluster";
  fee_pool = lit "pool";
  clock = lit "clock";
  now = λ t. 1700000000000;
  random = λ t. (1, 2);
  filled = λ t. [];
  account_exists = λ t. ok true;
  simulated = λ t. ok tt;
  signature = λ t. ok (lit "sig");
}

abbrev args : Args
args = record {
  eth_recipient = lit "0x00000000000000000000000000000000000000aB";
  human_amount = lit "5.25";
  decimals = 6;
  spl_mint = [];
  skip_sim = false;
}

abbrev page : SolanaInitiate.Page
page = record {
  phase = SolanaInitiate.idle;
  loading = false;
  error = none;
  last_sig = none;
  last_request_pda = none;
  calls = [];
}

sends_what_was_typed_example :
    Submitted solana
      (lit "payer")
      args
      (sent page.calls)
      (sent (initiate solana true (some (lit "payer")) args page).1.calls)
sends_what_was_typed_example = sends_what_was_typed solana (lit "payer") args page

abbrev payer : Text
payer = b'p' ∷ []

failure_keeps_phase_example :
    Post
      (Sending solana payer args)
      (Covered solana payer args)
      (initiate solana true (some payer) args page)
failure_keeps_phase_example = failure_keeps_phase solana payer args refl page
