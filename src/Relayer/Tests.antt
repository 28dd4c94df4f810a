-- ===== src/Relayer/Tests.antt =====
-- The relayer of relayer/src on concrete requests: a chain on which one payment was made each way,
-- and tables that hold lists of rows.
mod Witnesses
use lunarys_bridge.Prelude.{
  ℕ, ◌≡◌, refl, Bool, true, false, Option, none, some, List, [], ◌∷◌, ◌++◌, length, replicate,
}
use lunarys_bridge.Prelude.Int.{pos}
use lunarys_bridge.Prelude.Text.{Text, lit, text_eq, starts_with, to_lower, lower}
use lunarys_bridge.Prelude.Numeral.{
  digit_char, digit_value, emit, digits, to_text, accept, scan, number, is_space, trim_start, trim,
  signed, unspaced, big_int,
}
use lunarys_bridge.Prelude.Hex.{
  hex_run, signed_hex, parse_int16, to_byte, bytes_of_hex, hex_of_bytes,
}
use lunarys_bridge.Prelude.Int.{◌+ℤ◌, ◌-ℤ◌, scale, tdiv}
use lunarys_bridge.Prelude.Effect.{ok, thrown, ◌>>=◌, try_catch}
use lunarys_bridge.Relayer.Chain.{Tx, Meta, TokenBalance, Log, Mined, Chain}
use lunarys_bridge.Relayer.TokenMapping.{
  TokenVars, evm_address, sol_mint, usdc, find_token_info, pow10, adjust, adjust_to_sol_decimals,
  adjust_to_evm_decimals,
}
use lunarys_bridge.Relayer.Solana.Retry.{after_loop, judge_meta, judge, attempts, get_tx_with_retry}
use lunarys_bridge.Relayer.Solana.Balances.{
  belongs, amount_of, amounts, reduce, sum_owner_mint, find_index,
}
use lunarys_bridge.Relayer.Solana.Verify.{
  require_delta, native_at, check_native, check_tokens, check_transfer, verify_transfer,
  check_program, check_deposit, verify_deposit,
}
use lunarys_bridge.Relayer.Solana.Settle.{
  hex32_to_bytes, in_u128, to_bn_u128, anchor_ctx_of, get_anchor_ctx, settle_accounts,
  submit_settle, evidence_bytes, verify_and_settle_on_solana,
}
use lunarys_bridge.Relayer.Ethereum.{
  send_verify_and_settle, send_deliver_tokens, read_bridge_request, read_claim,
  read_contract_balance,
}
use lunarys_bridge.Relayer.Ethereum.Delivery.{
  erc20_transfer_topic, is_transfer_log, pays, check_receipt, check_logs, verify_evm_delivery,
}
use lunarys_bridge.Relayer.Repository.Core.{settled, failed, update, update_if_found, upsert}
use lunarys_bridge.Relayer.Repository.EvmToSol.{EvmToSolRecord}
use lunarys_bridge.Relayer.Repository.SolToEvm.{SolToEvmRecord}
use lunarys_bridge.Relayer.Repository.Table.{find_row, save_row, table}
use lunarys_bridge.Relayer.Writes.{writes}
use lunarys_bridge.Relayer.World.{World, Relayer, on_e2s, on_s2e, on_chain}
use lunarys_bridge.Relayer.Verification.EvmToSol.{
  EvmToSolVerificationDto, evidence, check_amount, check_request, convert, verify_leg,
  check_bridge_request, check_deadline, check_claim, settle, handle_evm_to_sol,
}
use lunarys_bridge.Relayer.Verification.SolToEvm.{
  SolToEvmVerificationDto, token_info, check_addresses, check_deposited, check_payable,
  confirm_delivery, escrow_token, settle_request, close_on_solana, settle_row, pay, deliver,
  handle_sol_to_evm,
}
use lunarys_bridge.Relayer.Repository
use lunarys_bridge.Relayer.Verification

-- All that a run of a handler opens.
unfoldable pub running : Unit {0}
unfolding lit text_eq starts_with to_lower lower digit_char digit_value emit digits to_text accept
    scan number is_space trim_start trim signed unspaced big_int hex_run signed_hex parse_int16
    to_byte bytes_of_hex hex_of_bytes ◌+ℤ◌ ◌-ℤ◌ scale tdiv ◌>>=◌ try_catch evm_address sol_mint usdc
    find_token_info pow10 adjust adjust_to_sol_decimals adjust_to_evm_decimals after_loop judge_meta
    judge attempts get_tx_with_retry belongs amount_of amounts reduce sum_owner_mint find_index
    require_delta native_at check_native check_tokens check_transfer verify_transfer check_program
    check_deposit verify_deposit hex32_to_bytes in_u128 to_bn_u128 anchor_ctx_of get_anchor_ctx
    settle_accounts submit_settle evidence_bytes verify_and_settle_on_solana send_verify_and_settle
    send_deliver_tokens read_bridge_request read_claim read_contract_balance is_transfer_log pays
    check_receipt check_logs verify_evm_delivery update update_if_found upsert find_row save_row
    on_e2s on_s2e on_chain evidence check_amount check_request convert verify_leg
    check_bridge_request check_deadline check_claim settle handle_evm_to_sol token_info
    check_addresses check_deposited check_payable confirm_delivery escrow_token settle_request
    close_on_solana settle_row pay deliver handle_sol_to_evm
    lunarys_bridge.Relayer.Verification.EvmToSol.reject
    lunarys_bridge.Relayer.Verification.EvmToSol.prepare
    lunarys_bridge.Relayer.Verification.SolToEvm.reject
    lunarys_bridge.Relayer.Verification.SolToEvm.prepare
    lunarys_bridge.Relayer.Repository.EvmToSol.upsert_received
    lunarys_bridge.Relayer.Repository.EvmToSol.mark_verified
    lunarys_bridge.Relayer.Repository.EvmToSol.mark_settled
    lunarys_bridge.Relayer.Repository.EvmToSol.mark_failed
    lunarys_bridge.Relayer.Repository.SolToEvm.upsert_received
    lunarys_bridge.Relayer.Repository.SolToEvm.mark_verified
    lunarys_bridge.Relayer.Repository.SolToEvm.mark_settled
    lunarys_bridge.Relayer.Repository.SolToEvm.mark_failed
running = tt

abbrev pub balance : Text → Text → TokenBalance
balance owner amount = record { owner = some owner; mint = some (lit "M"); amount = some amount }

-- The destination gains 10 tokens, and the vault 10.
abbrev pub landed_meta : Meta
landed_meta = record {
  err = none;
  pre_balances = 7 ∷ 8 ∷ [];
  post_balances = 7 ∷ 8 ∷ [];
  pre_token_balances = some (balance (lit "dest") (lit "5") ∷ []);
  post_token_balances =
      some (balance (lit "dest") (lit "15") ∷ balance (lit "vault") (lit "10") ∷ []);
}

abbrev pub landed_tx : Tx
landed_tx = record { account_keys = lit "dest" ∷ lit "vault" ∷ []; meta = some landed_meta }

abbrev pub hash_text : Text
hash_text = b'0' ∷ b'x' ∷ replicate 64 b'7'

abbrev pub transfer_log : Log
transfer_log = record {
  address = some (lit "0xAB");
  topics = erc20_transfer_topic ∷ [];
  payload = [];
}

abbrev pub mined_well : Mined
mined_well = record { status = some 1; logs = some (transfer_log ∷ []) }

abbrev pub chain : Chain
chain = record {
  public_key = λ s. ok s;
  keccak256 = λ s. lit "hash of " ++ s;
  is_address = λ s. starts_with (lit "0x") s;
  decode_transfer = λ l. ok (lit "0xCD", 1000);
  parsed_transaction = λ t sig. ok (some landed_tx);
  associated_token_address = λ t mint owner. ok (lit "ata");
  bridge_request = λ t id. ok (record {
    sender = lit "0xcd";
    token = lit "0xab";
    amount = 1000;
    timestamp = 5;
    finalized = false;
    fee = 0;
  });
  claim = λ t id. ok (record { solver = lit "0xef"; claimed_at = 5; deadline = 100; bond = 1 });
  contract_balance = λ t token. ok 5000;
  now = λ t. 60000;
  sent = λ t. ok (lit "0xsent");
  receipt = λ t. ok (some (record { transaction_hash = some hash_text }));
  mined = λ hash t. ok (some mined_well);
  keypair = λ t. ok tt;
  signature = λ t. ok (lit "closing");
  confirmation = λ t. ok none;
}

-- 8 decimals on the EVM and 6 on Solana.
abbrev pub tokens : TokenVars
tokens = record {
  token_usdc = some (lit "0xAb");
  token_sol = some (lit "M");
  evm_decimals = 8;
  sol_decimals = 6;
}

abbrev pub e2s_key : EvmToSolRecord → Text
e2s_key row = row.request_id

abbrev pub s2e_key : SolToEvmRecord → Text
s2e_key row = row.request_id

abbrev pub relayer_on : Chain → Relayer (List EvmToSolRecord) (List SolToEvmRecord)
relayer_on c = record {
  chain = c;
  e2s = table e2s_key;
  s2e = table s2e_key;
  tokens = tokens;
  anchor = record {
    program_id = some (lit "program");
    has_camel = true;
    has_snake = false;
    token_program_id = lit "token program";
    system_program_id = lit "system program";
  };
  solana = record {
    relayer_pubkey = some (lit "payer");
    mxe_pda = lit "mxe";
    fee_pool = lit "pool";
    clock = lit "clock";
  };
  min_confirmations = none;
}

abbrev pub relayer : Relayer (List EvmToSolRecord) (List SolToEvmRecord)
relayer = relayer_on chain

abbrev pub empty_world : World (List EvmToSolRecord) (List SolToEvmRecord)
empty_world = record { e2s = []; s2e = []; calls = [] }

abbrev pub claimed_dto : EvmToSolVerificationDto
claimed_dto = record {
  request_id = to_text (pos 7);
  eth_claim_tx_hash = lit "0xclaim";
  solana_transfer_signature = lit "sig";
  solana_destination = lit "dest";
  amount = lit "1000";
  token = lit "0xAB";
  evidence_url = none;
}

abbrev pub deposit_dto : SolToEvmVerificationDto
deposit_dto = record {
  request_id = to_text (pos 8);
  solana_deposit_signature = lit "sig";
  solana_vault = lit "vault";
  amount = lit "10";
  evm_recipient = lit "0xcd";
  evm_token = lit "0xab";
  solana_mint = some (lit "M");
}

handle_evm_to_sol_test :
    (handle_evm_to_sol relayer claimed_dto empty_world).0 ≡ ok (record { eth_tx = some hash_text })
unfolding running
handle_evm_to_sol_test = refl

handle_sol_to_evm_test :
    (handle_sol_to_evm relayer deposit_dto empty_world).0 ≡ ok (record { eth_tx = some hash_text })
unfolding running
handle_sol_to_evm_test = refl

-- The same deposit posted twice is paid twice, and settled twice: nothing looks at the row's status.
replay_test :
    length (
      writes
        (handle_sol_to_evm relayer deposit_dto
          (handle_sol_to_evm relayer deposit_dto empty_world).1).1.calls)
    ≡ 4
unfolding running
replay_test = refl
