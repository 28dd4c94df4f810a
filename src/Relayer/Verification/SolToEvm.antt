-- ===== src/Relayer/Verification/SolToEvm.antt =====
-- `handleSolToEvm` of relayer/src/verification/verification.service.ts: a user has paid into a
-- vault on Solana; the relayer checks that, pays on the EVM, and settles on Solana.
pub mod Deposited
pub mod Flow
pub mod Recorded
pub mod NoHash
use lunarys_bridge.Prelude.{
  ℕ, ◌≡◌, Bool, true, false, Option, none, some, ◌∷◌, [], ◌++◌, if◌then◌else◌,
}
use lunarys_bridge.Prelude.Int.{ℤ, pos, ltb_ℤ, leb_ℤ}
use lunarys_bridge.Prelude.Text.{Text, lit, is_empty}
use lunarys_bridge.Prelude.Numeral.{big_int, digits, to_text}
use lunarys_bridge.Prelude.Effect.{
  Result, ok, Failure, Eff, pure, raise, rethrow, lift, try_catch, bad_request, ◌>>=◌, ◌>>◌,
}
use lunarys_bridge.Relayer.Chain.{Chain, Trace, Receipt, ask, get_associated_token_address}
use lunarys_bridge.Relayer.TokenMapping.{
  EvmSide, SolSide, TokenInfo, find_token_info, adjust_to_evm_decimals,
}
use lunarys_bridge.Relayer.Solana.Verify.{verify_deposit}
use lunarys_bridge.Relayer.Solana.Settle.{
  VerifyAndSettleOnSolanaParams, verify_and_settle_on_solana,
}
use lunarys_bridge.Relayer.Ethereum.{read_contract_balance, send_deliver_tokens}
use lunarys_bridge.Relayer.Ethereum.Delivery.{DeliveryParams, verify_evm_delivery}
use lunarys_bridge.Relayer.Repository.SolToEvm.{
  Reception, upsert_received, mark_verified, mark_settled, mark_failed,
}
use lunarys_bridge.Relayer.World.{World, Relayer, on_s2e, on_chain}
use lunarys_bridge.Relayer.Verification.EvmToSol.{hash_of, or_syntax}

pub record SolToEvmVerificationDto : Type 0 where
  pub request_id : Text
  pub solana_deposit_signature : Text
  pub solana_vault : Text
  pub amount : Text
  pub evm_recipient : Text
  pub evm_token : Text
  pub solana_mint : Option Text

-- `{ delivered: true, ethTx }`
pub record Payment : Type 0 where
  pub eth_tx : Option Text

abbrev or_else : Option Text → Text → Text
or_else none d = d
or_else (some s) d = s

-- `Number(process.env.ETH_MIN_CONFIRMATIONS ?? 1)`
abbrev or_one : Option ℕ → ℕ
or_one none = 1
or_one (some n) = n

-- `s || d`
abbrev or_nonempty : Option Text → Text → Text
or_nonempty none d = d
or_nonempty (some s) d = if is_empty s then d else s

abbrev pub reception : SolToEvmVerificationDto → Reception
reception dto = record {
  request_id = dto.request_id;
  solana_deposit_signature = dto.solana_deposit_signature;
  solana_vault = dto.solana_vault;
  solana_mint = some (or_else dto.solana_mint []);
  amount_sol = dto.amount;
  evm_recipient = dto.evm_recipient;
  evm_token = dto.evm_token;
}

-- A token that is not in the mapping: 18 decimals on the EVM and 9 on Solana.
abbrev mapped_or_unknown : SolToEvmVerificationDto → Option TokenInfo → TokenInfo
mapped_or_unknown dto (some mapping) = mapping
mapped_or_unknown dto none = record {
  name = lit "Unknown";
  evm = record { address = dto.evm_token; decimals = 18 };
  sol = record { mint = or_else dto.solana_mint []; decimals = 9 };
}

module _ {D E : Type 0} (r : Relayer D E) (dto : SolToEvmVerificationDto) where
  unfoldable pub token_info : TokenInfo
  token_info = mapped_or_unknown dto (find_token_info r.tokens dto.evm_token)

  unfoldable pub reject : {A : Type 0} → Text → Eff (World D E) A
  reject message = on_s2e (mark_failed r.s2e dto.request_id message) >> raise bad_request message

  unfoldable pub check_addresses : Eff (World D E) (Unit {0})
  check_addresses =
      if r.chain.is_address dto.evm_recipient
      then (if r.chain.is_address dto.evm_token
          then pure tt
          else reject (lit "Invalid EVM token address"))
      else reject (lit "Invalid EVM recipient")

  -- 1): the deposit; no `try` is around it.
  unfoldable pub check_deposited : Eff (World D E) ℤ
  check_deposited = do
    amount ← lift (or_syntax (big_int dto.amount))
    on_chain (
        verify_deposit r.chain (record {
          signature = dto.solana_deposit_signature;
          vault = dto.solana_vault;
          amount = amount;
          mint = dto.solana_mint;
          program_id = none;
        }))
    pure amount

  -- 4)
  unfoldable pub check_payable : ℤ → ℕ → Eff (World D E) (Unit {0})
  check_payable amount balance =
      if ltb_ℤ (pos balance) amount
      then reject (
          lit "Insufficient bridge balance on EVM ("
          ++ digits 10 balance
          ++ lit " < "
          ++ to_text amount
          ++ lit ")")
      else if leb_ℤ amount (pos 0)
      then reject (lit "Amount must be greater than 0")
      else pure tt

  -- All that comes before the payment, 1) to 4): the amount in EVM units.
  unfoldable pub prepare : Eff (World D E) ℤ
  prepare = do
    check_addresses
    deposited ← check_deposited
    on_s2e (mark_verified r.s2e dto.request_id none)
    leg ← lift (adjust_to_evm_decimals deposited token_info)
    balance ← on_chain (read_contract_balance r.chain dto.evm_token)
    check_payable leg.0 balance
    pure leg.0

  abbrev pub delivery_of : Option Text → ℤ → DeliveryParams
  delivery_of hash amount = record {
    tx_hash = hash;
    token = dto.evm_token;
    to = dto.evm_recipient;
    amount = amount;
    min_confirmations = some (or_one r.min_confirmations);
  }

  -- 5.a): the payment is looked up in the logs of its transaction.
  unfoldable pub confirm_delivery : Option Text → ℤ → Eff (World D E) (Unit {0})
  confirm_delivery hash amount =
      try_catch (on_chain (verify_evm_delivery r.chain (delivery_of hash amount)))
        (λ e. reject (lit "[SOL->EVM] EVM delivery verification failed: " ++ e.message))

  -- The token account of the escrow, or the vault itself for native SOL.
  unfoldable pub escrow_token : Text → Eff Trace Text
  escrow_token mint = if is_empty mint then pure dto.solana_vault else (do
    m ← lift (r.chain.public_key mint)
    vault ← lift (r.chain.public_key dto.solana_vault)
    ask (get_associated_token_address m vault true)
        (λ t. r.chain.associated_token_address t m vault))

  abbrev pub mint_of_request : Text
  mint_of_request = or_else dto.solana_mint token_info.sol.mint

  abbrev pub settlement_of : Option Text → Text → VerifyAndSettleOnSolanaParams
  settlement_of hash escrow = record {
    request_id = dto.request_id;
    evm_transfer_tx_hash = hash;
    evidence_hash = none;
    accounts = record {
      payer = or_nonempty r.solana.relayer_pubkey dto.solana_vault;
      escrow_owner = dto.solana_vault;
      escrow_token = escrow;
      mint = or_nonempty (some mint_of_request) (lit "11111111111111111111111111111111");
      mxe_account = r.solana.mxe_pda;
      fee_pool = r.solana.fee_pool;
      clock = r.solana.clock;
      token_program = none;
      system_program = none;
    };
  }

  unfoldable pub settle_request : Option Text → Eff Trace Text
  settle_request hash = do
    escrow ← escrow_token mint_of_request
    verify_and_settle_on_solana r.chain r.anchor (settlement_of hash escrow)

  -- 6)
  unfoldable pub close_on_solana : Option Text → Eff (World D E) (Unit {0})
  close_on_solana hash =
      try_catch (on_chain (settle_request hash) >> pure tt)
        (λ e. reject (lit "[SOL->EVM] verify_and_settle on Solana failed: " ++ e.message))

  -- 7)
  unfoldable pub settle_row : Option Text → ℤ → Eff (World D E) Payment
  settle_row hash amount = do
    on_s2e (
        mark_settled r.s2e dto.request_id hash
          (some (record { amount_evm = some (to_text amount) })))
    pure (record { eth_tx = hash })

  -- 5) to 7), inside the outer `try`.
  unfoldable pub pay : ℤ → Eff (World D E) Payment
  pay amount = do
    receipt ← on_chain (send_deliver_tokens r.chain dto.evm_recipient dto.evm_token amount)
    confirm_delivery (hash_of receipt) amount
    close_on_solana (hash_of receipt)
    settle_row (hash_of receipt) amount

  unfoldable pub deliver : ℤ → Eff (World D E) Payment
  deliver amount =
      try_catch (pay amount) (λ e. on_s2e (mark_failed r.s2e dto.request_id e.message) >> rethrow e)

  unfoldable pub handle_sol_to_evm : Eff (World D E) Payment
  handle_sol_to_evm = do
    on_s2e (upsert_received r.s2e (reception dto))
    amount ← prepare
    deliver amount
