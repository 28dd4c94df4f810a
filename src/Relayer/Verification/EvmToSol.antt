-- ===== src/Relayer/Verification/EvmToSol.antt =====
-- `handleEvmToSol` of relayer/src/verification/verification.service.ts: a solver claims to have paid
-- on Solana; the relayer checks that and settles on the EVM.
pub mod Outcome
pub mod Checked
pub mod Once
pub mod Recorded
use lunarys_bridge.Prelude.{
  ℕ, ◌/◌, ◌≡◌, Bool, true, false, Option, none, some, List, [], ◌∷◌, ◌++◌, ltb, if◌then◌else◌,
}
use lunarys_bridge.Prelude.Int.{ℤ, pos, leb_ℤ}
use lunarys_bridge.Prelude.Text.{Text, lit, text_eq, is_empty}
use lunarys_bridge.Prelude.Numeral.{big_int, to_text}
use lunarys_bridge.Prelude.Effect.{
  Result, ok, thrown, Failure, Eff, pure, raise, rethrow, lift, try_catch, bad_request, syntax,
  ◌>>=◌, ◌>>◌,
}
use lunarys_bridge.Relayer.Chain.{
  Chain, Trace, BridgeRequestView, ClaimView, Receipt, ask, date_now,
}
use lunarys_bridge.Relayer.TokenMapping.{TokenInfo, find_token_info, adjust_to_sol_decimals}
use lunarys_bridge.Relayer.Solana.Verify.{verify_transfer}
use lunarys_bridge.Relayer.Ethereum.{read_bridge_request, read_claim, send_verify_and_settle}
use lunarys_bridge.Relayer.Repository.EvmToSol.{
  Reception, upsert_received, mark_verified, mark_settled, mark_failed,
}
use lunarys_bridge.Relayer.World.{World, Relayer, on_e2s, on_chain}

pub record EvmToSolVerificationDto : Type 0 where
  pub request_id : Text
  pub eth_claim_tx_hash : Text
  pub solana_transfer_signature : Text
  pub solana_destination : Text
  pub amount : Text
  pub token : Text
  pub evidence_url : Option Text

-- `{ verified: true, ethTx }`
pub record Settlement : Type 0 where
  pub eth_tx : Option Text

pub record Evidence : Type 0 where
  pub id : ℤ
  pub dest_tx_hash : Text
  pub evidence_hash : Text

abbrev pub zero_address : Text
zero_address = lit "0x0000000000000000000000000000000000000000"

-- `receipt?.transactionHash`
abbrev pub hash_of : Option Receipt → Option Text
hash_of none = none
hash_of (some r) = r.transaction_hash

-- `BigInt(dto.requestId)`
abbrev pub or_syntax : Option ℤ → Result ℤ
or_syntax none = thrown (record { kind = syntax; message = lit "Cannot convert to a BigInt" })
or_syntax (some z) = ok z

-- `ethers.keccak256(ethers.toUtf8Bytes(…))` of the signature, and of the text of the transfer.
unfoldable pub evidence : Chain → EvmToSolVerificationDto → ℤ → Evidence
evidence chain dto id = record {
  id = id;
  dest_tx_hash = chain.keccak256 dto.solana_transfer_signature;
  evidence_hash =
      chain.keccak256 (dto.token ++ lit "|" ++ dto.amount ++ lit "|" ++ dto.solana_destination);
}

-- 1): what is stored of the request.
abbrev pub reception : EvmToSolVerificationDto → Reception
reception dto = record {
  request_id = dto.request_id;
  token_evm = dto.token;
  amount_evm = dto.amount;
  eth_claim_tx_hash = some dto.eth_claim_tx_hash;
  solana_signature = dto.solana_transfer_signature;
  solana_recipient = dto.solana_destination;
  evidence_url = dto.evidence_url;
}

module _ {D E : Type 0} (r : Relayer D E) (dto : EvmToSolVerificationDto) where
  -- `await markFailed(requestId, msg); throw new BadRequestException(msg);`
  unfoldable pub reject : {A : Type 0} → Text → Eff (World D E) A
  reject message = on_e2s (mark_failed r.e2s dto.request_id message) >> raise bad_request message

  -- 1) and 2): the amount, if the request is well formed.
  unfoldable pub check_amount : Option ℤ → Eff (World D E) ℤ
  check_amount none = reject (lit "Invalid amount format")
  check_amount (some amount) =
      if leb_ℤ amount (pos 0) then reject (lit "Amount must be greater than 0") else pure amount

  unfoldable pub check_request : Eff (World D E) ℤ
  check_request =
      if is_empty dto.solana_transfer_signature
      then reject (lit "Missing Solana signature")
      else if is_empty dto.solana_destination
      then reject (lit "Missing Solana destination")
      else check_amount (big_int dto.amount)

  -- 3): the amount in Solana units, and the mint.
  unfoldable pub convert : ℤ → Option TokenInfo → Eff (World D E) (ℤ × Text)
  convert amount none =
      reject
        (lit "Unknown ERC20→SPL mapping. Configure TOKEN_USDC / TOKEN_SOL (and decimals) in env.")
  convert amount (some mapping) =
      if is_empty mapping.sol.mint
      then reject (lit "Missing SPL mint in token mapping")
      else pure (adjust_to_sol_decimals amount mapping)

  -- 4): the leg on Solana.
  unfoldable pub verify_leg : ℤ × Text → Eff (World D E) (Unit {0})
  verify_leg (amount, mint) =
      try_catch
        (on_chain (
            verify_transfer r.chain (record {
              signature = dto.solana_transfer_signature;
              recipient = dto.solana_destination;
              amount = amount;
              mint = some mint;
            }))
          >> pure tt)
        (λ e. reject (lit "[EVM->SOL] Solana transfer verification failed: " ++ e.message))

  -- 6): the request and the claim on the EVM.
  unfoldable pub check_bridge_request : Option BridgeRequestView → Eff (World D E) (Unit {0})
  check_bridge_request none = reject (lit "Bridge request not found on EVM")
  check_bridge_request (some br) =
      if text_eq br.sender zero_address
      then reject (lit "Bridge request not found on EVM")
      else if br.finalized
      then reject (lit "Request is already finalized")
      else pure tt

  unfoldable pub check_deadline : ClaimView → ℕ → Eff (World D E) (Unit {0})
  check_deadline cl millis =
      if ltb cl.deadline (millis / 1000) then reject (lit "Claim already expired") else pure tt

  unfoldable pub check_claim : Option ClaimView → Eff (World D E) (Unit {0})
  check_claim none = reject (lit "No active claim for this request")
  check_claim (some cl) =
      if text_eq cl.solver zero_address
      then reject (lit "No active claim for this request")
      else (do millis ← on_chain (ask date_now (λ t. ok (r.chain.now t))); check_deadline cl millis)

  -- 8): settle, and remember how it went.
  unfoldable pub settle : Evidence → Eff (World D E) Settlement
  settle ev =
      try_catch
        (do
          receipt ← on_chain (
              send_verify_and_settle r.chain ev.id ev.dest_tx_hash ev.evidence_hash
                dto.evidence_url)
          on_e2s (mark_settled r.e2s dto.request_id (hash_of receipt) none)
          pure (record { eth_tx = hash_of receipt }))
        (λ e. on_e2s (mark_failed r.e2s dto.request_id e.message) >> rethrow e)

  -- All that comes before the settlement, 1) to 7).
  unfoldable pub prepare : Eff (World D E) Evidence
  prepare = do
    amount ← check_request
    leg ← convert amount (find_token_info r.tokens dto.token)
    verify_leg leg
    id ← lift (or_syntax (big_int dto.request_id))
    br ← on_chain (read_bridge_request r.chain id)
    check_bridge_request br
    cl ← on_chain (read_claim r.chain id)
    check_claim cl
    on_e2s (
        mark_verified r.e2s dto.request_id (
          some (record {
            token_sol_mint = some leg.1;
            amount_sol = some (to_text leg.0);
            dest_tx_hash = some (evidence r.chain dto id).dest_tx_hash;
            evidence_hash = some (evidence r.chain dto id).evidence_hash;
          })))
    pure (evidence r.chain dto id)

  unfoldable pub handle_evm_to_sol : Eff (World D E) Settlement
  handle_evm_to_sol = do on_e2s (upsert_received r.e2s (reception dto)); ev ← prepare; settle ev
