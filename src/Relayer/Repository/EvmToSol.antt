-- ===== src/Relayer/Repository/EvmToSol.antt =====
-- relayer/src/common/entities/evm-to-sol.entity.ts and
-- relayer/src/common/repositories/evm-to-sol.repository.ts. The generated id and the two dates,
-- which the ORM fills in, are left out.
use lunarys_bridge.Prelude.{Option, none, some, ◌∷◌, []}
use lunarys_bridge.Prelude.Text.{Text, lit}
use lunarys_bridge.Prelude.Effect.{Eff, ok}
use lunarys_bridge.Relayer.Repository.Core.{
  BridgeStatus, received, verified, settled, failed, Repository, update, update_if_found, upsert,
}

pub record EvmToSolRecord : Type 0 where
  pub request_id : Text
  pub status : BridgeStatus
  pub token_evm : Text
  pub amount_evm : Text
  pub eth_claim_tx_hash : Option Text
  pub solana_signature : Text
  pub solana_recipient : Text
  pub token_sol_mint : Option Text
  pub amount_sol : Option Text
  pub dest_tx_hash : Option Text
  pub evidence_hash : Option Text
  pub evidence_url : Option Text
  pub settlement_tx_hash : Option Text
  pub last_error : Option Text

-- The argument of `upsertReceived`.
pub record Reception : Type 0 where
  pub request_id : Text
  pub token_evm : Text
  pub amount_evm : Text
  pub eth_claim_tx_hash : Option Text
  pub solana_signature : Text
  pub solana_recipient : Text
  pub evidence_url : Option Text

-- The members that a `patch` sets.
pub record Patch : Type 0 where
  pub token_sol_mint : Option Text
  pub amount_sol : Option Text
  pub dest_tx_hash : Option Text
  pub evidence_hash : Option Text

-- `save` leaves a column alone whose property is `undefined`.
abbrev pub or_old : Option Text → Option Text → Option Text
or_old none old = old
or_old (some new) old = some new

-- `Object.assign(existing, { ...data, status: RECEIVED })`
abbrev receive : Reception → EvmToSolRecord → EvmToSolRecord
receive d row = record row {
  request_id = d.request_id;
  status = received;
  token_evm = d.token_evm;
  amount_evm = d.amount_evm;
  eth_claim_tx_hash = or_old d.eth_claim_tx_hash row.eth_claim_tx_hash;
  solana_signature = d.solana_signature;
  solana_recipient = d.solana_recipient;
  evidence_url = or_old d.evidence_url row.evidence_url;
}

-- `repo.create({ ...data, status: RECEIVED })`
abbrev fresh : Reception → EvmToSolRecord
fresh d = record {
  request_id = d.request_id;
  status = received;
  token_evm = d.token_evm;
  amount_evm = d.amount_evm;
  eth_claim_tx_hash = d.eth_claim_tx_hash;
  solana_signature = d.solana_signature;
  solana_recipient = d.solana_recipient;
  token_sol_mint = none;
  amount_sol = none;
  dest_tx_hash = none;
  evidence_hash = none;
  evidence_url = d.evidence_url;
  settlement_tx_hash = none;
  last_error = none;
}

abbrev pub patched : Option Patch → EvmToSolRecord → EvmToSolRecord
patched none row = row
patched (some p) row = record row {
  token_sol_mint = or_old p.token_sol_mint row.token_sol_mint;
  amount_sol = or_old p.amount_sol row.amount_sol;
  dest_tx_hash = or_old p.dest_tx_hash row.dest_tx_hash;
  evidence_hash = or_old p.evidence_hash row.evidence_hash;
}

-- `if (settlementTxHash) rec.settlementTxHash = settlementTxHash`
abbrev pub or_kept : Option Text → Option Text → Option Text
or_kept none old = old
or_kept (some []) old = old
or_kept (some (c ∷ s)) old = some (c ∷ s)

abbrev missing : Text
missing = lit "EvmToSolRecord not found"

module _ {Db : Type 0} (repo : Repository EvmToSolRecord Db) where
  unfoldable pub upsert_received : Reception → Eff Db EvmToSolRecord
  upsert_received d = upsert repo d.request_id (receive d) (fresh d)

  unfoldable pub mark_verified : Text → Option Patch → Eff Db EvmToSolRecord
  mark_verified id patch =
      update repo id missing (λ row. patched patch (record row { status = verified }))

  unfoldable pub mark_settled : Text → Option Text → Option Patch → Eff Db EvmToSolRecord
  mark_settled id hash patch = update repo id missing (λ row.
      patched patch
        (record row { status = settled; settlement_tx_hash = or_kept hash row.settlement_tx_hash }))

  -- `err` is the message of the error, or the text that was given.
  unfoldable pub mark_failed : Text → Text → Eff Db (Option EvmToSolRecord)
  mark_failed id err =
      update_if_found repo id (λ row. record row { status = failed; last_error = some err })

  unfoldable pub get_by_request : Text → Eff Db (Option EvmToSolRecord)
  get_by_request id db = (ok (repo.find_one id db), db)
