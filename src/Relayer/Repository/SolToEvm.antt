-- ===== src/Relayer/Repository/SolToEvm.antt =====
-- relayer/src/common/entities/sol-to-evm.entity.ts and
-- relayer/src/common/repositories/sol-to-evm.repository.ts. The generated id and the two dates,
-- which the ORM fills in, are left out.
use lunarys_bridge.Prelude.{Option, none, some}
use lunarys_bridge.Prelude.Text.{Text, lit}
use lunarys_bridge.Prelude.Effect.{Eff, ok}
use lunarys_bridge.Relayer.Repository.Core.{
  BridgeStatus, received, verified, settled, failed, Repository, update, update_if_found, upsert,
}
use lunarys_bridge.Relayer.Repository.EvmToSol.{or_old, or_kept}

pub record SolToEvmRecord : Type 0 where
  pub request_id : Text
  pub status : BridgeStatus
  pub solana_deposit_signature : Text
  pub solana_vault : Text
  pub solana_mint : Option Text
  pub amount_sol : Text
  pub evm_recipient : Text
  pub evm_token : Text
  pub amount_evm : Option Text
  pub settlement_tx_hash : Option Text
  pub last_error : Option Text

-- The argument of `upsertReceived`.
pub record Reception : Type 0 where
  pub request_id : Text
  pub solana_deposit_signature : Text
  pub solana_vault : Text
  pub solana_mint : Option Text
  pub amount_sol : Text
  pub evm_recipient : Text
  pub evm_token : Text

-- The member that a `patch` sets.
pub record Patch : Type 0 where
  pub amount_evm : Option Text

-- `Object.assign(existing, { ...data, status: RECEIVED })`
abbrev receive : Reception → SolToEvmRecord → SolToEvmRecord
receive d row = record row {
  request_id = d.request_id;
  status = received;
  solana_deposit_signature = d.solana_deposit_signature;
  solana_vault = d.solana_vault;
  solana_mint = or_old d.solana_mint row.solana_mint;
  amount_sol = d.amount_sol;
  evm_recipient = d.evm_recipient;
  evm_token = d.evm_token;
}

-- `repo.create({ ...data, status: RECEIVED })`
abbrev fresh : Reception → SolToEvmRecord
fresh d = record {
  request_id = d.request_id;
  status = received;
  solana_deposit_signature = d.solana_deposit_signature;
  solana_vault = d.solana_vault;
  solana_mint = d.solana_mint;
  amount_sol = d.amount_sol;
  evm_recipient = d.evm_recipient;
  evm_token = d.evm_token;
  amount_evm = none;
  settlement_tx_hash = none;
  last_error = none;
}

abbrev pub patched : Option Patch → SolToEvmRecord → SolToEvmRecord
patched none row = row
patched (some p) row = record row { amount_evm = or_old p.amount_evm row.amount_evm }

abbrev missing : Text
missing = lit "SolToEvmRecord not found"

module _ {Db : Type 0} (repo : Repository SolToEvmRecord Db) where
  unfoldable pub upsert_received : Reception → Eff Db SolToEvmRecord
  upsert_received d = upsert repo d.request_id (receive d) (fresh d)

  unfoldable pub mark_verified : Text → Option Patch → Eff Db SolToEvmRecord
  mark_verified id patch =
      update repo id missing (λ row. patched patch (record row { status = verified }))

  unfoldable pub mark_settled : Text → Option Text → Option Patch → Eff Db SolToEvmRecord
  mark_settled id hash patch = update repo id missing (λ row.
      patched patch
        (record row { status = settled; settlement_tx_hash = or_kept hash row.settlement_tx_hash }))

  -- `err` is the message of the error, or the text that was given.
  unfoldable pub mark_failed : Text → Text → Eff Db (Option SolToEvmRecord)
  mark_failed id err =
      update_if_found repo id (λ row. record row { status = failed; last_error = some err })

  unfoldable pub get_by_request : Text → Eff Db (Option SolToEvmRecord)
  get_by_request id db = (ok (repo.find_one id db), db)
