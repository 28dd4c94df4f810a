-- ===== src/Relayer/Repository/Isolation/SolToEvm.antt =====
-- The SOL→EVM table of relayer/src/common/repositories.
use lunarys_bridge.Prelude.{◌≡◌, ◌≢◌, refl, ◌∙◌, Option, none, some}
use lunarys_bridge.Prelude.Text.{Text}
use lunarys_bridge.Relayer.Repository.Core.{Repository, IsRepository}
use lunarys_bridge.Relayer.Repository.SolToEvm.{
  SolToEvmRecord, Reception, Patch, patched, upsert_received, mark_verified, mark_settled,
  mark_failed,
}
use lunarys_bridge.Relayer.Repository.Isolation.{
  SameRow, update-SameRow, update_if_found-SameRow, upsert-SameRow,
}

patched-request_id :
    (p : Option Patch) (row : SolToEvmRecord) → (patched p row).request_id ≡ row.request_id
patched-request_id none row = refl
patched-request_id (some p) row = refl

-- In a table that keeps what is saved, no operation on one request's row of the SOL→EVM table
-- touches the row of another request: not the reception, nor any of the three marks.
pub sol_to_evm_isolation :
    {Db : Type 0} {repo : Repository SolToEvmRecord Db}
    → IsRepository (λ row. row.request_id) repo
    → (d : Reception) (j : Text) (p q : Option Patch) (hash : Option Text) (err : Text) (db : Db)
    → d.request_id ≢ j
    → SameRow repo j db (upsert_received repo d db).1
      × SameRow repo j db (mark_verified repo d.request_id p db).1
      × SameRow repo j db (mark_settled repo d.request_id hash q db).1
      × SameRow repo j db (mark_failed repo d.request_id err db).1
unfolding upsert_received mark_verified mark_settled mark_failed
sol_to_evm_isolation laws d j p q hash err db other = (
  upsert-SameRow laws d.request_id j other db _ _ (λ row e. refl) refl,
  update-SameRow laws d.request_id j other db _ _ (λ row e. patched-request_id p _ ∙ e),
  update-SameRow laws d.request_id j other db _ _ (λ row e. patched-request_id q _ ∙ e),
  update_if_found-SameRow laws d.request_id j other db _ (λ row e. e),
)
