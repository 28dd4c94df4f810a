-- ===== src/Relayer/Verification/EvmToSol/Recorded.antt =====
-- What the request's row says when `handleEvmToSol` ends.
use lunarys_bridge.Prelude.{◌≡◌, refl, ◌∷◌, [], Option, none, some}
use lunarys_bridge.Prelude.Int.{ℤ}
use lunarys_bridge.Prelude.Text.{Text}
use lunarys_bridge.Prelude.Numeral.{big_int}
use lunarys_bridge.Prelude.Effect.{
  Result, ok, thrown, pure, rethrow, continue, ◌>>=◌, ◌>>◌, handle, try_catch, bind-at,
}
use lunarys_bridge.Prelude.Effect.Ends.{After}
use lunarys_bridge.Relayer.Chain.{Receipt}
use lunarys_bridge.Relayer.Ethereum.{send_verify_and_settle}
use lunarys_bridge.Relayer.Repository.Core.{IsRepository, settled, upsert}
use lunarys_bridge.Relayer.Repository.Laws.{update-found, key-assigned}
use lunarys_bridge.Relayer.Repository.EvmToSol.{
  EvmToSolRecord, Reception, or_kept, upsert_received, mark_settled, mark_failed,
}
use lunarys_bridge.Relayer.World.{World, Relayer, on_e2s, on_chain}
use lunarys_bridge.Relayer.Verification.EvmToSol.{
  EvmToSolVerificationDto, Settlement, Evidence, hash_of, reception, settle, prepare,
  handle_evm_to_sol,
}
use lunarys_bridge.Relayer.Verification.EvmToSol.Outcome.{
  key, HasRow, IsFailed, saved, mark_failed-found, failed_row-IsFailed, prepare-Ends,
}

module _ {D E : Type 0} (r : Relayer D E) (laws : IsRepository key r.e2s)
    (dto : EvmToSolVerificationDto) where
  -- The row is SETTLED, with the hash that is returned, unless there is none.
  pub IsSettled : Settlement → World D E → Type 0
  IsSettled s w =
      (row : EvmToSolRecord) × (r.e2s.find_one dto.request_id w.e2s ≡ some row)
      × (row.status ≡ settled)
      × (or_kept s.eth_tx row.settlement_tx_hash ≡ row.settlement_tx_hash)

  pub Recorded : Result Settlement × World D E → Type 0
  Recorded (ok s, w) = IsSettled s w
  Recorded (thrown e, w) = IsFailed r laws dto e.message w

  kept_once : (hash old : Option Text) → or_kept hash (or_kept hash old) ≡ or_kept hash old
  kept_once none old = refl
  kept_once (some []) old = refl
  kept_once (some (c ∷ s)) old = refl

  finish :
      (ev : Evidence) (x : Result (Option Receipt) × World D E)
      → HasRow r laws dto x.1
      → Recorded (
          handle
            (λ e. on_e2s (mark_failed r.e2s dto.request_id e.message) >> rethrow e)
            (continue
              (λ receipt.
                on_e2s (mark_settled r.e2s dto.request_id (hash_of receipt) none)
                >> pure (record { eth_tx = hash_of receipt }))
              x))
  unfolding Recorded IsSettled ◌>>=◌ on_e2s mark_settled
  finish ev (thrown e, w) (row, found) =
      rw (mark_failed-found r laws dto e.message w row found)
        (failed_row-IsFailed r laws dto e.message w row found)
  finish ev (ok receipt, w) (row, found) =
      rw (update-found laws dto.request_id _ _ row w.e2s found) (
        _,
        saved r laws dto _ w.e2s (laws.key-find_one dto.request_id row w.e2s found),
        refl,
        kept_once (hash_of receipt) row.settlement_tx_hash,
      )

  settle-Recorded :
      (ev : Evidence) (w : World D E) → HasRow r laws dto w → Recorded (settle r dto ev w)
  unfolding settle try_catch ◌>>=◌ on_chain
  settle-Recorded ev w h =
      let (x, t) =
        send_verify_and_settle r.chain ev.id ev.dest_tx_hash ev.evidence_hash dto.evidence_url
          w.calls in
      finish ev (x, record w { calls = t }) h

  prepared_then :
      (x : Result Evidence × World D E)
      → After (HasRow r laws dto) (IsFailed r laws dto) x
      → Recorded (continue (settle r dto) x)
  unfolding Recorded
  prepared_then (thrown e, w) h = h
  prepared_then (ok ev, w) h = settle-Recorded ev w h

  received_row :
      (w : World D E) (d : Reception)
      → d.request_id ≡ dto.request_id
      → HasRow r laws dto (on_e2s (upsert_received r.e2s d) w).1
  unfolding on_e2s upsert_received upsert
  received_row w d e = (
    _,
    saved r laws dto _ w.e2s
        (key-assigned laws dto.request_id _ _ (r.e2s.find_one d.request_id w.e2s) (λ row. e) e),
  )

  then_settle :
      (w : World D E) (id : ℤ)
      → big_int dto.request_id ≡ some id
      → HasRow r laws dto w
      → Recorded ((prepare r dto >>= settle r dto) w)
  unfolding ◌>>=◌
  then_settle w id known h =
      prepared_then (prepare r dto w) ((prepare-Ends r laws dto id known).at w h)

  -- For a request id that reads as a number, and a table that keeps what is saved: when
  -- `handleEvmToSol` throws, the request's row is FAILED with the message of the error; when it
  -- returns, the row is SETTLED, with the hash that is returned unless there is none.
  pub failure_is_Recorded :
      (w : World D E) (id : ℤ)
      → big_int dto.request_id ≡ some id
      → Recorded (handle_evm_to_sol r dto w)
  unfolding handle_evm_to_sol on_e2s upsert_received upsert
  failure_is_Recorded w id known = rw (bind-at _ (λ _. prepare r dto >>= settle r dto) w _ _ refl) (
      then_settle (on_e2s (upsert_received r.e2s (reception dto)) w).1 id known
        (received_row w (reception dto) refl))
