-- ===== src/Relayer/Verification/SolToEvm/Recorded.antt =====
-- What the request's row says once `handleSolToEvm` has tried to pay.
use mathlib.Core.Path.{subst}
use lunarys_bridge.Prelude.{◌≡◌, refl, ◌∷◌, [], Option, none, some}
use lunarys_bridge.Prelude.Int.{ℤ}
use lunarys_bridge.Prelude.Text.{Text}
use lunarys_bridge.Prelude.Numeral.{to_text}
use lunarys_bridge.Prelude.Effect.{Result, ok, thrown, Failure, Eff, rethrow, ◌>>=◌, ◌>>◌}
use lunarys_bridge.Prelude.Effect.Ends.{
  After, Keeps, Ends-bind, Ends-pure, Ends-try, Yields, Yields-bind, Yields-try,
}
use lunarys_bridge.Relayer.Chain.{Trace}
use lunarys_bridge.Relayer.Repository.Core.{IsRepository, settled, failed, update_if_found}
use lunarys_bridge.Relayer.Repository.Laws.{update-found}
use lunarys_bridge.Relayer.Repository.EvmToSol.{or_kept}
use lunarys_bridge.Relayer.Repository.SolToEvm.{SolToEvmRecord, mark_settled, mark_failed}
use lunarys_bridge.Relayer.World.{World, Relayer, on_s2e, on_chain}
use lunarys_bridge.Relayer.Verification.SolToEvm.{
  SolToEvmVerificationDto, Payment, reject, confirm_delivery, close_on_solana, settle_row, pay,
  deliver,
}

abbrev pub key : SolToEvmRecord → Text
key row = row.request_id

module _ {D E : Type 0} (r : Relayer D E) (laws : IsRepository key r.s2e)
    (dto : SolToEvmVerificationDto) where
  abbrev pub HasRow : World D E → Type 0
  HasRow w = (row : SolToEvmRecord) × (r.s2e.find_one dto.request_id w.s2e ≡ some row)

  -- The row is FAILED with this message.
  abbrev pub IsFailed : Text → World D E → Type 0
  IsFailed message w =
      (row : SolToEvmRecord) × (r.s2e.find_one dto.request_id w.s2e ≡ some row)
      × (row.status ≡ failed)
      × (row.last_error ≡ some message)

  -- The row is SETTLED, with the amount that was paid and with the hash that is returned, unless
  -- there is none.
  abbrev pub IsSettled : ℤ → Payment → World D E → Type 0
  IsSettled amount p w =
      (row : SolToEvmRecord) × (r.s2e.find_one dto.request_id w.s2e ≡ some row)
      × (row.status ≡ settled)
      × (row.amount_evm ≡ some (to_text amount))
      × (or_kept p.eth_tx row.settlement_tx_hash ≡ row.settlement_tx_hash)

  on_chain-HasRow : {A : Type 0} (m : Eff Trace A) → Keeps HasRow (on_chain m)
  unfolding on_chain
  on_chain-HasRow m = record { at = λ w h. go (m w.calls).0 w (m w.calls).1 h }
    where
      go :
          {A : Type 0} (x : Result A) (w : World D E) (t : Trace)
          → HasRow w
          → After HasRow (λ _. HasRow) (x, record w { calls = t })
      go (ok a) w t h = h
      go (thrown e) w t h = h

  saved :
      (row : SolToEvmRecord) (d : E)
      → row.request_id ≡ dto.request_id
      → r.s2e.find_one dto.request_id (r.s2e.save row d) ≡ some row
  saved row d e =
      subst (λ k. r.s2e.find_one k (r.s2e.save row d) ≡ some row) e (laws.find_one-save row d)

  abbrev failed_row : Text → SolToEvmRecord → SolToEvmRecord
  failed_row message row = record row { status = failed; last_error = some message }

  mark_failed-found :
      (message : Text) (w : World D E) (row : SolToEvmRecord)
      → r.s2e.find_one dto.request_id w.s2e ≡ some row
      → on_s2e (mark_failed r.s2e dto.request_id message) w ≡ (
        ok (some (failed_row message row)),
        record w { s2e = r.s2e.save (failed_row message row) w.s2e },
      )
  unfolding on_s2e mark_failed update_if_found
  mark_failed-found message w row e = rw e refl

  saved_failed :
      (message : Text) (w : World D E) (row : SolToEvmRecord)
      → r.s2e.find_one dto.request_id w.s2e ≡ some row
      → r.s2e.find_one dto.request_id (r.s2e.save (failed_row message row) w.s2e)
        ≡ some (failed_row message row)
  saved_failed message w row e = saved _ w.s2e (laws.key-find_one dto.request_id row w.s2e e)

  reject-HasRow : {A : Type 0} (message : Text) → Keeps HasRow (reject r dto {A = A} message)
  unfolding reject ◌>>=◌
  reject-HasRow message = record {
    at = λ w h. rw (mark_failed-found message w h.0 h.1) (_, saved_failed message w h.0 h.1);
  }

  rethrow-IsFailed :
      (amount : ℤ) (e : Failure)
      → Yields HasRow
          (IsSettled amount)
          IsFailed
          (on_s2e (mark_failed r.s2e dto.request_id e.message) >> rethrow e)
  unfolding ◌>>=◌
  rethrow-IsFailed amount e = record {
    at = λ w h.
        rw (mark_failed-found e.message w h.0 h.1)
          (_, saved_failed e.message w h.0 h.1, refl, refl);
  }

  kept_once : (hash old : Option Text) → or_kept hash (or_kept hash old) ≡ or_kept hash old
  kept_once none old = refl
  kept_once (some []) old = refl
  kept_once (some (c ∷ s)) old = refl

  settle_row-IsSettled :
      (hash : Option Text) (amount : ℤ)
      → Yields HasRow (IsSettled amount) (λ _. HasRow) (settle_row r dto hash amount)
  unfolding settle_row ◌>>=◌ on_s2e mark_settled
  settle_row-IsSettled hash amount = record {
    at = λ w h. rw (update-found laws dto.request_id _ _ h.0 w.s2e h.1) (
      _,
      saved _ w.s2e (laws.key-find_one dto.request_id h.0 w.s2e h.1),
      refl,
      refl,
      kept_once hash h.0.settlement_tx_hash,
    );
  }

  pay-IsSettled : (amount : ℤ) → Yields HasRow (IsSettled amount) (λ _. HasRow) (pay r dto amount)
  unfolding pay confirm_delivery close_on_solana
  pay-IsSettled amount = Yields-bind _ _ (on_chain-HasRow _) λ receipt.
      Yields-bind _ _ (Ends-try _ _ (on_chain-HasRow _) (λ e. reject-HasRow _)) λ _.
        Yields-bind _ _
          (Ends-try _ _ (Ends-bind _ _ (on_chain-HasRow _) (λ _. Ends-pure tt))
            (λ e. reject-HasRow _))
          λ _. settle_row-IsSettled _ amount

  -- For a request that has a row, in a table that keeps what is saved: when the payment and the
  -- steps behind it throw, the row is FAILED with the message of the error; when they return, it is
  -- SETTLED with the amount that was paid.
  pub payment_is_recorded :
      (amount : ℤ) → Yields HasRow (IsSettled amount) IsFailed (deliver r dto amount)
  unfolding deliver
  payment_is_recorded amount = Yields-try _ _ (pay-IsSettled amount) (rethrow-IsFailed amount)
