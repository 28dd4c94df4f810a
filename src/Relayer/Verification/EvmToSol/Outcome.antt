-- ===== src/Relayer/Verification/EvmToSol/Outcome.antt =====
-- How the stages of `handleEvmToSol` leave the request's row.
use mathlib.Core.Path.{subst}
use lunarys_bridge.Prelude.{◌≡◌, refl, sym, ◌∙◌, ap, ◌∷◌, Option, none, some}
use lunarys_bridge.Prelude.Int.{ℤ}
use lunarys_bridge.Prelude.Text.{Text, text_eq, is_empty}
use lunarys_bridge.Prelude.Numeral.{big_int}
use lunarys_bridge.Prelude.Effect.{
  Result, ok, thrown, Failure, Eff, pure, rethrow, try_catch, handle, continue, ◌>>=◌, ◌>>◌,
}
use lunarys_bridge.Prelude.Effect.Ends.{
  After, Ends, Keeps, Ends-bind, Ends-pure, Ends-lift, Ends-if, Ends-try,
}
use lunarys_bridge.Relayer.Chain.{
  Trace, BridgeRequestView, ClaimView, get_bridge_request, request_claim,
}
use lunarys_bridge.Relayer.Ethereum.{read_bridge_request, read_claim}
use lunarys_bridge.Relayer.TokenMapping.{TokenInfo}
use lunarys_bridge.Relayer.Repository.Core.{IsRepository, failed, update, update_if_found}
use lunarys_bridge.Relayer.Repository.Laws.{update-found}
use lunarys_bridge.Relayer.Repository.EvmToSol.{
  EvmToSolRecord, mark_verified, mark_settled, mark_failed, Patch,
}
use lunarys_bridge.Relayer.World.{World, Relayer, on_e2s, on_chain}
use lunarys_bridge.Relayer.Verification.EvmToSol.{
  EvmToSolVerificationDto, Evidence, reject, check_amount, check_request, convert, verify_leg,
  check_bridge_request, check_deadline, check_claim, settle, prepare, or_syntax, zero_address,
}

abbrev pub key : EvmToSolRecord → Text
key row = row.request_id

module _ {D E : Type 0} (r : Relayer D E) (laws : IsRepository key r.e2s)
    (dto : EvmToSolVerificationDto) where
  -- The request has a row.
  abbrev pub HasRow : World D E → Type 0
  HasRow w = (row : EvmToSolRecord) × (r.e2s.find_one dto.request_id w.e2s ≡ some row)

  -- Its row is FAILED with this message.
  abbrev pub IsFailed : Text → World D E → Type 0
  IsFailed message w =
      (row : EvmToSolRecord) × (r.e2s.find_one dto.request_id w.e2s ≡ some row)
      × (row.status ≡ failed)
      × (row.last_error ≡ some message)

  on_chain-Ends : {A : Type 0} (m : Eff Trace A) → Keeps HasRow (on_chain m)
  unfolding on_chain
  on_chain-Ends m = record { at = λ w h. go (m w.calls).0 w (m w.calls).1 h }
    where
      go :
          {A : Type 0} (x : Result A) (w : World D E) (t : Trace)
          → HasRow w
          → After HasRow (λ _. HasRow) (x, record w { calls = t })
      go (ok a) w t h = h
      go (thrown e) w t h = h

  pub saved :
      (row : EvmToSolRecord) (d : D)
      → row.request_id ≡ dto.request_id
      → r.e2s.find_one dto.request_id (r.e2s.save row d) ≡ some row
  saved row d e =
      subst (λ k. r.e2s.find_one k (r.e2s.save row d) ≡ some row) e (laws.find_one-save row d)

  -- `markFailed` of a request that has a row.
  abbrev pub failed_row : Text → EvmToSolRecord → EvmToSolRecord
  failed_row message row = record row { status = failed; last_error = some message }

  pub mark_failed-found :
      (message : Text) (w : World D E) (row : EvmToSolRecord)
      → r.e2s.find_one dto.request_id w.e2s ≡ some row
      → on_e2s (mark_failed r.e2s dto.request_id message) w ≡ (
        ok (some (failed_row message row)),
        record w { e2s = r.e2s.save (failed_row message row) w.e2s },
      )
  unfolding on_e2s mark_failed update_if_found
  mark_failed-found message w row e = rw e refl

  pub failed_row-IsFailed :
      (message : Text) (w : World D E) (row : EvmToSolRecord)
      → r.e2s.find_one dto.request_id w.e2s ≡ some row
      → IsFailed message (record w { e2s = r.e2s.save (failed_row message row) w.e2s })
  failed_row-IsFailed message w row e = (
    failed_row message row,
    saved _ w.e2s (laws.key-find_one dto.request_id row w.e2s e),
    refl,
    refl,
  )

  reject-Ends : {A : Type 0} (message : Text) → Ends HasRow IsFailed (reject r dto {A = A} message)
  unfolding reject ◌>>=◌
  reject-Ends {A} message = record {
    at = λ w h. rw (mark_failed-found message w h.0 h.1) (failed_row-IsFailed message w h.0 h.1);
  }

  pub rethrow-Ends :
      {A : Type 0} (e : Failure)
      → Ends HasRow IsFailed
          (on_e2s (mark_failed r.e2s dto.request_id e.message) >> rethrow {A = A} e)
  unfolding ◌>>=◌
  rethrow-Ends {A} e = record {
    at =
        λ w h. rw (mark_failed-found e.message w h.0 h.1) (failed_row-IsFailed e.message w h.0 h.1);
  }

  -- The two marks that keep the row.
  update_row-Ends :
      (Q : Text → World D E → Type 0) (message : Text) (f : EvmToSolRecord → EvmToSolRecord)
      → ((row : EvmToSolRecord) → (f row).request_id ≡ row.request_id)
      → Ends HasRow Q (on_e2s (update r.e2s dto.request_id message f))
  unfolding on_e2s
  update_row-Ends Q message f same = record {
    at = λ w h.
        rw (update-found laws dto.request_id message f h.0 w.e2s h.1)
          (f h.0, saved (f h.0) w.e2s (same h.0 ∙ laws.key-find_one dto.request_id h.0 w.e2s h.1));
  }

  mark_verified-Ends :
      (Q : Text → World D E → Type 0) (p : Option Patch)
      → Ends HasRow Q (on_e2s (mark_verified r.e2s dto.request_id p))
  unfolding mark_verified
  mark_verified-Ends Q none = update_row-Ends Q _ _ (λ row. refl)
  mark_verified-Ends Q (some p) = update_row-Ends Q _ _ (λ row. refl)

  mark_settled-Ends :
      (Q : Text → World D E → Type 0) (hash : Option Text) (p : Option Patch)
      → Ends HasRow Q (on_e2s (mark_settled r.e2s dto.request_id hash p))
  unfolding mark_settled
  mark_settled-Ends Q hash none = update_row-Ends Q _ _ (λ row. refl)
  mark_settled-Ends Q hash (some p) = update_row-Ends Q _ _ (λ row. refl)

  -- A read that never throws.
  abbrev Returns : {A : Type 0} → Eff Trace A → Type 0
  Returns {A} m = (t : Trace) → (a : A) × ((m t).0 ≡ ok a)

  on_chain-Returns :
      {A : Type 0} (Q : Text → World D E → Type 0) (m : Eff Trace A)
      → Returns m
      → Ends HasRow Q (on_chain m)
  unfolding on_chain
  on_chain-Returns Q m total = record {
    at = λ w h.
        subst (λ x. After HasRow Q (x, record w { calls = (m w.calls).1 })) (sym (total w.calls).1)
          h;
  }

  read_bridge_request-Returns : (id : ℤ) → Returns (read_bridge_request r.chain id)
  unfolding read_bridge_request ◌>>=◌ try_catch
  read_bridge_request-Returns id t = go (r.chain.bridge_request t id)
    where
      go :
          (x : Result BridgeRequestView)
          → (a : Option BridgeRequestView) × ((handle
                (λ _. pure none)
                (continue (λ br. pure (some br)) (x, get_bridge_request id ∷ t))).0
              ≡ ok a)
      go (ok br) = (some br, refl)
      go (thrown e) = (none, refl)

  read_claim-Returns : (id : ℤ) → Returns (read_claim r.chain id)
  unfolding read_claim ◌>>=◌ try_catch
  read_claim-Returns id t = go (r.chain.claim t id)
    where
      go :
          (x : Result ClaimView)
          → (a : Option ClaimView) × ((handle
                (λ _. pure none)
                (continue (λ c. pure (some c)) (x, request_claim id ∷ t))).0
              ≡ ok a)
      go (ok c) = (some c, refl)
      go (thrown e) = (none, refl)

  check_amount-Ends : (o : Option ℤ) → Ends HasRow IsFailed (check_amount r dto o)
  unfolding check_amount
  check_amount-Ends none = reject-Ends _
  check_amount-Ends (some amount) = Ends-if _ _ _ (reject-Ends _) (Ends-pure amount)

  check_request-Ends : Ends HasRow IsFailed (check_request r dto)
  unfolding check_request
  check_request-Ends = Ends-if (is_empty dto.solana_transfer_signature) _ _ (reject-Ends _) (
      Ends-if (is_empty dto.solana_destination) _ _ (reject-Ends _)
        (check_amount-Ends (big_int dto.amount)))

  convert-Ends : (amount : ℤ) (o : Option TokenInfo) → Ends HasRow IsFailed (convert r dto amount o)
  unfolding convert
  convert-Ends amount none = reject-Ends _
  convert-Ends amount (some m) = Ends-if _ _ _ (reject-Ends _) (Ends-pure _)

  verify_leg-Ends : (leg : ℤ × Text) → Ends HasRow IsFailed (verify_leg r dto leg)
  unfolding verify_leg
  verify_leg-Ends leg =
      Ends-try _ _ (Ends-bind _ _ (on_chain-Ends _) (λ _. Ends-pure tt)) (λ e. reject-Ends _)

  check_bridge_request-Ends :
      (o : Option BridgeRequestView) → Ends HasRow IsFailed (check_bridge_request r dto o)
  unfolding check_bridge_request
  check_bridge_request-Ends none = reject-Ends _
  check_bridge_request-Ends (some br) =
      Ends-if (text_eq br.sender zero_address) _ _ (reject-Ends _)
        (Ends-if br.finalized _ _ (reject-Ends _) (Ends-pure tt))

  check_claim-Ends : (o : Option ClaimView) → Ends HasRow IsFailed (check_claim r dto o)
  unfolding check_claim check_deadline
  check_claim-Ends none = reject-Ends _
  check_claim-Ends (some cl) = Ends-if _ _ _ (reject-Ends _) (
      Ends-bind _ _ (on_chain-Returns IsFailed _ (λ t. (r.chain.now t, refl)))
        (λ millis. Ends-if _ _ _ (reject-Ends _) (Ends-pure tt)))

  settle-Ends : (ev : Evidence) → Ends HasRow IsFailed (settle r dto ev)
  unfolding settle
  settle-Ends ev =
      Ends-try _ _
        (Ends-bind _ _ (on_chain-Ends _)
          (λ receipt. Ends-bind _ _ (mark_settled-Ends (λ _. HasRow) _ none) (λ _. Ends-pure _)))
        rethrow-Ends

  pub prepare-Ends :
      (id : ℤ) → big_int dto.request_id ≡ some id → Ends HasRow IsFailed (prepare r dto)
  unfolding prepare
  prepare-Ends id known = Ends-bind _ _ check_request-Ends λ amount.
      Ends-bind _ _ (convert-Ends amount _) λ leg. Ends-bind _ _ (verify_leg-Ends leg) λ _.
        Ends-bind _ _ (Ends-lift _ id (ap or_syntax known)) λ n.
          Ends-bind _ _ (on_chain-Returns IsFailed _ (read_bridge_request-Returns n)) λ br.
            Ends-bind _ _ (check_bridge_request-Ends br) λ _.
              Ends-bind _ _ (on_chain-Returns IsFailed _ (read_claim-Returns n)) λ cl.
                Ends-bind _ _ (check_claim-Ends cl)
                  λ _. Ends-bind _ _ (mark_verified-Ends IsFailed _) λ _. Ends-pure _
