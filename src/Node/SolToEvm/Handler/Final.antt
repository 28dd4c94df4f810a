-- ===== src/Node/SolToEvm/Handler/Final.antt =====
-- How `onSolBridgeInitiated` leaves the request's status.
use lunarys_bridge.Prelude.{◌≡◌, refl, ◌∙◌, inl, inr, true, false, Option, some, ◌∷◌, Bool-cases}
use lunarys_bridge.Prelude.Text.{Text, lit, text_eq_iff}
use lunarys_bridge.Prelude.Effect.{Result, ok, thrown, Failure, Eff, try_catch, ◌>>=◌, bind-at}
use lunarys_bridge.Prelude.Effect.Outcome.{both, try-both-thrown, try-both-ok}
use lunarys_bridge.Node.Services.{ApiResponse}
use lunarys_bridge.Node.TokenMapping.{TokenMapping, find_by_mint}
use lunarys_bridge.Node.EvmToSol.{
  BridgeStatus, transferred, verified, failed, VerificationResponse, judged, failure_message,
}
use lunarys_bridge.Node.SolToEvm.{
  SolBridgeRequest, SolConfig, SolState, SolEntry, SolDetails, no_sol_details, sol_details_of,
  find_sol_entry, merge_sol, set_sol_status, sol_call, SolVerificationRequest, post_verification,
  submit_verification_sol_to_evm,
}
use lunarys_bridge.Node.SolToEvm.Handler.{
  sol_id, report, resolve_step, pay_on_evm, process_sol, on_sol_bridge_initiated,
}

module _ (cfg : SolConfig) (ev : SolBridgeRequest) where
  -- The request's entry has this status and this error.
  abbrev HasEntry : BridgeStatus → SolState → SolEntry → Type 0
  HasEntry s n e = (find_sol_entry (sol_id cfg ev) n.status ≡ some e) × (e.status ≡ s)

  -- All that comes before the report to the relayer: the destination with the claim, and the payment.
  abbrev pub pay_first_sol : Eff SolState ((Text × Text) × Text)
  pay_first_sol =
      both (resolve_step cfg ev)
        (λ out. pay_on_evm cfg ev out.0 (find_by_mint cfg.tokens ev.mint cfg.chain_id))

  -- Paid and called verified, with the transaction's hash; or the claim, the decryption or the payment
  -- threw, and the status is `failed` with the message of that error.
  pub data SolEnded (before after : SolState) : Type 0 where
    called_verified :
        {dest sig hash : Text} {n : SolState} {e : SolEntry}
        → pay_first_sol before ≡ (ok ((dest, sig), hash), n)
        → HasEntry verified after e
        → e.details.tx_hash ≡ some hash
        → SolEnded before after
    broken :
        {failure : Failure} {n : SolState} {e : SolEntry}
        → pay_first_sol before ≡ (thrown failure, n)
        → HasEntry failed after e
        → e.details.error ≡ some failure.message
        → SolEnded before after

  abbrev entry_of : BridgeStatus → SolDetails → SolState → SolEntry
  entry_of s d n = record {
    status = s;
    details = merge_sol (sol_details_of (find_sol_entry (sol_id cfg ev) n.status)) d;
  }

  status-found :
      (s : BridgeStatus) (d : SolDetails) (n : SolState)
      → HasEntry s (set_sol_status (sol_id cfg ev) s d n).1 (entry_of s d n)
  unfolding set_sol_status find_sol_entry
  status-found s d n = (rw ((text_eq_iff (sol_id cfg ev) (sol_id cfg ev)).1 refl) refl, refl)

  -- Whatever the relayer answers, `submitVerificationSolToEvm` returns.
  submitted :
      (q : SolVerificationRequest) (n : SolState)
      → (v : VerificationResponse) × (m : SolState) × (submit_verification_sol_to_evm cfg q n
          ≡ (ok v, m))
        × (m.status ≡ n.status)
  unfolding submit_verification_sol_to_evm sol_call try_catch ◌>>=◌
  submitted q n = elim (Bool-cases cfg.has_relayer_api) [
    | inl asked ↦ go asked (cfg.services.answer n.calls) refl
    | inr alone ↦ (
      record { success = true; message = lit "Skipped (no external relayer configured)" },
      n,
      rw alone refl,
      refl,
    )
  ]
    where
      go :
          cfg.has_relayer_api ≡ true
          → (x : Result ApiResponse) → cfg.services.answer n.calls ≡ x
          → (v : VerificationResponse) × (m : SolState) × (submit_verification_sol_to_evm cfg q n
              ≡ (ok v, m))
            × (m.status ≡ n.status)
      go asked (ok res) h =
          (judged res, record n { calls = post_verification q ∷ n.calls }, rw (asked, h) refl, refl)
      go asked (thrown e) h = (
        record { success = false; message = failure_message (cfg.services.response_message e) e },
        record n { calls = post_verification q ∷ n.calls },
        rw (asked, h) refl,
        refl,
      )

  hash_kept :
      (hash : Text) (message : Text) (n m : SolState)
      → m.status
        ≡ (set_sol_status
            (sol_id cfg ev)
            transferred
            (record no_sol_details { tx_hash = some hash })
            n).1.status
      → (entry_of verified (record no_sol_details { message = some message }) m).details.tx_hash
        ≡ some hash
  unfolding set_sol_status find_sol_entry merge_sol
  hash_kept hash message n m same =
      rw (same, (text_eq_iff (sol_id cfg ev) (sol_id cfg ev)).1 refl) refl

  report-verified :
      (dest sig hash : Text) (mapping : Option TokenMapping) (n : SolState)
      → (after : SolState) × (e : SolEntry) × (report cfg ev dest sig hash mapping n
          ≡ (ok tt, after))
        × HasEntry verified after e
        × (e.details.tx_hash ≡ some hash)
  unfolding report set_sol_status
  report-verified dest sig hash mapping n =
      let d : SolDetails = record no_sol_details { tx_hash = some hash } in
      let n1 : SolState = (set_sol_status (sol_id cfg ev) transferred d n).1 in
      let (v, m, sent, same) = submitted _ n1 in
      let said : SolDetails = record no_sol_details { message = some v.message } in
      (
        (set_sol_status (sol_id cfg ev) verified said m).1,
        entry_of verified said m,
        bind-at _ _ n tt n1 refl ∙ bind-at _ _ n1 v m sent,
        status-found verified said m,
        hash_kept hash v.message n m same,
      )

  failed-error :
      (message : Text) (n : SolState)
      → (entry_of failed (record no_sol_details { error = some message }) n).details.error
        ≡ some message
  unfolding merge_sol
  failed-error message n = refl

  -- Whatever the services answer, `onSolBridgeInitiated` returns and never throws. If the claim, the
  -- decryption and the payment return, the request's status is then `verified`, with the hash of the
  -- payment, whatever the relayer answers: a payment that it refuses is called verified too. If one of
  -- them throws, the status is `failed` with the message of that error. It is never `transferred`.
  pub sol_handler_ends :
      (n : SolState)
      → (after : SolState) × (on_sol_bridge_initiated cfg ev n ≡ (ok tt, after)) × SolEnded n after
  unfolding on_sol_bridge_initiated process_sol set_sol_status
  sol_handler_ends n = go (pay_first_sol n) refl
    where
      go :
          (x : Result ((Text × Text) × Text) × SolState)
          → pay_first_sol n ≡ x
          → (after : SolState) × (on_sol_bridge_initiated cfg ev n ≡ (ok tt, after))
            × SolEnded n after
      go (thrown e, m) h = (
        _,
        try-both-thrown _ _ _ _ n h,
        broken h (status-found failed (record no_sol_details { error = some e.message }) m)
            (failed-error e.message m),
      )
      go (ok ((dest, sig), hash), m) h =
          let (after, e, ran, found, its) =
            report-verified dest sig hash (find_by_mint cfg.tokens ev.mint cfg.chain_id) m in
          (after, try-both-ok _ _ _ _ n h ran, called_verified h found its)
