-- ===== src/Relayer/Verification/EvmToSol/Once.antt =====
-- What `handleEvmToSol` sends to the EVM, and what its row says in the end.
use lunarys_bridge.Prelude.{◌≡◌, refl, ap, ◌∙◌, ◌⊎◌, inl, inr, ◌∷◌, Option, none, some}
use lunarys_bridge.Prelude.Int.{ℤ, pos, leb_ℤ}
use lunarys_bridge.Prelude.Text.{Text, text_eq, is_empty}
use lunarys_bridge.Prelude.Effect.{Result, ok, thrown, continue, ◌>>=◌, bind-at}
use lunarys_bridge.Prelude.Effect.Ends.{
  Keeps, Ends-bind, Ends-pure, Ends-if, Ends-try, Keeps-lift, Keeps-raise,
}
use lunarys_bridge.Relayer.Chain.{Call, Trace, BridgeRequestView, ClaimView, verify_and_settle}
use lunarys_bridge.Relayer.TokenMapping.{TokenInfo}
use lunarys_bridge.Relayer.Ethereum.{url_argument, send_verify_and_settle}
use lunarys_bridge.Relayer.Writes.{
  writes, Wrote, ask-Reads, verify_transfer-Reads, read_bridge_request-Reads, read_claim-Reads,
}
use lunarys_bridge.Prelude.Effect.Leads.{Leads, Leads-bind, Leads-Keeps, Leads-try}
use lunarys_bridge.Relayer.Writes.Lifted.{
  ask-Writes, WroteAll, on_chain-Reads, on_e2s-Reads, on_chain-Leads,
}
use lunarys_bridge.Relayer.Repository.Core.{upsert}
use lunarys_bridge.Relayer.Repository.EvmToSol.{upsert_received}
use lunarys_bridge.Relayer.World.{World, Relayer, on_e2s}
use lunarys_bridge.Relayer.Verification.EvmToSol.{
  EvmToSolVerificationDto, Evidence, reject, check_amount, check_request, convert, verify_leg,
  check_bridge_request, check_deadline, check_claim, settle, prepare, handle_evm_to_sol,
  zero_address, evidence,
}
use lunarys_bridge.Relayer.Verification.EvmToSol.Checked.{Checked, prepare-Checked}

module _ {D E : Type 0} (r : Relayer D E) (dto : EvmToSolVerificationDto) where
  abbrev settlement_of : Evidence → Call
  settlement_of ev =
      verify_and_settle ev.id ev.dest_tx_hash ev.evidence_hash (url_argument dto.evidence_url)

  -- The one transaction that the handler may send, for a request that was checked.
  abbrev pub settlement : Checked r dto → Call
  settlement c = settlement_of (evidence r.chain dto c.id)

  module _ (ws : Trace) where
    reject-Reads :
        {A : Type 0} (message : Text) → Keeps (WroteAll ws) (reject r dto {A = A} message)
    unfolding reject
    reject-Reads message = Ends-bind _ _ (on_e2s-Reads ws _) (λ _. Keeps-raise _ _)

    check_amount-Reads : (o : Option ℤ) → Keeps (WroteAll ws) (check_amount r dto o)
    unfolding check_amount
    check_amount-Reads none = reject-Reads _
    check_amount-Reads (some amount) =
        Ends-if (leb_ℤ amount (pos 0)) _ _ (reject-Reads _) (Ends-pure amount)

    check_request-Reads : Keeps (WroteAll ws) (check_request r dto)
    unfolding check_request
    check_request-Reads =
        Ends-if (is_empty dto.solana_transfer_signature) _ _ (reject-Reads _)
          (Ends-if (is_empty dto.solana_destination) _ _ (reject-Reads _) (check_amount-Reads _))

    convert-Reads :
        (amount : ℤ) (o : Option TokenInfo) → Keeps (WroteAll ws) (convert r dto amount o)
    unfolding convert
    convert-Reads amount none = reject-Reads _
    convert-Reads amount (some mapping) =
        Ends-if (is_empty mapping.sol.mint) _ _ (reject-Reads _) (Ends-pure _)

    verify_leg-Reads : (leg : ℤ × Text) → Keeps (WroteAll ws) (verify_leg r dto leg)
    unfolding verify_leg
    verify_leg-Reads (amount, mint) =
        Ends-try _ _
          (Ends-bind _ _ (on_chain-Reads ws _ (verify_transfer-Reads ws _ _)) (λ _. Ends-pure tt))
          (λ e. reject-Reads _)

    check_bridge_request-Reads :
        (o : Option BridgeRequestView) → Keeps (WroteAll ws) (check_bridge_request r dto o)
    unfolding check_bridge_request
    check_bridge_request-Reads none = reject-Reads _
    check_bridge_request-Reads (some br) =
        Ends-if (text_eq br.sender zero_address) _ _ (reject-Reads _)
          (Ends-if br.finalized _ _ (reject-Reads _) (Ends-pure tt))

    check_claim-Reads : (o : Option ClaimView) → Keeps (WroteAll ws) (check_claim r dto o)
    unfolding check_claim check_deadline
    check_claim-Reads none = reject-Reads _
    check_claim-Reads (some cl) = Ends-if (text_eq cl.solver zero_address) _ _ (reject-Reads _) (
        Ends-bind _ _ (on_chain-Reads ws _ (ask-Reads ws _ _ refl))
          (λ millis. Ends-if _ _ _ (reject-Reads _) (Ends-pure tt)))

    prepare-Reads : Keeps (WroteAll ws) (prepare r dto)
    unfolding prepare
    prepare-Reads = Ends-bind _ _ check_request-Reads λ amount.
        Ends-bind _ _ (convert-Reads amount _) λ leg. Ends-bind _ _ (verify_leg-Reads leg) λ _.
          Ends-bind _ _ (Keeps-lift _) λ id.
            Ends-bind _ _ (on_chain-Reads ws _ (read_bridge_request-Reads ws _ id)) λ br.
              Ends-bind _ _ (check_bridge_request-Reads br) λ _.
                Ends-bind _ _ (on_chain-Reads ws _ (read_claim-Reads ws _ id)) λ cl.
                  Ends-bind _ _ (check_claim-Reads cl)
                    λ _. Ends-bind _ _ (on_e2s-Reads ws _) λ _. Ends-pure _

    send-Leads :
        (ev : Evidence)
        → Leads
            (Wrote ws)
            (Wrote (settlement_of ev ∷ ws))
            (send_verify_and_settle r.chain ev.id ev.dest_tx_hash ev.evidence_hash dto.evidence_url)
    unfolding send_verify_and_settle
    send-Leads ev =
        Leads-bind _ _ (ask-Writes ws (settlement_of ev) _ refl) (λ tx. ask-Reads _ _ _ refl)

    settle-Leads :
        (ev : Evidence) → Leads (WroteAll ws) (WroteAll (settlement_of ev ∷ ws)) (settle r dto ev)
    unfolding settle
    settle-Leads ev =
        Leads-try _ _
          (Leads-bind _ _ (on_chain-Leads _ (send-Leads ev))
            (λ receipt. Ends-bind _ _ (on_e2s-Reads _ _) (λ _. Ends-pure _)))
          (λ e. Leads-Keeps _ (Ends-bind _ _ (on_e2s-Reads _ _) (λ _. Keeps-lift _)))

  pub Outcome : Trace → World D E → Type 0
  Outcome ws w =
      (writes w.calls ≡ ws) ⊎ ((c : Checked r dto) × (writes w.calls ≡ settlement c ∷ ws))

  settled_from :
      (ws : Trace) (w : World D E)
      → writes w.calls ≡ ws
      → Outcome ws ((prepare r dto >>= settle r dto) w).1
  unfolding ◌>>=◌ Outcome
  settled_from ws w p =
      go (prepare r dto w) (λ ev h. prepare-Checked r dto w h)
        ((Leads-Keeps _ (prepare-Reads ws)).at w p)
    where
      go :
          (x : Result Evidence × World D E)
          → ((ev : Evidence) → x.0 ≡ ok ev → (c : Checked r dto) × (ev ≡ evidence r.chain dto c.id))
          → writes x.1.calls ≡ ws
          → Outcome ws (continue (settle r dto) x).1
      go (thrown e, v) checked q = inl q
      go (ok ev, v) checked q =
          let (c, same) = checked ev refl in
          inr (c, (settle-Leads ws ev).at v q ∙ ap (λ x. settlement_of x ∷ ws) same)

  -- Whatever the chains answer, `handleEvmToSol` sends nothing, or exactly one transaction. That
  -- one is `verifyAndSettle` of the request's own id, with the hash of the Solana signature and the
  -- hash of the transfer's text, and it is sent only if every check was passed (`Checked`): the
  -- Solana transaction pays at least the converted amount of a positive amount, in the mapped mint,
  -- to the destination; the request exists and is not finalized; and its claim has a solver and has
  -- not expired.
  pub settles_once :
      (w : World D E)
      → (writes (handle_evm_to_sol r dto w).1.calls ≡ writes w.calls)
        ⊎ ((c : Checked r dto) × (writes (handle_evm_to_sol r dto w).1.calls
              ≡ settlement c ∷ writes w.calls))
  unfolding Outcome handle_evm_to_sol on_e2s upsert_received upsert
  settles_once w =
      rw (bind-at _ (λ _. prepare r dto >>= settle r dto) w _ _ refl)
        (settled_from (writes w.calls) (record w { e2s = _ }) refl)
