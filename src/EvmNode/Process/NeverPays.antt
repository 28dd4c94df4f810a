-- ===== src/EvmNode/Process/NeverPays.antt =====
-- What `processBridgeRequest` leaves behind: no payment, and often a locked bond.
use lunarys_bridge.Prelude.{
  ℕ, ◌≡◌, refl, ap, ◌∙◌, inl, inr, Bool, true, false, List, Bool-cases, select,
}
use lunarys_bridge.Prelude.Text.{Text}
use lunarys_bridge.Prelude.Effect.{Result, ok, thrown, pure, bind-at, try_catch}
use lunarys_bridge.Prelude.Effect.Ends.{
  After, Keeps, Ends-bind, Ends-pure, Ends-if, Ends-try, Keeps-raise, Keeps-lift, Keeps-throws,
}
use lunarys_bridge.EvmNode.Services.{
  Call, send_lamports, send_tokens, post, Trace, Config, NodeState,
}
use lunarys_bridge.EvmNode.Monitor.{BridgeRequest, send_claim, claim_bridge_request, mined_well}
use lunarys_bridge.EvmNode.Process.Holds.{
  Quiet, Holds, call-Holds, is_request_claimed-Holds, decrypt-Holds, decrypt_throws,
}
use lunarys_bridge.EvmNode.Process.Sets.{delete-add}
use lunarys_bridge.EvmNode.Process.{
  has, add, delete, request_id_str, fulfil, process, guarded, process_bridge_request,
  start_processing, stop_processing,
}

-- Payments on Solana, and reports of them to the relayer.
abbrev pub is_outgoing : Call → Bool
is_outgoing (send_lamports dest lamports) = true
is_outgoing (send_tokens source target amount) = true
is_outgoing (post q) = true
is_outgoing _ = false

abbrev pub outgoing : Trace → Trace
outgoing = select is_outgoing

Quiet-outgoing : Quiet is_outgoing
Quiet-outgoing = record {
  reading = λ id. refl;
  waiting = λ hash. refl;
  keys = refl;
  typed = λ relayer. refl;
  signing = refl;
}

module _ (cfg : Config) (request : BridgeRequest) where
  module _ (Q : Trace → List Text → Type 0) where
    abbrev Kept : NodeState → Type 0
    Kept = Holds cfg request is_outgoing Quiet-outgoing Q

    claim-Holds : (id : ℕ) → Keeps Kept (claim_bridge_request cfg id)
    unfolding claim_bridge_request send_claim
    claim-Holds id =
        Ends-bind _ _ (is_request_claimed-Holds cfg request is_outgoing Quiet-outgoing Q id)
          λ is_claimed. Ends-if is_claimed _ _ (Keeps-raise _ _) (
            Ends-bind _ _ (Keeps-lift _) λ bond.
              Ends-bind _ _ (call-Holds cfg request is_outgoing Quiet-outgoing Q _ _ refl) λ hash.
                Ends-bind _ _ (call-Holds cfg request is_outgoing Quiet-outgoing Q _ _ refl)
                  λ status. Ends-if (mined_well status) _ _ (Ends-pure hash) (Keeps-raise _ _))

    process-Holds : Keeps Kept (process cfg request)
    unfolding process fulfil
    process-Holds =
        Ends-bind _ _ (is_request_claimed-Holds cfg request is_outgoing Quiet-outgoing Q _)
          λ is_claimed. Ends-if is_claimed _ _ (Ends-pure tt) (
            Ends-bind _ _ (claim-Holds _) λ hash.
              Keeps-throws _ _ _ (decrypt-Holds cfg request is_outgoing Quiet-outgoing Q)
                (decrypt_throws cfg request))

  abbrev Untouched : Trace → List Text → Trace → List Text → Type 0
  Untouched t ids t' ids' = (t' ≡ t) × (ids' ≡ ids)

  -- The `try`: it never throws.
  pub tried :
      (n : NodeState)
      → (after : NodeState) × (try_catch (process cfg request) (λ e. pure tt) n ≡ (ok tt, after))
        × (outgoing after.calls ≡ outgoing n.calls)
        × (after.processing ≡ n.processing)
  tried n = go _ (
      (Ends-try _ _ (process-Holds (Untouched (outgoing n.calls) n.processing))
          (λ e. Ends-pure {Q = λ _ _. ⊥} tt)).at
        n (refl, refl))
    where
      go :
          (x : Result (Unit {0}) × NodeState)
          → After (Kept (Untouched (outgoing n.calls) n.processing)) (λ _ _. ⊥) x
          → (after : NodeState) × (x ≡ (ok tt, after))
            × (outgoing after.calls ≡ outgoing n.calls)
            × (after.processing ≡ n.processing)
      go (ok tt, s) (sent, kept) = (s, refl, sent, kept)
      go (thrown e, s) h = absurd h

  -- Whatever the services answer, `processBridgeRequest` returns; it has paid nothing on Solana and
  -- reported nothing to the relayer, since its decryption always throws; and the set `processing` is
  -- the same as before.
  pub never_pays :
      (n : NodeState)
      → (after : NodeState) × (process_bridge_request cfg request n ≡ (ok tt, after))
        × (outgoing after.calls ≡ outgoing n.calls)
        × (after.processing ≡ n.processing)
  unfolding process_bridge_request guarded start_processing stop_processing
  never_pays n = elim (Bool-cases (has (request_id_str cfg request) n.processing)) [
    | inl busy ↦ rw busy (n, refl, refl, refl)
    | inr idle ↦
        (let id = request_id_str cfg request in
          let n1 : NodeState = record n { processing = add id n.processing } in
          let (s, ran, sent, kept) = tried n1 in
          (
            record s { processing = delete id s.processing },
            rw idle (bind-at _ _ n tt n1 refl ∙ bind-at _ _ n1 tt s ran),
            sent,
            ap (delete id) kept ∙ delete-add id n.processing idle,
          ))
  ]
