-- ===== src/EvmNode/Process/Bond.antt =====
-- The bond that `processBridgeRequest` locks.
use lunarys_bridge.Prelude.{ℕ, ◌≡◌, refl, Bool, true, false, ◌∷◌, select}
use lunarys_bridge.Prelude.Text.{Text, text_eq_iff}
use lunarys_bridge.Prelude.Effect.{Result, ok, ◌>>=◌, bind-at}
use lunarys_bridge.Prelude.Effect.Ends.{
  Keeps, Ends-bind, Ends-pure, Ends-if, Keeps-raise, Keeps-throws,
}
use lunarys_bridge.Prelude.Effect.Leads.{Leads, Leads-bind, Leads-try, Leads-Keeps}
use lunarys_bridge.EvmNode.Services.{
  Call, claim_bridge, bridge_requests, Trace, Config, NodeState, call,
}
use lunarys_bridge.EvmNode.Monitor.{
  BridgeRequest, is_request_claimed, send_claim, claim_bridge_request, mined_well, zero_address,
}
use lunarys_bridge.EvmNode.Process.Holds.{Quiet, call-Holds, decrypt-Holds, decrypt_throws}
use lunarys_bridge.EvmNode.Process.{
  has, add, request_id_str, fulfil, process, guarded, process_bridge_request, start_processing,
  stop_processing,
}

abbrev pub is_claim : Call → Bool
is_claim (claim_bridge id bond) = true
is_claim _ = false

abbrev pub claims : Trace → Trace
claims = select is_claim

Quiet-claims : Quiet is_claim
Quiet-claims = record {
  reading = λ id. refl;
  waiting = λ hash. refl;
  keys = refl;
  typed = λ relayer. refl;
  signing = refl;
}

module _ (cfg : Config) (request : BridgeRequest) {bond : ℕ}
    (unclaimed : (t : Trace) → cfg.services.claimer t ≡ ok zero_address)
    (parsed : cfg.services.parse_ether cfg.bond_amount ≡ ok bond) where
  seen : NodeState → NodeState
  seen s = record s { calls = bridge_requests request.request_id ∷ s.calls }

  unclaimed_at : (s : NodeState) → is_request_claimed cfg request.request_id s ≡ (ok false, seen s)
  unfolding is_request_claimed call ◌>>=◌ seen
  unclaimed_at s = rw (unclaimed s.calls, (text_eq_iff zero_address zero_address).1 refl) refl

  module _ (before : Trace) where
    abbrev Kept : Trace → NodeState → Type 0
    Kept t s = claims s.calls ≡ t

    abbrev Locked : NodeState → Type 0
    Locked = Kept (claim_bridge request.request_id bond ∷ before)

    call-Locked :
        {A : Type 0} (c : Call) (answer : Trace → Result A)
        → is_claim c ≡ false
        → Keeps Locked (call c answer)
    call-Locked =
        call-Holds cfg request is_claim Quiet-claims
          (λ t _. t ≡ claim_bridge request.request_id bond ∷ before)

    call-Leads :
        (answer : Trace → Result Text)
        → Leads (Kept before) Locked (call (claim_bridge request.request_id bond) answer)
    unfolding call
    call-Leads answer = record { at = λ s p. rw p refl }

    claim-Leads : Leads (Kept before) Locked (claim_bridge_request cfg request.request_id)
    unfolding claim_bridge_request send_claim seen
    claim-Leads = record {
      at = λ s p.
          rw
            (
              bind-at _ _ s false (seen s) (unclaimed_at s),
              bind-at _ _ (seen s) bond (seen s) (λ i. (parsed i, seen s)),
            )
            ((Leads-bind _ _ (call-Leads _) λ hash.
                Ends-bind _ _ (call-Locked _ _ refl)
                  λ status. Ends-if (mined_well status) _ _ (Ends-pure hash) (Keeps-raise _ _)).at
              (seen s) p);
    }

    fulfil-Leads : Leads (Kept before) Locked (fulfil cfg request)
    unfolding fulfil
    fulfil-Leads = Leads-bind _ _ claim-Leads λ hash.
        Keeps-throws _ _ _
          (decrypt-Holds cfg request is_claim Quiet-claims
            (λ t _. t ≡ claim_bridge request.request_id bond ∷ before))
          (decrypt_throws cfg request)

    process-Leads : Leads (Kept before) Locked (process cfg request)
    unfolding process seen
    process-Leads = record {
      at = λ s p. rw (bind-at _ _ s false (seen s) (unclaimed_at s)) (fulfil-Leads.at (seen s) p);
    }

    tried-Leads : Leads (Kept before) Locked (guarded cfg request)
    unfolding guarded start_processing stop_processing ◌>>=◌
    tried-Leads = record {
      at = λ s p.
          (Leads-bind _ _ (Leads-try _ _ process-Leads (λ e. Leads-Keeps _ (Ends-pure tt)))
              λ u. record { at = λ t q. q }).at
            (record s { processing = add (request_id_str cfg request) s.processing }) p;
    }

  -- Where nobody holds the claim and the configured bond can be read, `processBridgeRequest`, unless
  -- the request is being processed already, sends exactly one claim of the request with that bond,
  -- whatever the other services answer.
  pub bond_is_locked :
      (n : NodeState)
      → has (request_id_str cfg request) n.processing ≡ false
      → claims (process_bridge_request cfg request n).1.calls
        ≡ claim_bridge request.request_id bond ∷ claims n.calls
  unfolding process_bridge_request
  bond_is_locked n idle = rw idle ((tried-Leads (claims n.calls)).at n refl)
