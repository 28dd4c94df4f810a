-- ===== src/Node/EvmToSol/Handler/Payment.antt =====
-- What the node pays for an event, and what the relayer is then asked to look for.
use mathlib.Core.Path.{subst}
use lunarys_bridge.Prelude.{
  ◌≡◌, ◌≢◌, refl, ◌⊎◌, inl, inr, Bool, true, false, Option, none, some, [], ◌∷◌, if◌then◌else◌,
  Bool-cases,
}
use lunarys_bridge.Prelude.Int.{pos, pos_part}
use lunarys_bridge.Prelude.Text.{Text, is_empty}
use lunarys_bridge.Prelude.Effect.{
  Result, ok, thrown, Failure, ok-injective, bind-ok, try_catch, handle, continue, pure, ◌>>=◌,
}
use lunarys_bridge.Prelude.Effect.Ends.{
  After, Keeps, Ends-bind, Ends-pure, Ends-if, Ends-try, Keeps-raise,
}
use lunarys_bridge.Prelude.Effect.Leads.{
  Leads, Leads-bind, Leads-then, Leads-known, Leads-lift, Leads-try, Leads-map, Leads-Keeps,
}
use lunarys_bridge.Node.TokenMapping.{
  TokenMapping, get_token_mapping, is_native_token, convert_evm_to_sol,
}
use lunarys_bridge.Node.Services.{
  NodeCall, NodeTrace, decrypt_solana_address, send_lamports, send_tokens, to_number,
}
use lunarys_bridge.Node.EvmToSol.{
  BridgeRequest, BridgeStatus, Details, NodeState, Config, VerificationResponse, set_status, call,
  is_request_claimed, claim_bridge_request, mined_well, transfer_sol, transfer_spl_token,
  submit_verification,
}
use lunarys_bridge.Node.EvmToSol.Handler.{
  claim_step, fall_back, find_destination, pay_mapped, pay_out, note_verification, before_payment,
  after_payment, process, handle_bridge_initiated,
}

abbrev pub is_payment : NodeCall → Bool
is_payment (send_lamports dest lamports) = true
is_payment (send_tokens mint dest amount) = true
is_payment _ = false

abbrev pub payments : NodeTrace → NodeTrace
payments [] = []
payments (c ∷ t) = if is_payment c then c ∷ payments t else payments t

-- A predicate of what was paid.
module _ (Q : NodeTrace → Type 0) where
  abbrev OnPayments : NodeState → Type 0
  OnPayments n = Q (payments n.calls)

  set_status-Keeps :
      (id : Text) (s : BridgeStatus) (d : Details) → Keeps OnPayments (set_status id s d)
  unfolding set_status
  set_status-Keeps id s d = record { at = λ n p. p }

  call-Keeps :
      {A : Type 0} (c : NodeCall) (answer : NodeTrace → Result A)
      → is_payment c ≡ false
      → Keeps OnPayments (call c answer)
  unfolding call
  call-Keeps c answer h = record { at = λ n p. go (answer n.calls) n p }
    where
      go :
          {A : Type 0} (x : Result A) (n : NodeState)
          → OnPayments n
          → After OnPayments (λ _. OnPayments) (x, record n { calls = c ∷ n.calls })
      go (ok a) n p = rw h p
      go (thrown e) n p = rw h p

abbrev Exactly : NodeTrace → NodeTrace → Type 0
Exactly ps p = p ≡ ps

call-Leads :
    {A : Type 0} (ps : NodeTrace) (c : NodeCall) (answer : NodeTrace → Result A)
    → is_payment c ≡ true
    → Leads (OnPayments (Exactly ps)) (OnPayments (Exactly (c ∷ ps))) (call c answer)
unfolding call
call-Leads ps c answer h = record { at = λ n p. rw (h, p) refl }

module _ (cfg : Config) (req : BridgeRequest) where
  -- Whom the event is for: what the decryption of its request for the configured contract gives, or
  -- the configured fallback where that fails.
  pub data IsDestination (raw : Text) : Type 0 where
    opened :
        {t : NodeTrace}
        → cfg.services.decrypted req.request_id cfg.new_relayer t ≡ ok raw
        → IsDestination raw
    fallback :
        {t : NodeTrace} {e : Failure}
        → cfg.services.decrypted req.request_id cfg.new_relayer t ≡ thrown e
        → cfg.test_sol_dest ≡ some raw
        → raw ≢ []
        → IsDestination raw

  -- The payment that the event asks for, to its destination read as a key: lamports for a native
  -- token, otherwise tokens of the mapped mint, in its decimals.
  pub data IsDue : NodeCall → Type 0 where
    native :
        {raw dest : Text}
        → IsDestination raw
        → cfg.services.public_key raw ≡ ok dest
        → is_native_token req.token ≡ true
        → IsDue (send_lamports dest (to_number req.amount))
    mapped :
        {raw mint dest : Text} {m : TokenMapping}
        → IsDestination raw
        → cfg.services.public_key raw ≡ ok dest
        → is_native_token req.token ≡ false
        → get_token_mapping cfg.tokens req.token cfg.chain_id ≡ some m
        → cfg.services.public_key m.solana_address ≡ ok mint
        → IsDue
            (send_tokens mint dest (to_number (pos_part (convert_evm_to_sol (pos req.amount) m))))

  falls_back :
      {t : NodeTrace} {e : Failure}
      → cfg.services.decrypted req.request_id cfg.new_relayer t ≡ thrown e
      → (s : NodeState) (o : Option Text) {d : Text × Bool} → cfg.test_sol_dest ≡ o
      → (fall_back cfg req e o s).0 ≡ ok d
      → IsDestination d.0
  unfolding fall_back
  falls_back failing s none e h = absurd (cc)
  falls_back failing s (some []) e h = absurd (cc)
  falls_back failing s (some (c ∷ raw)) {d} e h =
      subst (λ (x : Text × Bool). IsDestination x.0) (ok-injective h) (fallback failing e (λ k. cc))

  find_destination-IsDestination :
      (n : NodeState) {d : Text × Bool} → (find_destination cfg req n).0 ≡ ok d → IsDestination d.0
  unfolding find_destination call try_catch ◌>>=◌
  find_destination-IsDestination n {d} h =
      go (cfg.services.decrypted req.request_id cfg.new_relayer n.calls) refl h
    where
      asked : NodeState
      asked = record n { calls = decrypt_solana_address req.request_id cfg.new_relayer ∷ n.calls }

      go :
          (x : Result Text)
          → cfg.services.decrypted req.request_id cfg.new_relayer n.calls ≡ x
          → (handle
              (λ e. fall_back cfg req e cfg.test_sol_dest)
              (continue (λ raw. pure (raw, false)) (x, asked))).0
            ≡ ok d
          → IsDestination d.0
      go (ok raw) p k = subst (λ (y : Text × Bool). IsDestination y.0) (ok-injective k) (opened p)
      go (thrown e) p k = falls_back p asked cfg.test_sol_dest refl k

  before_payment-IsDestination :
      (n : NodeState) {start : Text × Text}
      → (before_payment cfg req n).0 ≡ ok start
      → IsDestination start.1
  unfolding before_payment
  before_payment-IsDestination n {start} h =
      let (_, _, h1, _) = bind-ok _ _ h in
      let (_, _, h2, _) = bind-ok _ _ h1 in
      let (hash, _, h3, _) = bind-ok _ _ h2 in
      let (_, _, h4, _) = bind-ok _ _ h3 in
      let (dest, found, h5, _) = bind-ok _ _ h4 in
      let (_, _, h6, _) = bind-ok _ _ h5 in
      subst (λ (x : Text × Text). IsDestination x.1) (ok-injective h6)
        (find_destination-IsDestination _ found)

  module _ (ps : NodeTrace) where
    -- Nothing was paid yet, or what is due.
    abbrev AtMostDue : NodeTrace → Type 0
    AtMostDue p = (p ≡ ps) ⊎ ((c : NodeCall) × IsDue c × (p ≡ c ∷ ps))

    abbrev Unpaid : NodeState → Type 0
    Unpaid = OnPayments (Exactly ps)

    abbrev Limited : NodeState → Type 0
    Limited = OnPayments AtMostDue

    claim_step-Keeps : (b : Bool) → Keeps Unpaid (claim_step cfg req b)
    unfolding claim_step claim_bridge_request
    claim_step-Keeps true = Ends-pure _
    claim_step-Keeps false = Ends-bind _ _ (call-Keeps (Exactly ps) _ _ refl) λ hash.
        Ends-bind _ _ (call-Keeps (Exactly ps) _ _ refl)
          λ status. Ends-if (mined_well status) _ _ (Ends-pure hash) (Keeps-raise _ _)

    fall_back-Keeps : (e : Failure) (o : Option Text) → Keeps Unpaid (fall_back cfg req e o)
    unfolding fall_back
    fall_back-Keeps e none = Keeps-raise _ _
    fall_back-Keeps e (some dest) = Ends-if (is_empty dest) _ _ (Keeps-raise _ _) (Ends-pure _)

    before_payment-Keeps : Keeps Unpaid (before_payment cfg req)
    unfolding before_payment is_request_claimed find_destination
    before_payment-Keeps = Ends-bind _ _ (set_status-Keeps (Exactly ps) _ _ _) λ _.
        Ends-bind _ _
          (Ends-bind _ _ (call-Keeps (Exactly ps) _ _ refl) λ claim.
            Ends-if _ _ _ (Ends-pure false)
              (Ends-bind _ _ (call-Keeps (Exactly ps) _ _ refl) λ millis. Ends-pure _))
          λ is_claimed. Ends-bind _ _ (claim_step-Keeps is_claimed) λ hash.
            Ends-bind _ _ (set_status-Keeps (Exactly ps) _ _ _) λ _.
              Ends-bind _ _
                (Ends-try _ _ (Ends-bind _ _ (call-Keeps (Exactly ps) _ _ refl) λ d. Ends-pure _)
                  (λ e. fall_back-Keeps e cfg.test_sol_dest))
                λ dest. Ends-bind _ _ (set_status-Keeps (Exactly ps) _ _ _) λ _. Ends-pure _

    weaken : (n : NodeState) → Unpaid n → Limited n
    weaken n h = inl h

    due-Leads :
        {A : Type 0} (c : NodeCall) (answer : NodeTrace → Result A)
        → is_payment c ≡ true
        → IsDue c
        → Leads Unpaid Limited (call c answer)
    due-Leads c answer h d = Leads-map _ (call-Leads ps c answer h) (λ n p. inr (c, d, p))

    pay_mapped-Leads :
        (dest : Text) (o : Option TokenMapping)
        → IsDestination dest
        → is_native_token req.token ≡ false
        → get_token_mapping cfg.tokens req.token cfg.chain_id ≡ o
        → Leads Unpaid Limited (pay_mapped cfg req dest o)
    unfolding pay_mapped transfer_spl_token
    pay_mapped-Leads dest none its other e = Leads-map _ (Leads-Keeps _ (Keeps-raise _ _)) weaken
    pay_mapped-Leads dest (some m) its other e = Leads-lift weaken _ _ λ mint known.
        Leads-lift weaken _ _ λ owner read.
          Leads-then weaken _ _ (call-Keeps (Exactly ps) _ _ refl) λ source.
            Leads-then weaken _ _ (call-Keeps (Exactly ps) _ _ refl)
              λ target. due-Leads _ _ refl (IsDue.mapped its read other e known)

    pay_out-Leads : (dest : Text) → IsDestination dest → Leads Unpaid Limited (pay_out cfg req dest)
    unfolding pay_out transfer_sol
    pay_out-Leads dest its = elim (Bool-cases (is_native_token req.token)) [
      | inl is_native ↦
          rw is_native (
            Leads-lift weaken _ _
              λ owner read. due-Leads _ _ refl (IsDue.native its read is_native))
      | inr other ↦ rw other (pay_mapped-Leads dest _ its other refl)
    ]

    note_verification-Keeps :
        (hash : Text) (v : VerificationResponse) → Keeps Limited (note_verification cfg req hash v)
    unfolding note_verification
    note_verification-Keeps hash v =
        Ends-if v.success _ _ (set_status-Keeps AtMostDue _ _ _) (Ends-pure tt)

    after_payment-Keeps :
        (hash dest signature : Text) → Keeps Limited (after_payment cfg req hash dest signature)
    unfolding after_payment submit_verification
    after_payment-Keeps hash dest signature = Ends-bind _ _ (set_status-Keeps AtMostDue _ _ _) λ _.
        Ends-bind _ _
          (Ends-if cfg.has_relayer_api _ _
            (Ends-try _ _ (Ends-bind _ _ (call-Keeps AtMostDue _ _ refl) λ res. Ends-pure _)
              (λ e. Ends-pure _))
            (Ends-pure _))
          λ v. note_verification-Keeps hash v

    handle-Leads : Leads Unpaid Limited (handle_bridge_initiated cfg req)
    unfolding handle_bridge_initiated process
    handle-Leads =
        Leads-try _ _
          (Leads-known weaken _ _ before_payment-Keeps λ s start begun.
            Leads-bind _ _ (pay_out-Leads start.1 (before_payment-IsDestination s begun))
              λ signature. after_payment-Keeps start.0 start.1 signature)
          (λ e. Leads-Keeps _ (set_status-Keeps AtMostDue _ _ _))

  -- For one event the node pays at most once, whatever the services answer: nothing, or exactly the
  -- payment that is due (`IsDue`), to the key that the decrypted destination reads as, or the
  -- configured fallback where decryption fails: lamports for a native token, or else the converted
  -- amount in tokens of the mapped mint, each as the double that `Number` makes of it.
  pub pays_at_most_once :
      (n : NodeState)
      → (payments (handle_bridge_initiated cfg req n).1.calls ≡ payments n.calls)
        ⊎ ((c : NodeCall) × IsDue c
            × (payments (handle_bridge_initiated cfg req n).1.calls ≡ c ∷ payments n.calls))
  pays_at_most_once n = (handle-Leads (payments n.calls)).at n refl
