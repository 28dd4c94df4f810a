-- ===== src/Node/EvmToSol/Handler/Final.antt =====
-- How `handleBridgeInitiated` leaves the request's status.
use lunarys_bridge.Prelude.{
  ◌≡◌, ◌≢◌, refl, ap, ◌∙◌, ◌⊎◌, inl, inr, Bool, true, false, some, ◌∷◌, Bool-cases, arith,
}
use lunarys_bridge.Prelude.Text.{Text, lit, text_eq_iff}
use lunarys_bridge.Prelude.Effect.{Result, ok, thrown, Failure, Eff, try_catch, ◌>>=◌, bind-at}
use lunarys_bridge.Prelude.Effect.Outcome.{both, try-both-thrown, try-both-ok}
use lunarys_bridge.Node.Services.{VerificationRequest, NodeTrace, ApiResponse, post}
use lunarys_bridge.Node.EvmToSol.{
  BridgeRequest, BridgeStatus, transferred, verified, failed, no_details, Details, NodeState,
  Config, VerificationResponse, find_entry, merge, set_status, get_status, call, judged,
  failure_message, submit_verification,
}
use lunarys_bridge.Node.EvmToSol.Handler.{
  id, verification_of, note_verification, before_payment, pay_out, after_payment, process,
  handle_bridge_initiated,
}

module _ (cfg : Config) (req : BridgeRequest) where
  abbrev HasStatus : BridgeStatus → NodeState → Type 0
  HasStatus s n = (get_status (id cfg req) n).status ≡ s

  -- All that comes before the report to the relayer: the claim, the destination and the payment.
  -- It returns the hash of the claim, the destination and the payment's signature.
  abbrev pub pay_first : Eff NodeState ((Text × Text) × Text)
  pay_first = both (before_payment cfg req) (λ start. pay_out cfg req start.1)

  -- The relayer confirms when it is asked after these calls; without a relayer nobody is asked.
  pub data Confirmed (t : NodeTrace) : Type 0 where
    not_asked : cfg.has_relayer_api ≡ false → Confirmed t
    confirmed :
        {res : ApiResponse}
        → cfg.has_relayer_api ≡ true
        → cfg.services.answer t ≡ ok res
        → (res.verified ≡ true) ⊎ (res.success ≡ true) ⊎ (res.status ≡ 201)
        → Confirmed t

  -- It answers otherwise, or the request fails.
  pub data Refused (t : NodeTrace) : Type 0 where
    refused :
        {res : ApiResponse}
        → cfg.has_relayer_api ≡ true
        → cfg.services.answer t ≡ ok res
        → res.verified ≡ false
        → res.success ≡ false
        → res.status ≢ 201
        → Refused t
    unreachable :
        {e : Failure} → cfg.has_relayer_api ≡ true → cfg.services.answer t ≡ thrown e → Refused t

  -- Of a payment with this signature.
  pub data Reported (t : NodeTrace) (signature : Text) (after : NodeState) : Type 0 where
    called_verified : Confirmed t → HasStatus verified after → Reported t signature after
    left_transferred :
        Refused t
        → HasStatus transferred after
        → (get_status (id cfg req) after).details.signature ≡ some signature
        → Reported t signature after

  -- Paid and reported; or the claim, the decryption or the payment threw, and the status is `failed`
  -- with the message of that error.
  pub data Ended (before after : NodeState) : Type 0 where
    paid :
        {hash dest signature : Text} {n : NodeState}
        → pay_first before ≡ (ok ((hash, dest), signature), n)
        → Reported n.calls signature after
        → Ended before after
    broken :
        {e : Failure} {n : NodeState}
        → pay_first before ≡ (thrown e, n)
        → HasStatus failed after
        → (get_status (id cfg req) after).details.error ≡ some e.message
        → Ended before after

  set_status-HasStatus :
      (s : BridgeStatus) (d : Details) (n : NodeState)
      → HasStatus s (set_status (id cfg req) s d n).1
  unfolding set_status get_status find_entry
  set_status-HasStatus s d n = rw ((text_eq_iff (id cfg req) (id cfg req)).1 refl) refl

  set_status-error :
      (message : Text) (n : NodeState)
      → (get_status
          (id cfg req)
          (set_status
            (id cfg req)
            failed
            (record no_details { error = some message })
            n).1).details.error
        ≡ some message
  unfolding set_status get_status find_entry merge
  set_status-error message n = rw ((text_eq_iff (id cfg req) (id cfg req)).1 refl) refl

  -- The relayer's answer decides.
  answered :
      (t : NodeTrace) (res : ApiResponse)
      → cfg.has_relayer_api ≡ true
      → cfg.services.answer t ≡ ok res
      → (b : Bool) → (judged res).success ≡ b
      → (Confirmed t × (b ≡ true)) ⊎ (Refused t × (b ≡ false))
  unfolding judged
  answered t res asked h true p = inl (confirmed asked h (ground (arith, p)), refl)
  answered t res asked h false p =
      inr (refused asked h (ground (arith, p)) (ground (arith, p)) (ground (arith, p)), refl)

  -- Whatever the relayer answers, `submitVerification` returns.
  submitted :
      (q : VerificationRequest) (n : NodeState)
      → (v : VerificationResponse) × (m : NodeState) × (submit_verification cfg q n ≡ (ok v, m))
        × (m.status ≡ n.status)
        × ((Confirmed n.calls × (v.success ≡ true)) ⊎ (Refused n.calls × (v.success ≡ false)))
  unfolding submit_verification call try_catch ◌>>=◌
  submitted q n = elim (Bool-cases cfg.has_relayer_api) [
    | inl asked ↦
        (let asking : Eff NodeState VerificationResponse = submit_verification cfg q in
          go asked (cfg.services.answer n.calls) refl)
    | inr alone ↦ (
      record { success = true; message = lit "Skipped (no external relayer configured)" },
      n,
      rw alone refl,
      refl,
      inl (not_asked alone, refl),
    )
  ]
    where
      go :
          cfg.has_relayer_api ≡ true
          → (x : Result ApiResponse) → cfg.services.answer n.calls ≡ x
          → (v : VerificationResponse) × (m : NodeState) × (submit_verification cfg q n ≡ (ok v, m))
            × (m.status ≡ n.status)
            × ((Confirmed n.calls × (v.success ≡ true)) ⊎ (Refused n.calls × (v.success ≡ false)))
      go asked (ok res) h = (
        judged res,
        record n { calls = post q ∷ n.calls },
        rw (asked, h) refl,
        refl,
        answered n.calls res asked h (judged res).success refl,
      )
      go asked (thrown e) h = (
        record { success = false; message = failure_message (cfg.services.response_message e) e },
        record n { calls = post q ∷ n.calls },
        rw (asked, h) refl,
        refl,
        inr (unreachable asked h, refl),
      )

  set_status-signature :
      (signature : Text) (n : NodeState)
      → (get_status
          (id cfg req)
          (set_status
            (id cfg req)
            transferred
            (record no_details { signature = some signature })
            n).1).details.signature
        ≡ some signature
  unfolding set_status get_status find_entry merge
  set_status-signature signature n = rw ((text_eq_iff (id cfg req) (id cfg req)).1 refl) refl

  same_entry :
      (m n : NodeState)
      → m.status ≡ n.status
      → get_status (id cfg req) m ≡ get_status (id cfg req) n
  unfolding get_status
  same_entry m n same = rw same refl

  noted :
      (hash signature : Text) (t : NodeTrace) (v : VerificationResponse) (m : NodeState)
      → HasStatus transferred m
      → (get_status (id cfg req) m).details.signature ≡ some signature
      → (Confirmed t × (v.success ≡ true)) ⊎ (Refused t × (v.success ≡ false))
      → (after : NodeState) × (note_verification cfg req hash v m ≡ (ok tt, after))
        × Reported t signature after
  unfolding note_verification set_status
  noted hash signature t v m status sig (inl (yes_said, h)) = (
    _,
    rw h refl,
    called_verified yes_said (
        set_status-HasStatus verified
          (record no_details { message = some v.message; eth_tx = some hash }) m),
  )
  noted hash signature t v m status sig (inr (no_said, h)) =
      (m, rw h refl, left_transferred no_said status sig)

  after_payment-Reported :
      (hash dest signature : Text) (n : NodeState)
      → (after : NodeState) × (after_payment cfg req hash dest signature n ≡ (ok tt, after))
        × Reported n.calls signature after
  unfolding after_payment set_status
  after_payment-Reported hash dest signature n =
      let d : Details = record no_details { signature = some signature } in
      let n1 : NodeState = (set_status (id cfg req) transferred d n).1 in
      let (v, m, sent, same, said) = submitted (verification_of cfg req hash signature dest) n1 in
      let entry = same_entry m n1 same in
      let (after, ran, rep) =
        noted hash signature n.calls v m
          (ap (λ x. x.status) entry ∙ set_status-HasStatus transferred d n)
          (ap (λ x. x.details.signature) entry ∙ set_status-signature signature n) said in
      (after, bind-at _ _ n tt n1 refl ∙ bind-at _ _ n1 v m sent ∙ ran, rep)

  -- Whatever the services answer, `handleBridgeInitiated` returns and never throws. If the claim, the
  -- destination and the payment return, the request's status is then `verified` where the relayer
  -- confirms or none is configured, and `transferred`, with the payment's signature, where the relayer
  -- refuses or cannot be reached; if one of them throws, it is `failed` with the message of that
  -- error.
  pub handler_ends :
      (n : NodeState)
      → (after : NodeState) × (handle_bridge_initiated cfg req n ≡ (ok tt, after)) × Ended n after
  unfolding handle_bridge_initiated process set_status
  handler_ends n = go (pay_first n) refl
    where
      go :
          (x : Result ((Text × Text) × Text) × NodeState)
          → pay_first n ≡ x
          → (after : NodeState) × (handle_bridge_initiated cfg req n ≡ (ok tt, after))
            × Ended n after
      go (thrown e, m) h = (
        _,
        try-both-thrown _ _ _ _ n h,
        broken h (set_status-HasStatus failed (record no_details { error = some e.message }) m)
            (set_status-error e.message m),
      )
      go (ok ((hash, dest), signature), m) h =
          let (after, ran, rep) = after_payment-Reported hash dest signature m in
          (after, try-both-ok _ _ _ _ n h ran, paid h rep)
