-- ===== src/Relayer/Verification/SolToEvm/Flow.antt =====
-- What `handleSolToEvm` sends to the two chains, and in which order.
use lunarys_bridge.Prelude.{◌≡◌, refl, ◌⊎◌, inl, inr, ◌∷◌, Option}
use lunarys_bridge.Prelude.Int.{ℤ, pos, ltb_ℤ, leb_ℤ}
use lunarys_bridge.Prelude.Text.{Text, is_empty}
use lunarys_bridge.Prelude.Effect.{Result, ok, thrown, continue, ◌>>=◌, ◌>>◌, try-ok, bind-at}
use lunarys_bridge.Prelude.Effect.Ends.{
  Keeps, Ends-bind, Ends-pure, Ends-if, Ends-try, Keeps-lift, Keeps-raise,
}
use lunarys_bridge.Relayer.Chain.{Call, Trace, Receipt, deliver_tokens}
use lunarys_bridge.Relayer.Ethereum.{send_deliver_tokens}
use lunarys_bridge.Relayer.Ethereum.Delivery.Accepted.{Accepted, verify_evm_delivery_iff}
use lunarys_bridge.Relayer.Writes.{
  writes, Wrote, ask-Reads, verify_deposit-Reads, read_contract_balance-Reads,
  verify_evm_delivery-Reads,
}
use lunarys_bridge.Prelude.Effect.Leads.{
  Leads, Leads-bind, Leads-then, Leads-known, Leads-try, Leads-map, Leads-seq_known, Leads-Keeps,
}
use lunarys_bridge.Relayer.Writes.Lifted.{
  ask-Writes, WroteAll, on_chain-Reads, on_s2e-Reads, on_s2e-Keeps, on_chain-Leads,
}
use lunarys_bridge.Relayer.Writes.Settling.{IsSettlement, Closed, verify_and_settle_on_solana-Leads}
use lunarys_bridge.Relayer.World.{World, Relayer, on_s2e, on_chain}
use lunarys_bridge.Relayer.Repository.Core.{upsert}
use lunarys_bridge.Relayer.Repository.SolToEvm.{upsert_received}
use lunarys_bridge.Relayer.Verification.EvmToSol.{hash_of}
use lunarys_bridge.Relayer.Verification.SolToEvm.{
  SolToEvmVerificationDto, reject, check_addresses, check_deposited, check_payable, prepare,
  confirm_delivery, delivery_of, escrow_token, mint_of_request, settlement_of, settle_request,
  close_on_solana, settle_row, pay, deliver, handle_sol_to_evm,
}
use lunarys_bridge.Relayer.Verification.SolToEvm.Deposited.{
  Deposited, reject-ne-ok, prepare-Deposited,
}

module _ {D E : Type 0} (r : Relayer D E) (dto : SolToEvmVerificationDto) where
  abbrev pub payment_call : ℤ → Call
  payment_call amount = deliver_tokens dto.evm_recipient dto.evm_token amount

  -- The hash is the one that the code reads of the receipt which the payment's sending gave, when
  -- nothing but `start` had been sent.
  pub data IsHashOfPayment (start : Trace) (amount : ℤ) : Option Text → Type 0 where
    received :
        (sending : Trace) {receipt : Option Receipt}
        → (send_deliver_tokens r.chain dto.evm_recipient dto.evm_token amount sending).0
          ≡ ok receipt
        → writes sending ≡ start
        → IsHashOfPayment start amount (hash_of receipt)

  -- A settlement on Solana with the hash of the payment, and the delivery that was confirmed before,
  -- for the same hash.
  pub record Finished (start : Trace) (amount : ℤ) (c : Call) : Type 0 where
    pub hash : Option Text
    pub its : IsHashOfPayment start amount hash
    pub asked : Trace
    pub delivered : Accepted r.chain (delivery_of r dto hash amount) (r.chain.mined hash asked)
    pub escrow : Text
    pub settlement : IsSettlement (settlement_of r dto hash escrow) c

  -- Nothing was sent; or a payment, of a deposit that was checked; or after it a settlement.
  pub data Flow (ws : Trace) (w : World D E) : Type 0 where
    unpaid : writes w.calls ≡ ws → Flow ws w
    paid :
        {amount : ℤ}
        → Deposited r dto amount
        → writes w.calls ≡ payment_call amount ∷ ws
        → Flow ws w
    closed :
        {amount : ℤ} {c : Call}
        → Deposited r dto amount
        → Finished ws amount c
        → writes w.calls ≡ c ∷ payment_call amount ∷ ws
        → Flow ws w

  reject-Reads :
      {A : Type 0} (ws : Trace) (message : Text)
      → Keeps (WroteAll ws) (reject r dto {A = A} message)
  unfolding reject
  reject-Reads ws message = Ends-bind _ _ (on_s2e-Reads ws _) (λ _. Keeps-raise _ _)

  prepare-Reads : (ws : Trace) → Keeps (WroteAll ws) (prepare r dto)
  unfolding prepare check_addresses check_deposited check_payable
  prepare-Reads ws =
      Ends-bind _ _
        (Ends-if (r.chain.is_address dto.evm_recipient) _ _
          (Ends-if (r.chain.is_address dto.evm_token) _ _ (Ends-pure tt) (reject-Reads ws _))
          (reject-Reads ws _))
        λ _.
          Ends-bind _ _
            (Ends-bind _ _ (Keeps-lift _) λ amount.
              Ends-bind _ _ (on_chain-Reads ws _ (verify_deposit-Reads ws _ _))
                λ _. Ends-pure amount)
            λ amount. Ends-bind _ _ (on_s2e-Reads ws _) λ _. Ends-bind _ _ (Keeps-lift _) λ leg.
              Ends-bind _ _ (on_chain-Reads ws _ (read_contract_balance-Reads ws _ _)) λ balance.
                Ends-bind _ _
                  (Ends-if (ltb_ℤ (pos balance) leg.0) _ _ (reject-Reads ws _)
                    (Ends-if (leb_ℤ leg.0 (pos 0)) _ _ (reject-Reads ws _) (Ends-pure tt)))
                  λ _. Ends-pure leg.0

  module _ (start ws : Trace) (amount : ℤ) where
    -- After the payment: no settlement yet, or one.
    AfterPayment : Trace → Type 0
    AfterPayment t = (Wrote ws t) ⊎ ((c : Call) × Finished start amount c × Wrote (c ∷ ws) t)

    none_yet : (t : Trace) → Wrote ws t → AfterPayment t
    unfolding AfterPayment
    none_yet t h = inl h

    escrow_token-Reads : (mint : Text) → Keeps (Wrote ws) (escrow_token r dto mint)
    unfolding escrow_token
    escrow_token-Reads mint = Ends-if (is_empty mint) _ _ (Ends-pure _) (
        Ends-bind _ _ (Keeps-lift _)
          λ m. Ends-bind _ _ (Keeps-lift _) λ vault. ask-Reads ws _ _ refl)

    confirm_delivery-ok :
        (hash : Option Text) (w : World D E) {u : Unit {0}}
        → (confirm_delivery r dto hash amount w).0 ≡ ok u
        → Accepted r.chain (delivery_of r dto hash amount) (r.chain.mined hash w.calls)
    unfolding confirm_delivery on_chain
    confirm_delivery-ok hash w h = elim (try-ok _ _ h) [
      | inl body ↦ (verify_evm_delivery_iff r.chain (delivery_of r dto hash amount) w.calls).0 body
      | inr (e, caught) ↦ absurd (reject-ne-ok r dto _ _ caught)
    ]

    confirm_delivery-Reads :
        (hash : Option Text) → Keeps (WroteAll ws) (confirm_delivery r dto hash amount)
    unfolding confirm_delivery
    confirm_delivery-Reads hash =
        Ends-try _ _ (on_chain-Reads ws _ (verify_evm_delivery-Reads ws _ _))
          (λ e. reject-Reads ws _)

    settle_request-Leads :
        (hash : Option Text) (at : Trace)
        → IsHashOfPayment start amount hash
        → Accepted r.chain (delivery_of r dto hash amount) (r.chain.mined hash at)
        → Leads (Wrote ws) AfterPayment (settle_request r dto hash)
    unfolding settle_request AfterPayment
    settle_request-Leads hash at its delivered =
        Leads-then (λ t h. inl h) _ _ (escrow_token-Reads (mint_of_request r dto))
          λ escrow.
            Leads-map _
              (verify_and_settle_on_solana-Leads ws r.chain r.anchor
                (settlement_of r dto hash escrow))
              (λ t. finished t escrow)
      where
        finished :
            (t : Trace) (escrow : Text)
            → Closed ws r.chain r.anchor (settlement_of r dto hash escrow) t
            → (Wrote ws t) ⊎ ((c : Call) × Finished start amount c × Wrote (c ∷ ws) t)
        finished t escrow (inl h) = inl h
        finished t escrow (inr (c, is, h)) = inr (
          c,
          record {
            hash = hash;
            its = its;
            asked = at;
            delivered = delivered;
            escrow = escrow;
            settlement = is;
          },
          h,
        )

    reject-AfterPayment :
        {A : Type 0} (message : Text)
        → Keeps (λ w. AfterPayment w.calls) (reject r dto {A = A} message)
    unfolding reject
    reject-AfterPayment message = Ends-bind _ _ (on_s2e-Keeps AfterPayment _) (λ _. Keeps-raise _ _)

    close_on_solana-Leads :
        (hash : Option Text) (at : Trace)
        → IsHashOfPayment start amount hash
        → Accepted r.chain (delivery_of r dto hash amount) (r.chain.mined hash at)
        → Leads (WroteAll ws) (λ w. AfterPayment w.calls) (close_on_solana r dto hash)
    unfolding close_on_solana
    close_on_solana-Leads hash at its delivered =
        Leads-try _ _
          (Leads-bind _ _ (on_chain-Leads _ (settle_request-Leads hash at its delivered))
            (λ _. Ends-pure tt))
          (λ e. Leads-Keeps _ (reject-AfterPayment _))

    after_send-Leads :
        (hash : Option Text)
        → IsHashOfPayment start amount hash
        → Leads
            (WroteAll ws)
            (λ w. AfterPayment w.calls)
            (confirm_delivery r dto hash amount
              >> (close_on_solana r dto hash >> settle_row r dto hash amount))
    unfolding settle_row
    after_send-Leads hash its =
        Leads-known (λ w h. none_yet w.calls h) _ _ (confirm_delivery-Reads hash)
          λ w u confirmed.
            Leads-bind _ _
              (close_on_solana-Leads hash w.calls its (confirm_delivery-ok hash w confirmed))
              λ _. Ends-bind _ _ (on_s2e-Keeps AfterPayment _) λ _. Ends-pure _

  module _ (ws : Trace) (amount : ℤ) where
    AfterAll : World D E → Type 0
    AfterAll w = AfterPayment ws (payment_call amount ∷ ws) amount w.calls

    send-Leads :
        Leads
          (Wrote ws)
          (Wrote (payment_call amount ∷ ws))
          (send_deliver_tokens r.chain dto.evm_recipient dto.evm_token amount)
    unfolding send_deliver_tokens
    send-Leads =
        Leads-bind _ _ (ask-Writes ws (payment_call amount) _ refl) (λ tx. ask-Reads _ _ _ refl)

    pay-Leads : Leads (WroteAll ws) AfterAll (pay r dto amount)
    unfolding pay AfterAll on_chain
    pay-Leads =
        Leads-seq_known (λ w h. none_yet ws _ amount w.calls h) _ _ (on_chain-Leads _ send-Leads)
          (λ w receipt p sent.
            after_send-Leads ws _ amount (hash_of receipt) (received w.calls sent p))

    deliver-Leads : Leads (WroteAll ws) AfterAll (deliver r dto amount)
    unfolding deliver AfterAll
    deliver-Leads = Leads-try _ _ pay-Leads (λ e.
        Leads-Keeps _
          (Ends-bind _ _ (on_s2e-Keeps (AfterPayment ws _ amount) _) (λ _. Keeps-lift _)))

    AfterAll-Flow : (w : World D E) → Deposited r dto amount → AfterAll w → Flow ws w
    unfolding AfterAll AfterPayment
    AfterAll-Flow w d (inl h) = paid d h
    AfterAll-Flow w d (inr (c, finished, h)) = closed d finished h

  prepared :
      (ws : Trace) (x : Result ℤ × World D E)
      → writes x.1.calls ≡ ws
      → ((amount : ℤ) → x.0 ≡ ok amount → Deposited r dto amount)
      → Flow ws (continue (deliver r dto) x).1
  prepared ws (thrown e, w) h d = unpaid h
  prepared ws (ok amount, w) h d =
      AfterAll-Flow ws amount _ (d amount refl) ((deliver-Leads ws amount).at w h)

  from_prepare :
      (ws : Trace) (w : World D E)
      → writes w.calls ≡ ws
      → Flow ws ((prepare r dto >>= deliver r dto) w).1
  unfolding ◌>>=◌
  from_prepare ws w h =
      prepared ws (prepare r dto w) ((Leads-Keeps _ (prepare-Reads ws)).at w h)
        (λ amount e. prepare-Deposited r dto w e)

  -- Whatever the chains answer, `handleSolToEvm` sends nothing; or the one payment of the converted
  -- amount to the recipient, and then the deposit was checked (`Deposited`); or that payment and
  -- after it one settlement on Solana, and then the delivery of the payment was confirmed too
  -- (`Finished`): what waiting for the hash that the code reads of its receipt gave was accepted
  -- (`Accepted`), and the settlement names that hash.
  pub pays_then_settles : (w : World D E) → Flow (writes w.calls) (handle_sol_to_evm r dto w).1
  unfolding handle_sol_to_evm on_s2e upsert_received upsert
  pays_then_settles w =
      rw (bind-at _ (λ _. prepare r dto >>= deliver r dto) w _ _ refl)
        (from_prepare (writes w.calls) (record w { s2e = _ }) refl)
