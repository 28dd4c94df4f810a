-- ===== src/Relayer/Verification/SolToEvm/NoHash.antt =====
-- The hash of the payment comes from `receipt?.transactionHash`, and the settlement needs it.
use lunarys_bridge.Prelude.{◌≡◌, ◌≢◌, Option, none, some, inl, inr}
use lunarys_bridge.Prelude.Int.{ℤ}
use lunarys_bridge.Prelude.Text.{Text}
use lunarys_bridge.Prelude.Effect.{ok, bind-ok, try-ok, thrown-ne-ok}
use lunarys_bridge.Relayer.Chain.{Trace, Receipt}
use lunarys_bridge.Relayer.Solana.Settle.{hex32_to_bytes, verify_and_settle_on_solana}
use lunarys_bridge.Relayer.Ethereum.{send_deliver_tokens}
use lunarys_bridge.Relayer.World.{World, Relayer, on_chain}
use lunarys_bridge.Relayer.Verification.EvmToSol.{hash_of}
use lunarys_bridge.Relayer.Verification.SolToEvm.{
  SolToEvmVerificationDto, Payment, settle_request, close_on_solana, pay, deliver,
  handle_sol_to_evm,
}
use lunarys_bridge.Relayer.Verification.SolToEvm.Deposited.{reject-ne-ok}

module _ {D E : Type 0} (r : Relayer D E) (dto : SolToEvmVerificationDto) where
  settle_request-ne-ok :
      (hash : Option Text) (t : Trace) {sig : Text}
      → hash ≡ none
      → (settle_request r dto hash t).0 ≢ ok sig
  unfolding settle_request verify_and_settle_on_solana hex32_to_bytes
  settle_request-ne-ok none t gone h =
      let (escrow, _, rest, _) = bind-ok _ _ h in
      let (u, _, more, _) = bind-ok _ _ rest in
      let (id, _, last, _) = bind-ok _ _ more in
      let (bytes, read, _, _) = bind-ok _ _ last in thrown-ne-ok read
  settle_request-ne-ok (some s) t gone h = cc gone

  close_on_solana-ne-ok :
      (hash : Option Text) (w : World D E) {u : Unit {0}}
      → hash ≡ none
      → (close_on_solana r dto hash w).0 ≢ ok u
  unfolding close_on_solana on_chain
  close_on_solana-ne-ok hash w gone h = elim (try-ok _ _ h) [
    | inl body ↦
        (let (sig, settled, _, _) = bind-ok _ _ body in
          settle_request-ne-ok hash w.calls gone settled)
    | inr (e, caught) ↦ reject-ne-ok r dto _ _ caught
  ]

  module _
      (hashless : (t : Trace) (receipt : Option Receipt)
        → r.chain.receipt t ≡ ok receipt
        → hash_of receipt ≡ none) where
    pay-ne-ok : (amount : ℤ) (w : World D E) {p : Payment} → (pay r dto amount w).0 ≢ ok p
    unfolding pay on_chain send_deliver_tokens
    pay-ne-ok amount w h =
        let (receipt, sent, rest, _) = bind-ok _ _ h in
        let (tx, _, received, _) = bind-ok _ _ sent in
        let (u, _, more, _) = bind-ok _ _ rest in
        let (v, closed, _, _) = bind-ok _ _ more in
        close_on_solana-ne-ok (hash_of receipt) _ (hashless _ receipt received) closed

    deliver-ne-ok : (amount : ℤ) (w : World D E) {p : Payment} → (deliver r dto amount w).0 ≢ ok p
    unfolding deliver
    deliver-ne-ok amount w h = elim (try-ok _ _ h) [
      | inl body ↦ pay-ne-ok amount w body
      | inr (e, caught) ↦ (let (row, _, refused, _) = bind-ok _ _ caught in thrown-ne-ok refused)
    ]

    -- If no receipt has a member `transactionHash`, `handleSolToEvm` never returns, whatever else
    -- the chains answer: each request that is paid on the EVM ends in an error.
    pub hashless_never_settles :
        (w : World D E) (p : Payment) → (handle_sol_to_evm r dto w).0 ≢ ok p
    unfolding handle_sol_to_evm
    hashless_never_settles w p h =
        let (row, _, rest, _) = bind-ok _ _ h in
        let (amount, _, last, _) = bind-ok _ _ rest in deliver-ne-ok amount _ last
