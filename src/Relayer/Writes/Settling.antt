-- ===== src/Relayer/Writes/Settling.antt =====
-- The one transaction that `verifyAndSettleOnSolana` sends.
use lunarys_bridge.Prelude.{ℕ, ◌≡◌, refl, ◌⊎◌, inl, inr, Option, none, some, List, ◌∷◌, []}
use lunarys_bridge.Prelude.Int.{ℤ}
use lunarys_bridge.Prelude.Text.{Text}
use lunarys_bridge.Prelude.Effect.{ok, bad_request, raise, try_catch}
use lunarys_bridge.Prelude.Effect.Ends.{
  Keeps, Ends-bind, Ends-pure, Ends-if, Keeps-lift, Keeps-raise,
}
use lunarys_bridge.Relayer.Chain.{Chain, Trace, Call, SettleAccounts, anchor_settle}
use lunarys_bridge.Relayer.Solana.Settle.{
  AnchorVars, SettleInput, VerifyAndSettleOnSolanaParams, hex32_to_bytes, to_bn_u128, anchor_ctx_of,
  get_anchor_ctx, settle_accounts, confirmed, submit_settle, evidence_bytes,
  verify_and_settle_on_solana,
}
use lunarys_bridge.Relayer.Writes.{Wrote, ask-Reads}
use lunarys_bridge.Prelude.Effect.Leads.{
  Leads, Leads-bind, Leads-then, Leads-lift, Leads-try, Leads-Keeps,
}
use lunarys_bridge.Relayer.Writes.Lifted.{ask-Writes}

-- A settlement with the numbers that the arguments read as.
pub record IsSettlement (p : VerifyAndSettleOnSolanaParams) (c : Call) : Type 0 where
  pub id : ℤ
  pub read_id : to_bn_u128 p.request_id ≡ ok id
  pub hash : List ℕ
  pub read_hash : hex32_to_bytes p.evm_transfer_tx_hash ≡ ok hash
  pub evidence : List ℕ
  pub read_evidence : evidence_bytes p.evidence_hash ≡ ok evidence
  pub accounts : SettleAccounts
  pub is : c ≡ anchor_settle id hash evidence accounts

module _ (ws : Trace) (chain : Chain) (vars : AnchorVars) (p : VerifyAndSettleOnSolanaParams) where
  -- Nothing was sent, or one settlement.
  abbrev pub Closed : Trace → Type 0
  Closed t = (Wrote ws t) ⊎ ((c : Call) × IsSettlement p c × Wrote (c ∷ ws) t)

  get_anchor_ctx-Reads : Keeps (Wrote ws) (get_anchor_ctx chain vars)
  unfolding get_anchor_ctx anchor_ctx_of
  get_anchor_ctx-Reads = go vars.program_id
    where
      go : (o : Option Text) → Keeps (Wrote ws) (anchor_ctx_of chain vars o)
      go none = Keeps-raise _ _
      go (some []) = Keeps-raise _ _
      go (some (c ∷ id)) =
          Ends-bind _ _ (ask-Reads ws _ _ refl)
            λ _. Ends-bind _ _ (Keeps-lift _) λ _. Ends-if _ _ _ (Keeps-raise _ _) (Ends-pure tt)

  settle_accounts-Reads : (a : SettleInput) → Keeps (Wrote ws) (settle_accounts chain vars a)
  unfolding settle_accounts
  settle_accounts-Reads a = Ends-bind _ _ (Keeps-lift _) λ payer.
      Ends-bind _ _ (Keeps-lift _) λ escrow_owner. Ends-bind _ _ (Keeps-lift _) λ escrow_token.
        Ends-bind _ _ (Keeps-lift _) λ mint. Ends-bind _ _ (Keeps-lift _) λ mxe_account.
          Ends-bind _ _ (Keeps-lift _) λ fee_pool. Ends-bind _ _ (Keeps-lift _) λ clock.
            Ends-bind _ _ (Keeps-lift _)
              λ token_program. Ends-bind _ _ (Keeps-lift _) λ system_program. Ends-pure _

  submit_settle-Leads :
      (id : ℤ) (hash evidence : List ℕ) (accounts : SettleAccounts)
      → Leads
          (Wrote ws)
          (Wrote (anchor_settle id hash evidence accounts ∷ ws))
          (submit_settle chain id hash evidence accounts)
  unfolding submit_settle
  submit_settle-Leads id hash evidence accounts =
      Leads-bind _ _ (ask-Writes ws _ _ refl)
        λ sig. Ends-bind _ _ (ask-Reads _ _ _ refl) λ err. confirmed-Reads sig err
    where
      confirmed-Reads :
          {vs : Trace} (sig : Text) (err : Option Text) → Keeps (Wrote vs) (confirmed sig err)
      confirmed-Reads sig none = Ends-pure sig
      confirmed-Reads sig (some e) = Keeps-raise _ _

  pub verify_and_settle_on_solana-Leads :
      Leads (Wrote ws) Closed (verify_and_settle_on_solana chain vars p)
  unfolding verify_and_settle_on_solana
  verify_and_settle_on_solana-Leads = Leads-then weaken _ _ get_anchor_ctx-Reads λ _.
      Leads-lift weaken _ _ λ id read_id. Leads-lift weaken _ _ λ hash read_hash.
        Leads-lift weaken _ _ λ evidence read_evidence.
          Leads-then weaken _ _ (settle_accounts-Reads p.accounts) λ accounts.
            settled id hash evidence accounts (record {
              id = id;
              read_id = read_id;
              hash = hash;
              read_hash = read_hash;
              evidence = evidence;
              read_evidence = read_evidence;
              accounts = accounts;
              is = refl;
            })
    where
      weaken : (t : Trace) → Wrote ws t → Closed t
      weaken t h = inl h

      settled :
          (id : ℤ) (hash evidence : List ℕ) (accounts : SettleAccounts)
          → IsSettlement p (anchor_settle id hash evidence accounts)
          → Leads (Wrote ws) Closed (
              try_catch
                (submit_settle chain id hash evidence accounts)
                (λ e. raise bad_request e.message))
      settled id hash evidence accounts is = record {
        at = λ t h. inr (
          _,
          is,
          (Leads-try _ _ (submit_settle-Leads id hash evidence accounts)
                (λ e. Leads-Keeps _ (Keeps-raise _ _))).at
              t h,
        );
      }
