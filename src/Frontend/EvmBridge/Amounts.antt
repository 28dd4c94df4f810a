-- ===== src/Frontend/EvmBridge/Amounts.antt =====
-- What `evmToSolBridge` asks the wallet to sign.
use lunarys_bridge.Prelude.{
  ◌≡◌, refl, inl, inr, Bool, true, false, Option, none, ◌∷◌, select, Bool-cases,
}
use lunarys_bridge.Prelude.Int.{ℤ, pos, ltb_ℤ, leb_ℤ}
use lunarys_bridge.Prelude.Text.{Text}
use lunarys_bridge.Prelude.Effect.{Result, ok, thrown}
use lunarys_bridge.Prelude.Effect.Ends.{After, Keeps, Ends-bind, Ends-pure, Keeps-raise}
use lunarys_bridge.Prelude.Effect.Leads.{
  Leads, Leads-bind, Leads-then, Leads-known, Leads-lift, Leads-map, Leads-Keeps, Leads-seq,
}
use lunarys_bridge.Frontend.EvmBridge.{
  Encrypted, Call, approve, initiate_bridge, Trace, Services, Page, call, Params, sanitized,
  approve_if_needed, initiate, send_amount, evm_to_sol_bridge,
}

abbrev pub is_move : Call → Bool
is_move (approve spender amount) = true
is_move (initiate_bridge token amount enc) = true
is_move _ = false

abbrev pub moves : Trace → Trace
moves = select is_move

abbrev Moved : Trace → Page → Type 0
Moved ms p = moves p.calls ≡ ms

call-Keeps :
    {A : Type 0} (R : Trace → Type 0) (c : Call) (answer : Trace → Result A)
    → is_move c ≡ false
    → Keeps (λ p. R (moves p.calls)) (call c answer)
unfolding call
call-Keeps R c answer h = record { at = λ p q. go (answer p.calls) p q }
  where
    go :
        {A : Type 0} (x : Result A) (p : Page)
        → R (moves p.calls)
        → After
            (λ p. R (moves p.calls))
            (λ _ p. R (moves p.calls))
            (x, record p { calls = c ∷ p.calls })
    go (ok a) p q = rw h q
    go (thrown e) p q = rw h q

call-Leads :
    {A : Type 0} (ms : Trace) (c : Call) (answer : Trace → Result A)
    → is_move c ≡ true
    → Leads (Moved ms) (Moved (c ∷ ms)) (call c answer)
unfolding call
call-Leads ms c answer h = record { at = λ p q. rw (h, q) refl }

module _ (s : Services) (q : Params) where
  -- The amount of the text is positive, and `current` is an answer of the token's
  -- `allowance` of the owner for the bridge.
  pub record IsParsed (parsed current : ℤ) : Type 0 where
    pub read : s.parse_units (sanitized s q) q.token_decimals ≡ ok parsed
    pub positive : leb_ℤ parsed (pos 0) ≡ false
    pub asked_at : Trace
    pub answered : s.allowed q.owner_address q.new_relayer_address asked_at ≡ ok current

  abbrev pub approval : ℤ → Call
  approval parsed = approve q.new_relayer_address parsed

  -- Nothing was asked for; an approval alone; a transfer that the allowance covers; or both.
  pub data Asked (before : Trace) : Trace → Type 0 where
    nothing : Asked before before
    approved :
        {parsed current : ℤ}
        → IsParsed parsed current
        → ltb_ℤ current parsed ≡ true
        → Asked before (approval parsed ∷ before)
    covered :
        {parsed current : ℤ} {enc : Encrypted}
        → IsParsed parsed current
        → ltb_ℤ current parsed ≡ false
        → Asked before (initiate_bridge q.token_address parsed enc ∷ before)
    both :
        {parsed current : ℤ} {enc : Encrypted}
        → IsParsed parsed current
        → ltb_ℤ current parsed ≡ true
        → Asked before (initiate_bridge q.token_address parsed enc ∷ approval parsed ∷ before)

  module _ (before : Trace) where
    abbrev Fine : Page → Type 0
    Fine p = Asked before (moves p.calls)

    abbrev Start : Page → Type 0
    Start = Moved before

    weaken : (p : Page) → Start p → Fine p
    weaken p e = rw e Asked.nothing

    initiate-Leads :
        (ms : Trace) (enc : Encrypted) (parsed : ℤ) (a : Option Text)
        → Leads
            (Moved ms)
            (Moved (initiate_bridge q.token_address parsed enc ∷ ms))
            (initiate s q enc parsed a)
    unfolding initiate
    initiate-Leads ms enc parsed a = Leads-bind _ _ (call-Leads ms _ _ refl) λ hash.
        Ends-bind _ _
          (call-Keeps (λ t. t ≡ initiate_bridge q.token_address parsed enc ∷ ms) _ _ refl)
          λ receipt. Ends-pure _

    approve-Leads :
        (parsed : ℤ)
        → Leads Start (Moved (approval parsed ∷ before)) (call (approval parsed) s.sent)
    approve-Leads parsed = call-Leads before _ _ refl

    send-Leads :
        (enc : Encrypted) {parsed : ℤ}
        → s.parse_units (sanitized s q) q.token_decimals ≡ ok parsed
        → leb_ℤ parsed (pos 0) ≡ false
        → Leads Start Fine (send_amount s q enc parsed)
    unfolding send_amount approve_if_needed call
    send-Leads enc {parsed} read positive =
        Leads-known weaken _ _ (call-Keeps (λ t. t ≡ before) _ _ refl) λ p current answer.
          let known : IsParsed parsed current = record {
            read = read;
            positive = positive;
            asked_at = p.calls;
            answered = answer;
          } in
          elim (Bool-cases (ltb_ℤ current parsed)) [
            | inr enough ↦ rw enough (
                Leads-then weaken _ _ (Ends-pure none) λ a.
                  Leads-map _ (initiate-Leads before enc parsed a)
                    (λ p e. rw e (Asked.covered known enough)))
            | inl short ↦ rw short (
                Leads-seq (λ p e. rw e (Asked.approved known short)) _ _
                  (Leads-bind _ _ (approve-Leads parsed) λ hash.
                    Ends-bind _ _ (call-Keeps (λ t. t ≡ approval parsed ∷ before) _ _ refl)
                      λ receipt. Ends-pure _)
                  λ a.
                    Leads-map _ (initiate-Leads (approval parsed ∷ before) enc parsed a)
                      (λ p e. rw e (Asked.both known short)))
          ]

    bridge-Leads : Leads Start Fine (evm_to_sol_bridge s q)
    unfolding evm_to_sol_bridge
    bridge-Leads = Leads-then weaken _ _ (call-Keeps (λ t. t ≡ before) _ _ refl) λ enc.
        Leads-lift weaken _ _ λ parsed read. (elim (Bool-cases (leb_ℤ parsed (pos 0))) [
          | inl none_left ↦ rw none_left (Leads-map _ (Leads-Keeps _ (Keeps-raise _ _)) weaken)
          | inr positive ↦ rw positive (send-Leads enc read positive)
        ])

  -- However it ends, `evmToSolBridge` asks the wallet to sign nothing; or an approval alone; or one
  -- transfer to the bridge, after an approval exactly where the allowance that was read is below it.
  -- Approval and transfer are of the same amount: the one that the text reads as, above zero.
  pub asks_for_one_amount :
      (p : Page) → Asked (moves p.calls) (moves (evm_to_sol_bridge s q p).1.calls)
  asks_for_one_amount p = (bridge-Leads (moves p.calls)).at p refl
