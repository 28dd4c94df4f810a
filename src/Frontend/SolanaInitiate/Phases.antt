-- ===== src/Frontend/SolanaInitiate/Phases.antt =====
-- How the page's `initiate` leaves the page.
use lunarys_bridge.Prelude.{◌≡◌, refl, ◌⊎◌, inl, inr, Bool, true, false, none, some, ◌∷◌}
use lunarys_bridge.Prelude.Text.{Text, is_empty}
use lunarys_bridge.Prelude.Effect.{Result, ok, thrown, Eff, lift, ◌>>=◌, handle, try_catch}
use lunarys_bridge.Prelude.Effect.Ends.{
  After, Post, Ends, Keeps, Ends-bind, Ends-pure, Ends-if, Ends-try, Keeps-raise, Keeps-lift,
  Yields, Yields-bind,
}
use lunarys_bridge.Frontend.SolanaInitiate.{
  Instruction, Call, Trace, Services, locking, encrypting, bridging, Page, call, Args, Initiated,
  rand_u64, ensure_ata_ix, set_phase, simulate_first, submit, attempt, set_error, stop_loading,
  cleared, initiate,
}

-- A predicate that does not look at the trace.
module _ (K : Page → Type 0)
    (blind : (p : Page) (t : Trace) → K p → K (record p { calls = t })) where
  call-Keeps : {A : Type 0} (c : Call) (answer : Trace → Result A) → Keeps K (call c answer)
  unfolding call
  call-Keeps c answer = record { at = λ p k. go (answer p.calls) (blind p (c ∷ p.calls) k) }
    where
      go : {A : Type 0} {p : Page} (x : Result A) → K p → After K (λ _. K) (x, p)
      go (ok a) k = k
      go (thrown e) k = k

abbrev InPhase : Page → Type 0
InPhase p = (p.phase ≡ locking) × (p.error ≡ none)

abbrev pub Stuck : Page → Type 0
Stuck p = (p.phase ≡ locking) ⊎ (p.phase ≡ encrypting)

module _ (s : Services) where
  stuck_at_start : {A : Type 0} (m : Eff Page A) → Keeps InPhase m → Ends InPhase (λ _. Stuck) m
  stuck_at_start m k = record { at = λ p h. go (m p) (k.at p h) }
    where
      go :
          {A : Type 0} (x : Result A × Page)
          → After InPhase (λ _. InPhase) x
          → After InPhase (λ _. Stuck) x
      go (ok a, p) h = h
      go (thrown e, p) h = inl h.0

  asked :
      {A : Type 0} (c : Call) (answer : Trace → Result A)
      → Ends InPhase (λ _. Stuck) (call c answer)
  asked c answer = stuck_at_start _ (call-Keeps InPhase (λ p t h. h) c answer)

  lifted : {A : Type 0} (r : Result A) → Ends InPhase (λ _. Stuck) (lift r)
  lifted r = stuck_at_start _ (Keeps-lift r)

  ensured :
      (owner mint : Text) (off : Bool) (payer : Text)
      → Ends InPhase (λ _. Stuck) (ensure_ata_ix s owner mint off payer)
  unfolding ensure_ata_ix
  ensured owner mint off payer =
      Ends-bind _ _ (lifted _) λ ata. Ends-bind _ _ (asked _ _) λ there. Ends-pure _

  abbrev Encrypting : Page → Type 0
  Encrypting p = (p.phase ≡ encrypting) × (p.error ≡ none)

  stuck_later : {A : Type 0} (m : Eff Page A) → Keeps Encrypting m → Ends Encrypting (λ _. Stuck) m
  stuck_later m k = record { at = λ p h. go (m p) (k.at p h) }
    where
      go :
          {A : Type 0} (x : Result A × Page)
          → After Encrypting (λ _. Encrypting) x
          → After Encrypting (λ _. Stuck) x
      go (ok a, p) h = h
      go (thrown e, p) h = inr h.0

  abbrev Sent : Initiated → Page → Type 0
  Sent r p = (p.phase ≡ bridging) × (p.error ≡ none) × (p.last_sig ≡ some r.sig)

  sim-Keeps : (skip : Bool) (ix : Instruction) → Keeps Encrypting (simulate_first s skip ix)
  unfolding simulate_first
  sim-Keeps skip ix =
      Ends-if skip _ _ (Ends-pure tt)
        (Ends-try _ _ (call-Keeps Encrypting (λ p t h. h) _ _) (λ e. Keeps-raise _ _))

  -- Behind the change of the phase.
  phase-Yields :
      {A : Type 0} {R : A → Page → Type 0} (f : Unit {0} → Eff Page A)
      → Yields Encrypting R (λ _. Stuck) (f tt)
      → Yields InPhase R (λ _. Stuck) (set_phase s encrypting >>= f)
  unfolding set_phase ◌>>=◌
  phase-Yields f h = record { at = λ p q. h.at (record p { phase = encrypting }) (refl, q.1) }

  submit-Yields :
      (skip : Bool) (ix : Instruction) → Yields InPhase Sent (λ _. Stuck) (submit s skip ix)
  unfolding submit
  submit-Yields skip ix = phase-Yields _ (
      Yields-bind _ _ (stuck_later _ (sim-Keeps skip ix)) λ u.
        Yields-bind _ _ (stuck_later _ (call-Keeps Encrypting (λ p t h. h) _ _))
          λ sig. record { at = λ p h. (refl, h.1, refl) })

  module _ (address : Text) (args : Args) where
    attempt-Yields : Yields InPhase Sent (λ _. Stuck) (attempt s address args)
    unfolding attempt rand_u64
    attempt-Yields = Yields-bind _ _ (lifted _) λ payer. Yields-bind _ _ (lifted _) λ program.
        Yields-bind _ _ (asked _ _) λ millis. Yields-bind _ _ (lifted _) λ mint.
          Yields-bind _ _ (ensured _ _ _ _) λ user. Yields-bind _ _ (ensured _ _ _ _) λ escrow.
            Yields-bind _ _ (lifted _) λ plan.
              Yields-bind _ _ (Ends-bind _ _ (asked _ _) λ words. Ends-pure _) λ offset.
                Yields-bind _ _ (asked _ _) λ client_pub. Yields-bind _ _ (asked _ _) λ nonce.
                  Yields-bind _ _ (lifted _)
                    λ base. Yields-bind _ _ (lifted _) λ amount. submit-Yields args.skip_sim _

    abbrev pub Sending : Initiated → Page → Type 0
    Sending r p =
        (p.phase ≡ bridging) × (p.error ≡ none) × (p.last_sig ≡ some r.sig) × (p.loading ≡ false)

    abbrev pub Covered : Text → Page → Type 0
    Covered message p = Stuck p × (p.error ≡ some message) × (p.loading ≡ false)

    stopped :
        (x : Result Initiated × Page)
        → Post Sent (λ _. Stuck) x
        → Post Sending Covered (stop_loading s (handle (set_error s address args) x))
    unfolding stop_loading set_error
    stopped (ok r, p) (phase, clean, sig) = (phase, clean, sig, refl)
    stopped (thrown e, p) h = (h, refl, refl)

    -- When the page's `initiate`, for a connected wallet with an address that is not empty, returns, the page is in the phase
    -- `bridging` and shows no error; when it throws, the page shows the error and has stopped loading,
    -- but is left in the phase `locking` or `encrypting`.
    pub failure_keeps_phase :
        is_empty address ≡ false
        → (p : Page) → Post Sending Covered (initiate s true (some address) args p)
    unfolding initiate cleared try_catch
    failure_keeps_phase there p = rw there (stopped _ (attempt-Yields.at _ (refl, refl)))
