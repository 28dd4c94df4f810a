-- ===== src/Frontend/EvmBridge/Ended.antt =====
-- How the hook's `bridge` leaves the page.
use lunarys_bridge.Prelude.{
  ◌≡◌, refl, inl, inr, Bool, true, false, Option, none, some, ◌∷◌, Bool-cases,
}
use lunarys_bridge.Prelude.Int.{pos, ltb_ℤ, leb_ℤ}
use lunarys_bridge.Prelude.Text.{Text, is_empty}
use lunarys_bridge.Prelude.Effect.{
  Result, ok, thrown, Eff, raise, plain, ◌>>=◌, handle, continue, try_catch,
}
use lunarys_bridge.Prelude.Effect.Ends.{
  After, Post, Ends, Keeps, Ends-bind, Ends-pure, Ends-if, Ends-try, Keeps-raise, Keeps-lift,
  Yields, Yields-bind,
}
use lunarys_bridge.Frontend.Units.{is_valid_solana_address}
use lunarys_bridge.Frontend.EvmBridge.{
  Call, Trace, Services, complete, idle, Page, call, Params, BridgeResult, approve_if_needed,
  initiate, send_amount, evm_to_sol_bridge, TokenConfig, Hook, ensure_evm_wallet,
  ensure_sepolia_network, require, ask_wallet, connect, change_network, set_running, set_complete,
  set_failed, stop_loading, run, params_of, bridge_with, with_relayer, with_token, bridge,
}

-- A predicate that does not look at the trace.
module _ (K : Page → Type 0)
    (blind : (p : Page) (t : Trace) → K p → K (record p { calls = t })) where
  call-Keeps : {A : Type 0} (c : Call) (answer : Trace → Result A) → Keeps K (call c answer)
  unfolding call
  call-Keeps c answer = record { at = λ p k. go (answer p.calls) (blind p (c ∷ p.calls) k) }
    where
      go : {A : Type 0} {p : Page} (x : Result A) → K p → After K (λ _. K) (x, p)
      go (ok a) k = k
      go (thrown e) k = k

  evm_to_sol_bridge-Keeps : (s : Services) (q : Params) → Keeps K (evm_to_sol_bridge s q)
  unfolding evm_to_sol_bridge send_amount approve_if_needed initiate
  evm_to_sol_bridge-Keeps s q = Ends-bind _ _ (call-Keeps _ _) λ enc.
      Ends-bind _ _ (Keeps-lift _) λ parsed. Ends-if (leb_ℤ parsed (pos 0)) _ _ (Keeps-raise _ _) (
        Ends-bind _ _ (call-Keeps _ _) λ current.
          Ends-bind _ _
            (Ends-if (ltb_ℤ current parsed) _ _
              (Ends-bind _ _ (call-Keeps _ _)
                λ hash. Ends-bind _ _ (call-Keeps _ _) λ receipt. Ends-pure _)
              (Ends-pure none))
            λ a.
              Ends-bind _ _ (call-Keeps _ _)
                λ hash. Ends-bind _ _ (call-Keeps _ _) λ receipt. Ends-pure _)

  module _ (h : Hook) where
    require-Keeps : (b : Bool) (message : Text) → Keeps K (require h b message)
    require-Keeps b message = Ends-if b _ _ (Ends-pure tt) (Keeps-raise _ _)

    ask_wallet-Keeps : Keeps K (ask_wallet h)
    unfolding ask_wallet ensure_evm_wallet
    ask_wallet-Keeps =
        Ends-bind _ _
          (Ends-if h.services.has_ethereum _ _
            (Ends-if h.services.has_request _ _
              (Ends-try _ _ (Ends-bind _ _ (call-Keeps _ _) λ u. Ends-pure true)
                (λ e. Ends-pure false))
              (Ends-pure true))
            (Ends-pure false))
          λ there. require-Keeps there _

    connect-Keeps : Keeps K (connect h)
    unfolding connect
    connect-Keeps =
        Ends-if h.is_connected _ _ (Ends-if h.has_signer _ _ (Ends-pure tt) ask_wallet-Keeps)
          ask_wallet-Keeps

    change_network-Keeps : Keeps K (change_network h)
    unfolding change_network ensure_sepolia_network
    change_network-Keeps = Ends-if h.is_correct_network _ _ (Ends-pure tt) (
        Ends-bind _ _
          (Ends-if h.services.has_request _ _
            (Ends-try _ _ (Ends-bind _ _ (call-Keeps _ _) λ u. Ends-pure true)
              (λ e. Ends-pure false))
            (Ends-pure false))
          λ there. require-Keeps there _)

module _ (h : Hook) (start : Page) where
  abbrev pub Same : Page → Type 0
  Same p = (p.loading ≡ start.loading) × (p.phase ≡ start.phase) × (p.error ≡ start.error)

  -- A guard threw, and the page looks as it did; or the run threw, and the page is idle and shows an
  -- error.
  pub data Refused (p : Page) : Type 0 where
    untouched : Same p → Refused p
    failed :
        {message : Text} → p.loading ≡ false → p.phase ≡ idle → p.error ≡ some message → Refused p

  pub record Completed (p : Page) : Type 0 where
    pub stopped : p.loading ≡ false
    pub finished : p.phase ≡ complete
    pub clean : p.error ≡ none

  abbrev pub Done : BridgeResult → Page → Type 0
  Done r p = Completed p

  abbrev pub Left : Text → Page → Type 0
  Left message p = Refused p

  guard : {A : Type 0} (m : Eff Page A) → Keeps Same m → Ends Same Left m
  guard m k = record { at = λ p s. go (m p) (k.at p s) }
    where
      go : {A : Type 0} (x : Result A × Page) → After Same (λ _. Same) x → After Same Left x
      go (ok a, p) s = s
      go (thrown e, p) s = Refused.untouched s

  run-Done : (q : Params) (p : Page) → p.error ≡ none → Post Done Left (run h q p)
  unfolding run try_catch ◌>>=◌ set_complete set_failed stop_loading
  run-Done q p clean =
      go (evm_to_sol_bridge h.services q p)
        ((evm_to_sol_bridge-Keeps (λ p. p.error ≡ none) (λ p t k. k) h.services q).at p clean)
    where
      go :
          (x : Result BridgeResult × Page)
          → After (λ p. p.error ≡ none) (λ _ p. p.error ≡ none) x
          → Post Done Left (stop_loading h (handle (set_failed h) (continue (set_complete h) x)))
      go (ok r, p) k = record { stopped = refl; finished = refl; clean = k }
      go (thrown e, p) k = Refused.failed refl refl refl

  blind : (p : Page) (t : Trace) → Same p → Same (record p { calls = t })
  blind p t k = k

  run-Yields : (q : Params) → Yields Same Done Left (set_running h >>= λ u. run h q)
  unfolding set_running ◌>>=◌
  run-Yields q = record { at = λ p s. run-Done q _ refl }

  bridge_with-Yields :
      (token : TokenConfig) (relayer : Text) → Yields Same Done Left (bridge_with h token relayer)
  unfolding bridge_with
  bridge_with-Yields token relayer =
      Yields-bind _ _ (guard _ (require-Keeps Same blind h h.fhe_is_ready _)) λ u.
        Yields-bind _ _ (guard _ (connect-Keeps Same blind h)) λ u.
          Yields-bind _ _ (guard _ (change_network-Keeps Same blind h))
            λ u. run-Yields (params_of h token relayer)

  raise-Yields : (message : Text) → Yields Same Done Left (raise plain message)
  raise-Yields message = record { at = λ p s. Refused.untouched s }

  with_relayer-Yields :
      (token : TokenConfig) (relayer : Option Text)
      → Yields Same Done Left (with_relayer h token relayer)
  unfolding with_relayer
  with_relayer-Yields token none = raise-Yields _
  with_relayer-Yields token (some relayer) = elim (Bool-cases (is_empty relayer)) [
    | inl missing ↦ rw missing (raise-Yields _)
    | inr there ↦ rw there (bridge_with-Yields token relayer)
  ]

  with_token-Yields : (token : Option TokenConfig) → Yields Same Done Left (with_token h token)
  unfolding with_token
  with_token-Yields none = raise-Yields _
  with_token-Yields (some token) =
      Yields-bind _ _ (guard _ (require-Keeps Same blind h h.amount_is_positive _))
        λ u. with_relayer-Yields token h.new_relayer_address

  bridge-Yields : Yields Same Done Left (bridge h)
  unfolding bridge
  bridge-Yields =
      Yields-bind _ _
        (guard _ (require-Keeps Same blind h (is_valid_solana_address h.solana_destination) _))
        λ u. with_token-Yields h.token_config

-- Whatever the wallet and the chain answer, when the hook's `bridge` returns, the page is complete,
-- shows no error and has stopped loading; when it throws, either a guard did and the page looks as it
-- did before, or the page is idle again, shows an error and has stopped loading.
pub bridge_ends : (h : Hook) (start : Page) → Post (Done h start) (Left h start) (bridge h start)
bridge_ends h start = (bridge-Yields h start).at start (refl, refl, refl)
