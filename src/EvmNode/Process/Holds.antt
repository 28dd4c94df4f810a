-- ===== src/EvmNode/Process/Holds.antt =====
-- What the steps of `processBridgeRequest` keep, and that its decryption always throws.
use lunarys_bridge.Prelude.{ℕ, ◌≡◌, ◌≢◌, inl, inr, Bool, true, false, List, ◌∷◌, select}
use lunarys_bridge.Prelude.Text.{Text}
use lunarys_bridge.Prelude.Effect.{Result, ok, thrown, bind-ok, try-ok}
use lunarys_bridge.Prelude.Effect.Ends.{After, Keeps, Ends-bind, Ends-pure, Ends-try, Keeps-raise}
use lunarys_bridge.EvmNode.Services.{
  Call, bridge_requests, wait, generate_keypair, create_eip712, sign_typed_data, Trace, Config,
  NodeState, call,
}
use lunarys_bridge.EvmNode.Monitor.{BridgeRequest, is_request_claimed, decrypt_solana_address}
use lunarys_bridge.EvmNode.Process.{decrypt_with, decrypt}

-- A kind of calls that reading a request, waiting for a receipt and decrypting do not make.
pub record Quiet (kind : Call → Bool) : Type 0 where
  pub reading : (id : ℕ) → kind (bridge_requests id) ≡ false
  pub waiting : (hash : Text) → kind (wait hash) ≡ false
  pub keys : kind generate_keypair ≡ false
  pub typed : (relayer : Text) → kind (create_eip712 relayer) ≡ false
  pub signing : kind sign_typed_data ≡ false

module _ (cfg : Config) (request : BridgeRequest) where
  never_decrypts :
      (b : Bool) (id : ℕ) (relayer : Text) (n : NodeState) (s : Text)
      → (decrypt_solana_address cfg b id relayer n).0 ≢ ok s
  unfolding decrypt_solana_address
  never_decrypts false id relayer n s h = cc
  never_decrypts true id relayer n s h = elim (try-ok _ _ h) [
    | inl body ↦
        (let (a, _, later, _) = bind-ok _ _ body in
          let (b, _, last, _) = bind-ok _ _ later in let (c, _, end, _) = bind-ok _ _ last in cc)
    | inr (e, again) ↦ cc
  ]

  decrypt_with_throws :
      (there ready : Bool) (n : NodeState) (s : Text)
      → (decrypt_with cfg request there ready n).0 ≢ ok s
  unfolding decrypt_with
  decrypt_with_throws true ready n s h = never_decrypts ready _ _ n s h
  decrypt_with_throws false ready n s h = cc

  pub decrypt_throws : (n : NodeState) (s : Text) → (decrypt cfg request n).0 ≢ ok s
  unfolding decrypt
  decrypt_throws n s h = elim (try-ok _ _ h) [
    | inl body ↦ decrypt_with_throws n.decryptor n.instance_ready n s body
    | inr (e, again) ↦ cc
  ]

  -- A predicate of the calls of one kind and of the set `processing`.
  module _ (kind : Call → Bool) (quiet : Quiet kind) (Q : Trace → List Text → Type 0) where
    abbrev pub Holds : NodeState → Type 0
    Holds n = Q (select kind n.calls) n.processing

    pub call-Holds :
        {A : Type 0} (c : Call) (answer : Trace → Result A)
        → kind c ≡ false
        → Keeps Holds (call c answer)
    unfolding call
    call-Holds c answer h = record { at = λ n p. go (answer n.calls) n p }
      where
        go :
            {A : Type 0} (x : Result A) (n : NodeState)
            → Holds n
            → After Holds (λ _. Holds) (x, record n { calls = c ∷ n.calls })
        go (ok a) n p = rw h p
        go (thrown e) n p = rw h p

    pub is_request_claimed-Holds : (id : ℕ) → Keeps Holds (is_request_claimed cfg id)
    unfolding is_request_claimed
    is_request_claimed-Holds id =
        Ends-bind _ _ (call-Holds _ _ (quiet.reading id)) λ claimer. Ends-pure _

    decrypt_solana_address-Holds :
        (b : Bool) (id : ℕ) (relayer : Text) → Keeps Holds (decrypt_solana_address cfg b id relayer)
    unfolding decrypt_solana_address
    decrypt_solana_address-Holds false id relayer = Keeps-raise _ _
    decrypt_solana_address-Holds true id relayer =
        Ends-try _ _
          (Ends-bind _ _ (call-Holds _ _ quiet.keys) λ keys.
            Ends-bind _ _ (call-Holds _ _ (quiet.typed relayer))
              λ typed. Ends-bind _ _ (call-Holds _ _ quiet.signing) λ signature. Keeps-raise _ _)
          (λ e. record { at = λ n p. p })

    decrypt_with-Holds : (there ready : Bool) → Keeps Holds (decrypt_with cfg request there ready)
    unfolding decrypt_with
    decrypt_with-Holds false ready = Keeps-raise _ _
    decrypt_with-Holds true ready = decrypt_solana_address-Holds ready _ _

    pub decrypt-Holds : Keeps Holds (decrypt cfg request)
    unfolding decrypt
    decrypt-Holds = record {
      at = λ n p.
          (Ends-try _ _ (decrypt_with-Holds n.decryptor n.instance_ready) (λ e. Keeps-raise _ _)).at
            n p;
    }
