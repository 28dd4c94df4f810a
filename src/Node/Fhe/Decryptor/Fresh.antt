-- ===== src/Node/Fhe/Decryptor/Fresh.antt =====
-- The signature with which the node decrypts has not expired.
use lunarys_bridge.Prelude.{
  ℕ, ◌+◌, ◌*◌, ◌/◌, ◌≡◌, refl, ap, Bool, true, Option, none, some, List, [], ◌∷◌, arith, inl, inr,
  Bool-cases,
}
use lunarys_bridge.Prelude.Text.{Text}
use lunarys_bridge.Prelude.Effect.{Result, ok, thrown, Eff}
use lunarys_bridge.Prelude.Effect.Ends.{
  After, Post, Keeps, Yields, Ends-bind, Ends-pure, Ends-if, Ends-try, Keeps-lift, Yields-then,
  Yields-Keeps, Yields-try,
}
use lunarys_bridge.Node.Fhe.{
  FhevmDecryptionSignature, KeyPair, Stored, Items, unreadable, readable, FheCall, clock, FheTrace,
  FheServices, FheNode, call, lookup, is_valid, set_items, load, has_pair, public_key_of,
  ensure_loaded, get_item, persist, set_item, save_to_storage, unexpired, load_from_storage, create,
  pair_or_new, saved, sign_new, load_or_sign,
}
use lunarys_bridge.Node.Fhe.Decryptor.{
  forget, keep_or_throw, fresh_signature, cached_or_fresh, ensure_decryption_signature,
}

-- The trace after further requests.
pub data Since (before : FheTrace) : FheTrace → Type 0 where
  same : Since before before
  more : {c : FheCall} {t : FheTrace} → Since before t → Since before (c ∷ t)

module _ (s : FheServices) (before : FheTrace) where
  -- The time was read from the clock after the trace `before`.
  pub data WasRead (now : ℕ) : FheTrace → Type 0 where
    latest : {t : FheTrace} → Since before t → s.now t ≡ now → WasRead now (clock ∷ t)
    earlier : {c : FheCall} {t : FheTrace} → WasRead now t → WasRead now (c ∷ t)

  -- The signature was valid at a time that was read.
  pub record IsFresh (sig : FhevmDecryptionSignature) (t : FheTrace) : Type 0 where
    pub now : ℕ
    pub read : WasRead now t
    pub valid : is_valid now sig ≡ true

  abbrev Holds : (FheTrace → Type 0) → FheNode → Type 0
  Holds K n = K n.calls

  abbrev Nothing : FheNode → Type 0
  Nothing n = Since before n.calls

  since : {now : ℕ} {t : FheTrace} → WasRead now t → Since before t
  since (WasRead.latest p e) = Since.more p
  since (WasRead.earlier r) = Since.more (since r)

  -- What stays true when requests are added.
  module _ (K : FheTrace → Type 0) (grows : (c : FheCall) (t : FheTrace) → K t → K (c ∷ t)) where
    call-Keeps :
        {A : Type 0} (c : FheCall) (answer : FheTrace → Result A) → Keeps (Holds K) (call c answer)
    unfolding call
    call-Keeps c answer = record {
      at = λ n k. go (record n { calls = c ∷ n.calls }) (answer n.calls) (grows c n.calls k);
    }
      where
        go :
            {A : Type 0} (n : FheNode) (x : Result A)
            → K n.calls
            → After (Holds K) (λ _. Holds K) (x, n)
        go n (ok a) k = k
        go n (thrown e) k = k

    load-Keeps : (found : Option Items) → Keeps (Holds K) (load s found)
    unfolding set_items
    load-Keeps none = Ends-bind _ _ (call-Keeps _ s.written) λ u. record { at = λ n k. k }
    load-Keeps (some d) = record { at = λ n k. k }

    ensure_loaded-Keeps : Keeps (Holds K) (ensure_loaded s)
    unfolding ensure_loaded
    ensure_loaded-Keeps = record {
      at = λ n k.
          (Ends-if n.loaded _ _ (Ends-pure tt)
              (Ends-bind _ _ (call-Keeps _ s.contents) load-Keeps)).at
            n k;
    }

    get_item-Keeps : (key : Text) → Keeps (Holds K) (get_item s key)
    unfolding get_item
    get_item-Keeps key = Ends-bind _ _ ensure_loaded-Keeps λ u. record { at = λ n k. k }

    set_item-Keeps : (key : Text) (v : Stored) → Keeps (Holds K) (set_item s key v)
    unfolding set_item persist
    set_item-Keeps key v =
        Ends-bind _ _ (Ends-bind _ _ ensure_loaded-Keeps λ u. record { at = λ n k. k })
          λ u. record { at = λ n k. (call-Keeps _ s.written).at n k }

    save-Keeps :
        (sig : FhevmDecryptionSignature) (b : Bool) → Keeps (Holds K) (save_to_storage s sig b)
    unfolding save_to_storage
    save-Keeps sig b =
        Ends-try _ _ (Ends-bind _ _ (Keeps-lift _) λ key. set_item-Keeps key (readable sig))
          (λ e. Ends-pure tt)

  read-clock :
      Yields Nothing (λ now n. WasRead now n.calls) (λ _. Nothing) (call clock (λ t. ok (s.now t)))
  unfolding call
  read-clock = record { at = λ n p. WasRead.latest p refl }

  grows_any : (c : FheCall) (t : FheTrace) → Since before t → Since before (c ∷ t)
  grows_any c t u = Since.more u

  grows_read : {now : ℕ} (c : FheCall) (t : FheTrace) → WasRead now t → WasRead now (c ∷ t)
  grows_read c t r = WasRead.earlier r

  grows-IsFresh :
      {sig : FhevmDecryptionSignature} (c : FheCall) (t : FheTrace)
      → IsFresh sig t
      → IsFresh sig (c ∷ t)
  grows-IsFresh c t f = record { now = f.now; read = WasRead.earlier f.read; valid = f.valid }

  abbrev pub IsFreshIf : Option FhevmDecryptionSignature → FheTrace → Type 0
  IsFreshIf none t = Since before t
  IsFreshIf (some sig) t = IsFresh sig t

  abbrev Yielded : Eff FheNode (Option FhevmDecryptionSignature) → Type 0
  Yielded m = Yields Nothing (λ o n. IsFreshIf o n.calls) (λ _. Nothing) m

  -- A request, of which nothing is promised.
  any_call :
      {A : Type 0} (c : FheCall) (answer : FheTrace → Result A)
      → Yields Nothing (λ _. Nothing) (λ _. Nothing) (call c answer)
  any_call c answer = Yields-Keeps _ (call-Keeps (Since before) grows_any c answer) (λ n u. u)

  unexpired-Yielded : (raw : Option Stored) → Yielded (unexpired s raw)
  unfolding unexpired
  unexpired-Yielded none = record { at = λ n u. u }
  unexpired-Yielded (some unreadable) = record { at = λ n u. u }
  unexpired-Yielded (some (readable sig)) = Yields-then _ _ read-clock λ now. record {
    at = λ n r. elim (Bool-cases (is_valid now sig)) [
      | inl fits ↦ rw fits (record { now = now; read = r; valid = fits })
      | inr late ↦ rw late (since r)
    ];
  }

  load-Yielded :
      (contracts : List Text) (user : Text) (key : Option Text)
      → Yielded (load_from_storage s contracts user key)
  unfolding load_from_storage
  load-Yielded contracts user key =
      Yields-try _ _
        (Yields-then _ _ (Yields-Keeps _ (Keeps-lift _) (λ n u. u)) λ name.
          Yields-then _ _ (Yields-Keeps _ (get_item-Keeps (Since before) grows_any name) (λ n u. u))
            unexpired-Yielded)
        (λ e. record { at = λ n u. u })

  just_signed :
      (now : ℕ) (sig : FhevmDecryptionSignature)
      → sig.start_timestamp ≡ now / 1000
      → sig.duration_days ≡ 365
      → is_valid now sig ≡ true
  unfolding is_valid
  just_signed now sig e d =
      let later : sig.start_timestamp + sig.duration_days * 24 * 60 * 60 ≡ now / 1000 + 31536000 =
        omega (arith, e, ap (λ d. d * 24 * 60 * 60) d) in
      rw later (ground arith)

  create-Yielded : (contracts : List Text) (pair : KeyPair) → Yielded (create s contracts pair)
  unfolding create
  create-Yielded contracts pair =
      Yields-try _ _
        (Yields-then _ _ (any_call _ s.signer) λ user. Yields-then _ _ read-clock λ now.
          Yields-then _ _
            (Yields-Keeps _ (call-Keeps (WasRead now) grows_read _ s.signed) (λ n r. since r))
            λ signature. record {
              at = λ n r. record { now = now; read = r; valid = just_signed now _ refl refl };
            })
        (λ e. record { at = λ n u. u })

  saved-Yielded :
      (pair : Option KeyPair) (o : Option FhevmDecryptionSignature)
      → Yields
          (λ n. IsFreshIf o n.calls)
          (λ o n. IsFreshIf o n.calls)
          (λ _. Nothing)
          (saved s pair o)
  saved-Yielded pair none = record { at = λ n u. u }
  saved-Yielded pair (some sig) =
      Yields-then _ _
        (Yields-Keeps _ (save-Keeps (IsFresh sig) grows-IsFresh sig (has_pair s pair))
          (λ n f. since f.read))
        λ u. record { at = λ n f. f }

  pair_or_new-Yields :
      (pair : Option KeyPair) → Yields Nothing (λ _. Nothing) (λ _. Nothing) (pair_or_new s pair)
  pair_or_new-Yields none = any_call _ s.keypair
  pair_or_new-Yields (some pair) = record { at = λ n u. u }

  sign_new-Yielded :
      (contracts : List Text) (user : Text) (pair : Option KeyPair)
      (o : Option FhevmDecryptionSignature)
      → Yields
          (λ n. IsFreshIf o n.calls)
          (λ o n. IsFreshIf o n.calls)
          (λ _. Nothing)
          (sign_new s contracts user pair o)
  unfolding sign_new
  sign_new-Yielded contracts user pair (some sig) = record { at = λ n f. f }
  sign_new-Yielded contracts user pair none =
      Yields-then _ _ (pair_or_new-Yields pair)
        λ keys. Yields-then _ _ (create-Yielded _ keys) (saved-Yielded pair)

  load_or_sign-Yielded :
      (contracts : List Text) (pair : Option KeyPair) → Yielded (load_or_sign s contracts pair)
  unfolding load_or_sign
  load_or_sign-Yielded contracts pair = Yields-then _ _ (any_call _ s.signer) λ user.
      Yields-then _ _ (load-Yielded contracts user (public_key_of s pair))
        (sign_new-Yielded contracts user pair)

  abbrev Signed : Eff FheNode FhevmDecryptionSignature → Type 0
  Signed m = Yields Nothing (λ sig n. IsFresh sig n.calls) (λ _. Nothing) m

  keep-Yields :
      (contract : Text) (o : Option FhevmDecryptionSignature)
      → Yields
          (λ n. IsFreshIf o n.calls)
          (λ sig n. IsFresh sig n.calls)
          (λ _. Nothing)
          (keep_or_throw s contract o)
  keep-Yields contract none = record { at = λ n u. u }
  keep-Yields contract (some sig) = record { at = λ n f. f }

  fresh_signature-Signed : (contract : Text) → Signed (fresh_signature s contract)
  unfolding fresh_signature
  fresh_signature-Signed contract = record {
    at = λ n u.
        (Yields-then _ _ (load_or_sign-Yielded (contract ∷ []) n.keypair) (keep-Yields contract)).at
          n u;
  }

  cached_or_fresh-Signed :
      (contract : Text) (o : Option FhevmDecryptionSignature)
      → Signed (cached_or_fresh s contract o)
  cached_or_fresh-Signed contract none = fresh_signature-Signed contract
  cached_or_fresh-Signed contract (some sig) = Yields-then _ _ read-clock λ now. record {
    at = λ n r. elim (Bool-cases (is_valid now sig)) [
      | inl fits ↦ rw fits (record { now = now; read = r; valid = fits })
      | inr late ↦ rw late (
          (Yields-then _ _
              (Yields-Keeps {P = Nothing} (forget s contract) (record { at = λ n u. u }) (λ n u. u))
              λ u. fresh_signature-Signed contract).at
            n (since r))
    ];
  }

-- A signature that `ensureDecryptionSignature` returns, be it from the cache, from the file or newly
-- signed, was valid at a time that was read from the clock during the call; else it throws.
pub ensured-IsFresh :
    (s : FheServices) (contract : Text) (n : FheNode)
    → Post
        (λ sig m. IsFresh s n.calls sig m.calls)
        (λ message m. Since n.calls m.calls)
        (ensure_decryption_signature s contract n)
unfolding ensure_decryption_signature
ensured-IsFresh s contract n =
    (cached_or_fresh-Signed s n.calls contract (lookup contract n.signature_cache)).at n Since.same
