-- ===== src/Node/Fhe/Decryptor.antt =====
-- node/src/fhe/fheDescrypt.ts: the decryption of a destination on Solana. Its lists of contracts have
-- one entry, so that neither sorting nor joining them is left.
pub mod Fresh
use lunarys_bridge.Prelude.{
  ℕ, ◌==◌, Bool, true, false, Option, none, some, List, [], ◌∷◌, ◌++◌, if◌then◌else◌,
}
use lunarys_bridge.Prelude.Text.{Text, lit, pad_start}
use lunarys_bridge.Prelude.Numeral.{digits}
use lunarys_bridge.Prelude.Hex.{bytes_of_hex}
use lunarys_bridge.Prelude.Effect.{
  Result, ok, Eff, pure, raise, lift, try_catch, plain, ◌>>=◌, ◌>>◌,
}
use lunarys_bridge.Node.Fhe.{
  FhevmDecryptionSignature, KeyPair, FheServices, FheNode, clock, generate_keypair, read_request,
  user_decrypt, create_instance, call, lookup, without, is_valid, load_or_sign,
}

unfoldable pub handle_hex : ℕ → Text
handle_hex handle = b'0' ∷ b'x' ∷ pad_start 64 b'0' (digits 16 handle)

unfoldable pub big_int_to_bytes32 : ℕ → List ℕ
big_int_to_bytes32 v = bytes_of_hex 32 (pad_start 64 b'0' (digits 16 v))

module _ (s : FheServices) where
  abbrev start_with : KeyPair → Eff FheNode (Unit {0})
  start_with pair n = pure tt (record n { keypair = some pair; signature_cache = [] })

  unfoldable pub set_instance : Eff FheNode (Unit {0})
  set_instance n = pure tt (record n { has_instance = true })

  -- The creation may also fail by the timeout of 30 seconds.
  unfoldable pub initialize : Eff FheNode (Unit {0})
  initialize =
      try_catch
        (do
          call create_instance s.created
          set_instance
          pair ← call generate_keypair s.keypair
          start_with pair)
        (λ e. pure tt)

  abbrev pub forget : Text → Eff FheNode (Unit {0})
  forget key n = pure tt (record n { signature_cache = without key n.signature_cache })

  abbrev pub keep : Text → FhevmDecryptionSignature → Eff FheNode FhevmDecryptionSignature
  keep key sig n = pure sig (record n {
    keypair = some (record { public_key = sig.public_key; private_key = sig.private_key });
    signature_cache = (key, sig) ∷ n.signature_cache;
  })

  abbrev pub keep_or_throw :
      Text → Option FhevmDecryptionSignature → Eff FheNode FhevmDecryptionSignature
  keep_or_throw key none = raise plain (lit "Unable to obtain FHE decryption signature")
  keep_or_throw key (some sig) = keep key sig

  unfoldable pub fresh_signature : Text → Eff FheNode FhevmDecryptionSignature
  fresh_signature contract n =
      (do sig ← load_or_sign s (contract ∷ []) n.keypair; keep_or_throw contract sig) n

  abbrev pub cached_or_fresh :
      Text → Option FhevmDecryptionSignature → Eff FheNode FhevmDecryptionSignature
  cached_or_fresh contract none = fresh_signature contract
  cached_or_fresh contract (some sig) = do
    now ← call clock (λ t. ok (s.now t))
    if is_valid now sig then pure sig else forget contract >> fresh_signature contract

  -- Of an address that `getAddress` has passed, which is the key of the cache.
  unfoldable pub ensure_decryption_signature : Text → Eff FheNode FhevmDecryptionSignature
  ensure_decryption_signature contract n =
      cached_or_fresh contract (lookup contract n.signature_cache) n

  unfoldable pub uint256_to_solana_address : ℕ → Text
  uint256_to_solana_address v = s.base58 (big_int_to_bytes32 v)

  -- An entry that is missing, or zero, is falsy.
  abbrev address_of : Option ℕ → Eff FheNode Text
  address_of none = raise plain (lit "Decryption failed: No result for handle")
  address_of (some v) =
      if v == 0
      then raise plain (lit "Decryption failed: No result for handle")
      else pure (uint256_to_solana_address v)

  unfoldable pub decrypt_handle : Text → ℕ → Eff FheNode Text
  decrypt_handle contract handle = do
    sig ← ensure_decryption_signature contract
    value ← call (user_decrypt (handle_hex handle) contract sig) s.decrypted
    address_of value

  unfoldable pub decrypt_solana_address : ℕ → Text → Eff FheNode Text
  decrypt_solana_address id new_relayer n =
      (if n.has_instance
          then (do
            handle ← call (read_request new_relayer id) s.handle
            contract ← lift (s.get_address new_relayer)
            decrypt_handle contract handle)
          else raise plain (lit "FHE instance not initialized. Call initialize() first."))
        n

  -- bridge-evm-to-sol/services/fhe-decryptor.service.ts: whether its decryptor is there, and the
  -- address that its configuration names.
  unfoldable pub service_decrypt : Bool → Text → ℕ → Option Text → Eff FheNode Text
  service_decrypt false configured id given = raise plain (lit "FHE decryptor not initialized")
  service_decrypt true configured id none = decrypt_solana_address id configured
  service_decrypt true configured id (some address) = decrypt_solana_address id address

unfoldable pub get_public_key : FheNode → Option Text
get_public_key n = elim n.keypair [ none ↦ none | some pair ↦ some pair.public_key ]
