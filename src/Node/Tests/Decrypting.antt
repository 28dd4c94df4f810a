-- ===== src/Node/Tests/Decrypting.antt =====
-- The node's signature for decryption, loaded from the file or signed, and a decrypted destination.
use lunarys_bridge.Prelude.{◌≡◌, refl, true, false, none, some, [], ◌∷◌, length, take}
use lunarys_bridge.Prelude.Text.{lit, pad_start, text_eq}
use lunarys_bridge.Prelude.Numeral.{digits, emit, digit_char}
use lunarys_bridge.Prelude.Hex.{bytes_of_hex}
use lunarys_bridge.Prelude.Effect.{ok, ◌>>=◌, try_catch}
use lunarys_bridge.Prelude.Effect.Ends.{Post}
use lunarys_bridge.Node.Fhe.{
  FhevmDecryptionSignature, readable, FheServices, FheNode, call, lookup, without, is_valid,
  set_items, ensure_loaded, get_item, persist, set_item, storage_key, save_to_storage, unexpired,
  load_from_storage, create, sign_new, load_or_sign,
}
use lunarys_bridge.Node.Fhe.Decryptor.{
  service_decrypt, get_public_key, uint256_to_solana_address, decrypt_handle,
  decrypt_solana_address, fresh_signature, ensure_decryption_signature, handle_hex,
  big_int_to_bytes32,
}
use lunarys_bridge.Node.Fhe.Decryptor.Fresh.{Since, IsFresh, ensured-IsFresh}

abbrev stored : FhevmDecryptionSignature
stored = record {
  public_key = lit "pub";
  private_key = lit "priv";
  signature = lit "old";
  start_timestamp = 10;
  duration_days = 1;
  user_address = lit "0xUser";
  contract_addresses = lit "0xRelayer" ∷ [];
}

abbrev fhe_services : FheServices
fhe_services = record {
  is_address = λ a. true;
  get_address = λ a. ok a;
  empty_hash = λ key contracts. ok (lit "hash");
  sort = λ l. l;
  signer = λ t. ok (lit "0xUser");
  now = λ t. 200000000;
  signed = λ t. ok (lit "new");
  keypair = λ t. ok (record { public_key = lit "pub"; private_key = lit "priv" });
  contents = λ t. ok (some ((lit "0xUser:hash", readable stored) ∷ []));
  written = λ t. ok tt;
  handle = λ t. ok 255;
  decrypted = λ t. ok (some 7);
  created = λ t. ok tt;
  base58 = λ bytes. bytes;
}

abbrev fhe_node : FheNode
fhe_node = record {
  has_instance = true;
  keypair = some (record { public_key = lit "pub"; private_key = lit "priv" });
  signature_cache = [];
  loaded = false;
  items = [];
  calls = [];
}

-- The stored signature has expired, so that a new one is signed and kept.
ensure_test :
    ((ensure_decryption_signature fhe_services (lit "0xRelayer") fhe_node).0
      ≡ ok (record stored { signature = lit "new"; start_timestamp = 200000; duration_days = 365 }))
    × (take 4 (handle_hex 255) ≡ lit "0x00")
    × (length (handle_hex 255) ≡ 66)
    × (length (big_int_to_bytes32 7) ≡ 32)
unfolding ensure_decryption_signature fresh_signature lookup load_or_sign sign_new create
    load_from_storage unexpired save_to_storage storage_key set_item persist get_item ensure_loaded
    set_items is_valid without call handle_hex big_int_to_bytes32 pad_start digits emit digit_char
    lit text_eq ◌>>=◌ try_catch bytes_of_hex
ensure_test = (refl, refl, refl, refl)

ensured-IsFresh_example :
    Post
      (λ sig m. IsFresh fhe_services fhe_node.calls sig m.calls)
      (λ message m. Since fhe_node.calls m.calls)
      (ensure_decryption_signature fhe_services (lit "0xRelayer") fhe_node)
ensured-IsFresh_example = ensured-IsFresh fhe_services (lit "0xRelayer") fhe_node

-- A node that has not started throws; one that has decrypts under the configured address.
service_decrypt_test :
    ((service_decrypt fhe_services true (lit "0xRelayer") 3 none fhe_node).0
      ≡ ok (uint256_to_solana_address fhe_services 7))
    × (get_public_key fhe_node ≡ some (lit "pub"))
unfolding service_decrypt decrypt_solana_address decrypt_handle get_public_key
    ensure_decryption_signature fresh_signature lookup load_or_sign sign_new create
    load_from_storage unexpired save_to_storage storage_key set_item persist get_item ensure_loaded
    set_items is_valid without call handle_hex big_int_to_bytes32 pad_start digits emit digit_char
    lit text_eq ◌>>=◌ try_catch bytes_of_hex
service_decrypt_test = (refl, refl)
