-- ===== src/Node/Fhe.antt =====
-- node/src/fhe/fheSignature.ts: the signatures that allow the node to decrypt, and their file. The
-- member eip712, which only signing reads, is left out.
pub mod Decryptor
use lunarys_bridge.Prelude.{
  ℕ, ◌+◌, ◌*◌, ◌/◌, ltb, Bool, true, false, ◌||◌, Option, none, some, List, [], ◌∷◌, ◌++◌, any, map,
  select, not, if◌then◌else◌,
}
use lunarys_bridge.Prelude.Text.{Text, lit, text_eq, is_empty}
use lunarys_bridge.Prelude.Effect.{
  Result, ok, thrown, Eff, pure, raise, lift, try_catch, type_error, ◌>>=◌, ◌>>◌,
}

pub record FhevmDecryptionSignature : Type 0 where
  pub public_key : Text
  pub private_key : Text
  pub signature : Text
  pub start_timestamp : ℕ
  pub duration_days : ℕ
  pub user_address : Text
  pub contract_addresses : List Text

pub record KeyPair : Type 0 where
  pub public_key : Text
  pub private_key : Text

-- What a text of the file holds: a signature that this program has written, or anything else.
pub data Stored : Type 0 where
  unreadable : Stored
  readable : FhevmDecryptionSignature → Stored

-- Of two entries of a key the first one counts.
abbrev pub Items : Type 0
Items = List (Text × Stored)

pub data FheCall : Type 0 where
  read_file clock get_signer generate_keypair : FheCall
  write_file : Items → FheCall
  -- public key, contracts, start and days
  sign : Text → List Text → ℕ → ℕ → FheCall
  -- contract and id
  read_request : Text → ℕ → FheCall
  -- handle, contract and signature
  user_decrypt : Text → Text → FhevmDecryptionSignature → FheCall
  create_instance : FheCall

-- The latest request first.
abbrev pub FheTrace : Type 0
FheTrace = List FheCall

-- ethers, Zama's library, the clock in milliseconds, and the file system.
pub record FheServices : Type 0 where
  pub is_address : Text → Bool
  pub get_address : Text → Result Text
  -- the hash of the typed data for a public key and contracts, at time 0 for 0 days
  pub empty_hash : Text → List Text → Result Text
  -- `sort` of texts
  pub sort : List Text → List Text
  pub signer : FheTrace → Result Text
  pub now : FheTrace → ℕ
  pub signed : FheTrace → Result Text
  pub keypair : FheTrace → Result KeyPair
  -- the contents of the file, or `none` where there is no file
  pub contents : FheTrace → Result (Option Items)
  pub written : FheTrace → Result (Unit {0})
  -- the handle of a request
  pub handle : FheTrace → Result ℕ
  -- the entry of the handle in the result, if there is one
  pub decrypted : FheTrace → Result (Option ℕ)
  pub created : FheTrace → Result (Unit {0})
  pub base58 : List ℕ → Text

-- `FHEDecryptor` with its storage.
pub record FheNode : Type 0 where
  pub has_instance : Bool
  pub keypair : Option KeyPair
  pub signature_cache : List (Text × FhevmDecryptionSignature)
  pub loaded : Bool
  pub items : Items
  pub calls : FheTrace

unfoldable pub call : {A : Type 0} → FheCall → (FheTrace → Result A) → Eff FheNode A
call c answer n = (answer n.calls, record n { calls = c ∷ n.calls })

unfoldable pub lookup : {A : Type 0} → Text → List (Text × A) → Option A
lookup k [] = none
lookup k ((j, a) ∷ d) = if text_eq j k then some a else lookup k d

unfoldable pub without : {A : Type 0} → Text → List (Text × A) → List (Text × A)
without k d = select (λ e. not (text_eq e.0 k)) d

unfoldable pub is_valid : ℕ → FhevmDecryptionSignature → Bool
is_valid now sig = ltb (now / 1000) (sig.start_timestamp + sig.duration_days * 24 * 60 * 60)

abbrev zero_address : Text
zero_address = lit "0x0000000000000000000000000000000000000000"

abbrev key_or_zero : Option Text → Text
key_or_zero none = zero_address
key_or_zero (some k) = k

abbrev map_result : {A B : Type 0} → (A → B) → Result A → Result B
map_result f (ok a) = ok (f a)
map_result f (thrown e) = thrown e

module _ (s : FheServices) where
  unfoldable pub set_items : Items → Eff FheNode (Unit {0})
  set_items d n = pure tt (record n { loaded = true; items = d })

  abbrev pub load : Option Items → Eff FheNode (Unit {0})
  load none = call (write_file []) s.written >> set_items []
  load (some d) = set_items d

  unfoldable pub ensure_loaded : Eff FheNode (Unit {0})
  ensure_loaded n =
      (if n.loaded then pure tt else (do found ← call read_file s.contents; load found)) n

  abbrev pub read_item : Text → Eff FheNode (Option Stored)
  read_item key n = (ok (lookup key n.items), n)

  unfoldable pub get_item : Text → Eff FheNode (Option Stored)
  get_item key = ensure_loaded >> read_item key

  unfoldable pub persist : Eff FheNode (Unit {0})
  persist n = call (write_file n.items) s.written n

  abbrev pub put_item : Text → Stored → Eff FheNode (Unit {0})
  put_item key v n = pure tt (record n { items = (key, v) ∷ without key n.items })

  unfoldable pub set_item : Text → Stored → Eff FheNode (Unit {0})
  set_item key v = ensure_loaded >> put_item key v >> persist

  abbrev drop_item : Text → Eff FheNode (Unit {0})
  drop_item key n =
      (if any (λ e. text_eq e.0 key) n.items
          then (λ m. persist (record m { items = without key m.items }))
          else pure tt)
        n

  unfoldable pub remove_item : Text → Eff FheNode (Unit {0})
  remove_item key = ensure_loaded >> drop_item key

  -- `new FhevmDecryptionSignatureStorageKey(…).key`
  unfoldable pub storage_key : List Text → Text → Option Text → Result Text
  storage_key contracts user public_key =
      if s.is_address user
      then map_result (λ hash. user ++ (lit ":" ++ hash))
          (s.empty_hash (key_or_zero public_key) (s.sort contracts))
      else thrown (record { kind = type_error; message = lit "Invalid address " ++ user })

  unfoldable pub save_to_storage : FhevmDecryptionSignature → Bool → Eff FheNode (Unit {0})
  save_to_storage sig with_public_key =
      try_catch
        (do
          key ← lift (
              storage_key sig.contract_addresses sig.user_address
                (if with_public_key then some sig.public_key else none))
          set_item key (readable sig))
        (λ e. pure tt)

  -- The signature of a text, unless it has expired.
  unfoldable pub unexpired : Option Stored → Eff FheNode (Option FhevmDecryptionSignature)
  unexpired none = pure none
  unexpired (some unreadable) = pure none
  unexpired (some (readable sig)) = do
    now ← call clock (λ t. ok (s.now t))
    if is_valid now sig then pure (some sig) else pure none

  unfoldable pub load_from_storage :
      List Text → Text → Option Text → Eff FheNode (Option FhevmDecryptionSignature)
  load_from_storage contracts user public_key =
      try_catch
        (do key ← lift (storage_key contracts user public_key); raw ← get_item key; unexpired raw)
        (λ e. pure none)

  unfoldable pub create : List Text → KeyPair → Eff FheNode (Option FhevmDecryptionSignature)
  create contracts pair =
      try_catch
        (do
          user ← call get_signer s.signer
          now ← call clock (λ t. ok (s.now t))
          signature ← call (sign pair.public_key contracts (now / 1000) 365) s.signed
          pure (
              some (record {
                public_key = pair.public_key;
                private_key = pair.private_key;
                signature = signature;
                start_timestamp = now / 1000;
                duration_days = 365;
                user_address = user;
                contract_addresses = contracts;
              })))
        (λ e. pure none)

  abbrev pub public_key_of : Option KeyPair → Option Text
  public_key_of none = none
  public_key_of (some pair) = some pair.public_key

  abbrev pub has_pair : Option KeyPair → Bool
  has_pair none = false
  has_pair (some pair) = not (is_empty pair.public_key)

  abbrev pub pair_or_new : Option KeyPair → Eff FheNode KeyPair
  pair_or_new none = call generate_keypair s.keypair
  pair_or_new (some pair) = pure pair

  abbrev pub saved :
      Option KeyPair
      → Option FhevmDecryptionSignature
      → Eff FheNode (Option FhevmDecryptionSignature)
  saved pair none = pure none
  saved pair (some sig) = save_to_storage sig (has_pair pair) >> pure (some sig)

  -- Where nothing was loaded; the key's constructor has sorted the contracts in place.
  unfoldable pub sign_new :
      List Text
      → Text
      → Option KeyPair
      → Option FhevmDecryptionSignature
      → Eff FheNode (Option FhevmDecryptionSignature)
  sign_new contracts user pair (some sig) = pure (some sig)
  sign_new contracts user pair none = do
    keys ← pair_or_new pair
    sig ← create (if s.is_address user then s.sort contracts else contracts) keys
    saved pair sig

  -- Of contracts that `getAddress` has passed.
  unfoldable pub load_or_sign :
      List Text → Option KeyPair → Eff FheNode (Option FhevmDecryptionSignature)
  load_or_sign contracts pair = do
    user ← call get_signer s.signer
    cached ← load_from_storage contracts user (public_key_of pair)
    sign_new contracts user pair cached
