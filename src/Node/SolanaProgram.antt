-- ===== src/Node/SolanaProgram.antt =====
-- node/src/bridge-sol-to-evm/services/solana-program.service.ts: the claim of a request on Solana.
pub mod Claimed
use lunarys_bridge.Prelude.{
  ℕ, ◌+◌, ◌*◌, ◌-◌, ◌%◌, ◌^◌, ltb, ◌==◌, Bool, true, false, Option, List, [], ◌∷◌, ◌++◌, length,
  take, if◌then◌else◌,
}
use lunarys_bridge.Prelude.Int.{ℤ, pos, negsuc}
use lunarys_bridge.Prelude.Text.{Text, lit, is_empty}
use lunarys_bridge.Prelude.Numeral.{trim}
use lunarys_bridge.Prelude.Bytes.{le_bytes}
use lunarys_bridge.Prelude.Effect.{
  Result, ok, thrown, Eff, pure, raise, lift, plain, range_error, ◌>>=◌,
}

pub record AccountMeta : Type 0 where
  pub pubkey : Text
  pub is_signer : Bool
  pub is_writable : Bool

pub record TransactionInstruction : Type 0 where
  pub program_id : Text
  pub keys : List AccountMeta
  pub ix_data : List ℕ

pub record Transaction : Type 0 where
  pub compute_units : ℕ
  pub instruction : TransactionInstruction

-- What `getCompDefAccOffset` may give.
pub data ProgramOffset : Type 0 where
  number : ℤ → ProgramOffset
  bytes : List ℕ → ProgramOffset

-- web3.js, Arcium's helpers and `createHash('sha256')`.
pub record ProgramServices : Type 0 where
  pub key_bytes : Text → List ℕ
  -- `findProgramAddressSync(seeds, program)`
  pub find_program_address : List (List ℕ) → Text → Text
  pub mxe : Text → Text
  pub mempool : Text → Text
  pub executing_pool : Text → Text
  pub computation : Text → ℤ → Text
  pub comp_def_offset : Text → ProgramOffset
  pub comp_def : Text → ℕ → Text
  pub sha256 : List ℕ → List ℕ
  pub system_program : Text
  -- `sendAndConfirmTransaction`, after the transactions that were sent before
  pub confirmed : List Transaction → Result Text

-- The members that the constructor sets.
pub record SolanaProgramService : Type 0 where
  pub services : ProgramServices
  pub wallet : Text
  pub bridge_program_id : Text
  pub arcium_program_id : Text
  pub arcium_cluster : Text
  pub arcium_fee_pool : Text
  pub arcium_clock : Text
  pub sign_seed : Text

-- `(cfg.get('solanaSignSeed') || 'SignerAccount').trim()`
unfoldable pub sign_seed_of : Text → Text
sign_seed_of seed = trim (if is_empty seed then lit "SignerAccount" else seed)

-- `writeBigUInt64LE` throws on what does not fit into 64 bits; the end of its message is left out.
unfoldable pub u64_le : ℤ → Result (List ℕ)
u64_le (pos n) =
    if ltb n (2 ^ 64)
    then ok (le_bytes 8 n)
    else thrown (record { kind = range_error; message = lit "The value is out of range." })
u64_le (negsuc n) =
    thrown (record { kind = range_error; message = lit "The value is out of range." })

-- `off >>> 0`
unfoldable pub to_uint32 : ℤ → ℕ
to_uint32 (pos n) = n % 2 ^ 32
to_uint32 (negsuc n) = 2 ^ 32 - 1 - n % 2 ^ 32

unfoldable pub to_u32_from_sdk_offset : ProgramOffset → Result ℕ
unfolding to_uint32
to_u32_from_sdk_offset (number z) = ok (to_uint32 z)
to_u32_from_sdk_offset (bytes (a ∷ b ∷ c ∷ d ∷ rest)) = ok (a + 256 * b + 65536 * c + 16777216 * d)
to_u32_from_sdk_offset (bytes few) = thrown (record {
  kind = plain;
  message = lit "Invalid comp-def offset: expected number or Uint8Array with >=4 bytes";
})

abbrev pub read_only : Text → AccountMeta
read_only key = record { pubkey = key; is_signer = false; is_writable = false }

abbrev pub writable : Text → AccountMeta
writable key = record { pubkey = key; is_signer = false; is_writable = true }

abbrev pub signer : Text → AccountMeta
signer key = record { pubkey = key; is_signer = true; is_writable = true }

module _ (s : SolanaProgramService) where
  unfoldable pub anchor_ix_disc : Text → List ℕ
  anchor_ix_disc name = take 8 (s.services.sha256 (lit "global:" ++ name))

  abbrev pub address_of : List (List ℕ) → Text
  address_of seeds = s.services.find_program_address seeds s.bridge_program_id

  -- The accounts, given the bytes of the request's id and the offset of the computation's definition.
  unfoldable pub claim_keys : List ℕ → Text → ℤ → ℕ → List AccountMeta
  claim_keys id_bytes owner offset reseal =
      let program = s.bridge_program_id in
      signer s.wallet
      ∷ read_only (address_of (lit "config" ∷ []))
      ∷ writable (address_of (lit "request" ∷ s.services.key_bytes owner ∷ id_bytes ∷ []))
      ∷ read_only owner
      ∷ writable (address_of (lit "bond" ∷ id_bytes ∷ []))
      ∷ writable (address_of (s.sign_seed ∷ []))
      ∷ read_only (s.services.mxe program)
      ∷ writable (s.services.mempool program)
      ∷ writable (s.services.executing_pool program)
      ∷ writable (s.services.computation program offset)
      ∷ read_only (s.services.comp_def program reseal)
      ∷ writable s.arcium_cluster
      ∷ writable s.arcium_fee_pool
      ∷ read_only s.arcium_clock
      ∷ read_only s.arcium_program_id
      ∷ read_only s.services.system_program
      ∷ []

  unfoldable pub claim_data : List ℕ → List ℕ → List ℕ → List ℕ
  claim_data offset_bytes id_bytes solver_key =
      anchor_ix_disc (lit "claim_bridge") ++ (offset_bytes ++ (id_bytes ++ solver_key))

  unfoldable pub send_and_confirm : Transaction → Eff (List Transaction) Text
  send_and_confirm tx sent = (s.services.confirmed sent, tx ∷ sent)

  unfoldable pub claim_request : ℤ → Text → ℤ → List ℕ → Eff (List Transaction) Text
  claim_request id owner offset solver_key =
      if length solver_key == 32
      then (do
        id_bytes ← lift (u64_le id)
        reseal ←
            lift (to_u32_from_sdk_offset (s.services.comp_def_offset (lit "reseal_destination")))
        offset_bytes ← lift (u64_le offset)
        send_and_confirm (record {
          compute_units = 400000;
          instruction = record {
            program_id = s.bridge_program_id;
            keys = claim_keys id_bytes owner offset reseal;
            ix_data = claim_data offset_bytes id_bytes solver_key;
          };
        }))
      else raise plain (lit "solver_x25519 must be 32 bytes")
