-- ===== src/Frontend/SolanaInitiate.antt =====
-- From Solana to the EVM: `initiate` of the hook `useSolanaInitiateReown` in
-- frontend/app/bridge/page.tsx. Logging, and the logs that errors carry, are not modelled.
pub mod Sent
pub mod Phases
use lunarys_bridge.Prelude.{
  ℕ, ◌+◌, ◌*◌, ◌%◌, ◌^◌, Bool, true, false, not, ◌&&◌, Option, none, some, List, [], ◌∷◌, ◌++◌,
  length, replicate, ◌==◌, if◌then◌else◌,
}
use lunarys_bridge.Prelude.Int.{ℤ}
use lunarys_bridge.Prelude.Text.{Text, lit, is_empty, to_lower}
use lunarys_bridge.Prelude.Numeral.{trim}
use lunarys_bridge.Prelude.Hex.{bytes_of_hex}
use lunarys_bridge.Prelude.Effect.{
  Result, ok, thrown, Failure, plain, Eff, pure, raise, rethrow, lift, try_catch, ◌>>=◌, ◌>>◌,
}
use lunarys_bridge.Frontend.Units.{every, without_0x}
use lunarys_bridge.Frontend.Words.{u64_le, is_lower_hex}
use lunarys_bridge.Frontend.Amount.{to_u64_from_human}

-- The tags in place of the four ciphertexts.
pub record Cts : Type 0 where
  pub ct0 : List ℕ
  pub ct1 : List ℕ
  pub ct2 : List ℕ
  pub ct3 : List ℕ

pub record Accounts : Type 0 where
  pub payer : Text
  pub user_token : Text
  pub mint : Text
  pub escrow_token : Text
  pub config : Text
  pub request_pda : Text
  pub sign_pda_account : Text
  pub mxe_account : Text
  pub mempool_account : Text
  pub executing_pool : Text
  pub computation_account : Text
  pub comp_def_account : Text
  pub cluster_account : Text
  pub pool_account : Text
  pub clock_account : Text
  pub arcium_program : Text

pub data PreInstruction : Type 0 where
  compute_units : ℕ → PreInstruction
  -- payer, account, owner, mint
  create_account : Text → Text → Text → Text → PreInstruction

-- `initiateBridge`, with its accounts and what runs before it.
pub record Instruction : Type 0 where
  pub offset : ℕ
  pub request_id : ℕ
  pub client_pub : List ℕ
  pub nonce : List ℕ
  pub cts : Cts
  pub amount : ℤ
  pub accounts : Accounts
  pub pre : List PreInstruction

pub data Call : Type 0 where
  date_now : Call
  random_words random_bytes : ℕ → Call
  get_account_info : Text → Call
  simulate rpc : Instruction → Call

-- The latest request first.
abbrev pub Trace : Type 0
Trace = List Call

-- What the SDK gives as an offset: a number, or its bytes.
pub data SdkOffset : Type 0 where
  number : ℕ → SdkOffset
  bytes : List ℕ → SdkOffset

-- The libraries (web3.js, spl-token, Arcium's client), the browser and the environment.
pub record Services : Type 0 where
  pub public_key : Text → Result Text
  pub program_id : Result Text
  -- `findProgramAddressSync` and the bytes of a key
  pub pda : List (List ℕ) → Text → Text
  pub key_bytes : Text → List ℕ
  -- `getAssociatedTokenAddressSync(mint, owner, allowOwnerOffCurve)`
  pub associated : Text → Text → Bool → Result Text
  pub sha256 : List ℕ → List ℕ
  pub arcium_program : Text
  pub mxe : Text → Text
  pub mempool : Text → Text
  pub executing_pool : Text → Text
  pub plan_offset : SdkOffset
  pub comp_def : Text → ℕ → Text
  pub computation : Text → ℕ → Text
  pub spl_mint_env : Text
  pub sign_seed : Text
  pub cluster : Text
  pub fee_pool : Text
  pub clock : Text
  pub now : Trace → ℕ
  -- two random words, the first one the higher
  pub random : Trace → ℕ × ℕ
  pub filled : Trace → List ℕ
  pub account_exists : Trace → Result Bool
  pub simulated : Trace → Result (Unit {0})
  pub signature : Trace → Result Text

pub data Phase : Type 0 where
  idle locking encrypting burning bridging : Phase

pub record Page : Type 0 where
  pub phase : Phase
  pub loading : Bool
  pub error : Option Text
  pub last_sig : Option Text
  pub last_request_pda : Option Text
  pub calls : Trace

unfoldable pub call : {A : Type 0} → Call → (Trace → Result A) → Eff Page A
call c answer p = (answer p.calls, record p { calls = c ∷ p.calls })

pub record Args : Type 0 where
  pub eth_recipient : Text
  pub human_amount : Text
  pub decimals : ℕ
  pub spl_mint : Text
  pub skip_sim : Bool

pub record Initiated : Type 0 where
  pub sig : Text
  pub request_pda : Text

-- `hexToBytes32FromEth`
unfoldable pub hex_to_bytes32_from_eth : Text → Result (List ℕ)
hex_to_bytes32_from_eth addr =
    let h = without_0x (to_lower (trim addr)) in
    if length h == 40 && every is_lower_hex h
    then ok (replicate 12 0 ++ bytes_of_hex 20 h)
    else thrown (record { kind = plain; message = lit "Dirección EVM inválida (0x + 40 hex)" })

-- `getUint32(0, true)` of the bytes.
unfoldable pub offset_u32 : SdkOffset → Result ℕ
offset_u32 (number n) = ok n
offset_u32 (bytes (a ∷ b ∷ c ∷ d ∷ rest)) = ok (a + 256 * b + 65536 * c + 16777216 * d)
offset_u32 (bytes few) =
    thrown (record { kind = plain; message = lit "Offset is outside the bounds of the DataView" })

module _ (s : Services) where
  -- `makeDummyCtsFromEth`
  unfoldable pub dummy_cts_of : List ℕ → Cts
  dummy_cts_of base = record {
    ct0 = s.sha256 (lit "ct0:" ++ base);
    ct1 = s.sha256 (lit "ct1:" ++ base);
    ct2 = s.sha256 (lit "ct2:" ++ base);
    ct3 = s.sha256 (lit "ct3:" ++ base);
  }

  unfoldable pub rand_u64 : Eff Page ℕ
  rand_u64 = do
    words ← call (random_words 2) (λ t. ok (s.random t))
    pure (words.0 * 2 ^ 32 + words.1)

  -- `ensureAtaIx`: the associated account, and the instruction that creates it where it is missing.
  unfoldable pub ensure_ata_ix : Text → Text → Bool → Text → Eff Page (Text × List PreInstruction)
  ensure_ata_ix owner mint is_pda_owner payer = do
    ata ← lift (s.associated mint owner is_pda_owner)
    there ← call (get_account_info ata) s.account_exists
    pure (ata, if there then [] else create_account payer ata owner mint ∷ [])

  unfoldable pub request_seeds : Text → ℕ → List (List ℕ)
  request_seeds payer id = lit "request" ∷ s.key_bytes payer ∷ u64_le id ∷ []

  abbrev pub text_or : Text → Text → Text
  text_or a b = if is_empty a then b else a

  unfoldable pub set_phase : Phase → Eff Page (Unit {0})
  set_phase phase p = pure tt (record p { phase = phase })

  unfoldable pub simulate_first : Bool → Instruction → Eff Page (Unit {0})
  simulate_first skip ix =
      if skip
      then pure tt
      else try_catch (call (simulate ix) s.simulated) (λ e. raise plain e.message)

  unfoldable pub submit : Bool → Instruction → Eff Page Initiated
  submit skip ix = do
    set_phase encrypting
    simulate_first skip ix
    sig ← call (rpc ix) s.signature
    λ p.
        pure (record { sig = sig; request_pda = ix.accounts.request_pda })
          (record p {
            phase = bridging;
            last_sig = some sig;
            last_request_pda = some ix.accounts.request_pda;
          })

  module _ (address : Text) (args : Args) where
    unfoldable pub instruction_of :
        Text
        → Text
        → ℕ
        → Text
        → Text × List PreInstruction
        → Text × List PreInstruction
        → ℕ
        → ℕ
        → List ℕ
        → List ℕ
        → Cts
        → ℤ
        → Instruction
    instruction_of payer program id mint user escrow plan offset client_pub nonce cts amount =
        let sign_pda = s.pda (s.sign_seed ∷ []) program in
        record {
          offset = offset;
          request_id = id;
          client_pub = client_pub;
          nonce = nonce;
          cts = cts;
          amount = amount;
          accounts = record {
            payer = payer;
            user_token = user.0;
            mint = mint;
            escrow_token = escrow.0;
            config = s.pda (lit "config" ∷ []) program;
            request_pda = s.pda (request_seeds payer id) program;
            sign_pda_account = sign_pda;
            mxe_account = s.mxe program;
            mempool_account = s.mempool program;
            executing_pool = s.executing_pool program;
            computation_account = s.computation program offset;
            comp_def_account = s.comp_def program plan;
            cluster_account = s.cluster;
            pool_account = s.fee_pool;
            clock_account = s.clock;
            arcium_program = s.arcium_program;
          };
          pre = compute_units 300000 ∷ user.1 ++ escrow.1;
        }

    -- The body of the `try`.
    unfoldable pub attempt : Eff Page Initiated
    attempt = do
      payer ← lift (s.public_key address)
      program ← lift s.program_id
      millis ← call date_now (λ t. ok (s.now t))
      mint ← lift (s.public_key (text_or args.spl_mint s.spl_mint_env))
      user ← ensure_ata_ix payer mint false payer
      escrow ← ensure_ata_ix (s.pda (s.sign_seed ∷ []) program) mint true payer
      plan ← lift (offset_u32 s.plan_offset)
      offset ← rand_u64
      client_pub ← call (random_bytes 32) (λ t. ok (s.filled t))
      nonce ← call (random_bytes 16) (λ t. ok (s.filled t))
      base ← lift (hex_to_bytes32_from_eth args.eth_recipient)
      amount ← lift (to_u64_from_human args.human_amount args.decimals)
      submit args.skip_sim (
          instruction_of payer program (millis % 2 ^ 32) mint user escrow plan offset client_pub
            nonce (dummy_cts_of base) amount)

    unfoldable pub set_error : Failure → Eff Page Initiated
    set_error e p = rethrow e (record p { error = some e.message })

  -- `finally`
  unfoldable pub stop_loading : Result Initiated × Page → Result Initiated × Page
  stop_loading (r, p) = (r, record p { loading = false })

  unfoldable pub cleared : Page → Page
  cleared p = record p { error = none; last_sig = none; last_request_pda = none }

  -- `isConnected`, and the wallet's address, which is missing or empty where there is no wallet.
  unfoldable pub initiate : Bool → Option Text → Args → Eff Page Initiated
  initiate true (some address) args p =
      if is_empty address
      then raise plain (lit "Solana wallet no conectada") (cleared p)
      else stop_loading (
          try_catch (attempt address args) (set_error address args)
            (record (cleared p) { loading = true; phase = locking }))
  initiate connected address args p = raise plain (lit "Solana wallet no conectada") (cleared p)
