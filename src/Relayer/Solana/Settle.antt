-- ===== src/Relayer/Solana/Settle.antt =====
-- `hex32ToBytes`, `toBNu128`, `getAnchorCtx` and `verifyAndSettleOnSolana` of
-- relayer/src/sol/sol.service.ts.
pub mod Words
use lunarys_bridge.Prelude.{
  ℕ, zero, ◌*◌, ◌-◌, ◌^◌, ◌≡◌, Bool, true, false, not, ◌&&◌, ◌||◌, Option, none, some, List, [],
  ◌∷◌, ◌++◌, length, drop, replicate, ◌==◌, if◌then◌else◌,
}
use lunarys_bridge.Prelude.Int.{ℤ, pos, negsuc, ltb_ℤ}
use lunarys_bridge.Prelude.Text.{Text, lit, starts_with}
use lunarys_bridge.Prelude.Numeral.{big_int, digits}
use lunarys_bridge.Prelude.Hex.{bytes_of_hex}
use lunarys_bridge.Prelude.Effect.{
  Result, ok, thrown, Failure, Eff, pure, raise, lift, try_catch, plain, bad_request, syntax,
  type_error, ◌>>=◌, ◌>>◌,
}
use lunarys_bridge.Relayer.Chain.{
  Chain, Trace, SettleAccounts, ask, load_keypair, anchor_settle, confirm_transaction,
}

-- What the process's environment and the program's IDL give.
pub record AnchorVars : Type 0 where
  pub program_id : Option Text
  pub has_camel : Bool
  pub has_snake : Bool
  pub token_program_id : Text
  pub system_program_id : Text

pub record SettleInput : Type 0 where
  pub payer : Text
  pub escrow_owner : Text
  pub escrow_token : Text
  pub mint : Text
  pub mxe_account : Text
  pub fee_pool : Text
  pub clock : Text
  pub token_program : Option Text
  pub system_program : Option Text

pub record VerifyAndSettleOnSolanaParams : Type 0 where
  pub request_id : Text
  pub evm_transfer_tx_hash : Option Text
  pub evidence_hash : Option Text
  pub accounts : SettleInput

abbrev pub without_0x : Text → Text
without_0x hex = if starts_with (b'0' ∷ b'x' ∷ []) hex then drop 2 hex else hex

-- The argument is `undefined` where the receipt had no hash, and then its member call throws.
unfoldable pub hex32_to_bytes : Option Text → Result (List ℕ)
hex32_to_bytes none = thrown (record {
  kind = type_error;
  message = lit "Cannot read properties of undefined (reading 'startsWith')";
})
hex32_to_bytes (some hex) =
    if length (without_0x hex) == 64
    then ok (bytes_of_hex 32 (without_0x hex))
    else thrown (record {
      kind = bad_request;
      message = lit "expected 32-byte hex, got len=" ++ digits 10 (length (without_0x hex));
    })

abbrev pub u128_max : ℤ
u128_max = pos (2 ^ 128 - 1)

unfoldable pub in_u128 : Option ℤ → Result ℤ
in_u128 none = thrown (record { kind = syntax; message = lit "Cannot convert to a BigInt" })
in_u128 (some b) =
    if ltb_ℤ b (pos 0) || ltb_ℤ u128_max b
    then thrown (record { kind = bad_request; message = lit "requestId out of u128 range" })
    else ok b

unfoldable pub to_bn_u128 : Text → Result ℤ
to_bn_u128 s = in_u128 (big_int s)

-- The key file is read and parsed outside; a missing method is an error.
unfoldable pub anchor_ctx_of : Chain → AnchorVars → Option Text → Eff Trace (Unit {0})
anchor_ctx_of chain vars none = raise plain (lit "SOLANA_PROGRAM_ID missing")
anchor_ctx_of chain vars (some []) = raise plain (lit "SOLANA_PROGRAM_ID missing")
anchor_ctx_of chain vars (some (c ∷ id)) = do
  ask load_keypair chain.keypair
  lift (chain.public_key (c ∷ id))
  if not vars.has_camel && not vars.has_snake
      then raise plain (lit "verify_and_settle not found in IDL/program.methods")
      else pure tt

unfoldable pub get_anchor_ctx : Chain → AnchorVars → Eff Trace (Unit {0})
get_anchor_ctx chain vars = anchor_ctx_of chain vars vars.program_id

abbrev or_default : Option Text → Text → Text
or_default none d = d
or_default (some s) d = s

unfoldable pub settle_accounts : Chain → AnchorVars → SettleInput → Eff Trace SettleAccounts
settle_accounts chain vars a = do
  payer ← lift (chain.public_key a.payer)
  escrow_owner ← lift (chain.public_key a.escrow_owner)
  escrow_token ← lift (chain.public_key a.escrow_token)
  mint ← lift (chain.public_key a.mint)
  mxe_account ← lift (chain.public_key a.mxe_account)
  fee_pool ← lift (chain.public_key a.fee_pool)
  clock ← lift (chain.public_key a.clock)
  token_program ← lift (chain.public_key (or_default a.token_program vars.token_program_id))
  system_program ← lift (chain.public_key (or_default a.system_program vars.system_program_id))
  pure (record {
    payer = payer;
    escrow_owner = escrow_owner;
    escrow_token = escrow_token;
    mint = mint;
    mxe_account = mxe_account;
    fee_pool = fee_pool;
    clock = clock;
    token_program = token_program;
    system_program = system_program;
  })

abbrev pub confirmed : Text → Option Text → Eff Trace Text
confirmed sig none = pure sig
confirmed sig (some err) = raise bad_request (lit "verify_and_settle failed: " ++ err)

-- The body of the `try`: send, wait for the confirmation, look at its error.
unfoldable pub submit_settle : Chain → ℤ → List ℕ → List ℕ → SettleAccounts → Eff Trace Text
submit_settle chain id evm_tx_hash evidence accounts = do
  sig ← ask (anchor_settle id evm_tx_hash evidence accounts) chain.signature
  err ← ask (confirm_transaction sig) chain.confirmation
  confirmed sig err

unfoldable pub evidence_bytes : Option Text → Result (List ℕ)
evidence_bytes none = ok (replicate 32 0)
evidence_bytes (some []) = ok (replicate 32 0)
evidence_bytes (some (c ∷ s)) = hex32_to_bytes (some (c ∷ s))

unfoldable pub verify_and_settle_on_solana :
    Chain → AnchorVars → VerifyAndSettleOnSolanaParams → Eff Trace Text
verify_and_settle_on_solana chain vars p = do
  get_anchor_ctx chain vars
  request_id ← lift (to_bn_u128 p.request_id)
  evm_tx_hash ← lift (hex32_to_bytes p.evm_transfer_tx_hash)
  evidence ← lift (evidence_bytes p.evidence_hash)
  accounts ← settle_accounts chain vars p.accounts
  try_catch (submit_settle chain request_id evm_tx_hash evidence accounts)
      (λ e. raise bad_request e.message)
