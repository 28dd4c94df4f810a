-- ===== src/Relayer/Solana/Verify.antt =====
-- `verifyTransfer` and `verifyDeposit` of relayer/src/sol/sol.service.ts.
pub mod Sound
use lunarys_bridge.Prelude.{
  ℕ, ◌≡◌, refl, Bool, true, false, not, Option, none, some, List, [], ◌∷◌, ◌++◌, any, arith,
  if◌then◌else◌,
}
use lunarys_bridge.Prelude.Int.{ℤ, pos, ◌+ℤ◌, ◌-ℤ◌, ◌≤ℤ◌, ltb_ℤ, int_laws}
use lunarys_bridge.Prelude.Text.{Text, lit, text_eq, is_empty}
use lunarys_bridge.Prelude.Numeral.{to_text}
use lunarys_bridge.Prelude.Effect.{
  Result, ok, thrown, Eff, pure, raise, lift, bad_request, ◌>>=◌, ◌>>◌,
}
use lunarys_bridge.Relayer.Chain.{
  TokenBalance, Meta, Tx, Chain, Trace, ask, get_associated_token_address,
}
use lunarys_bridge.Relayer.Solana.Retry.{get_tx_with_retry}
use lunarys_bridge.Relayer.Solana.Balances.{sum_owner_mint, find_index, balance_at}

pub record VerifyTransferParams : Type 0 where
  pub signature : Text
  pub recipient : Text
  pub amount : ℤ
  pub mint : Option Text

pub record VerifyDepositParams : Type 0 where
  pub signature : Text
  pub vault : Text
  pub amount : ℤ
  pub mint : Option Text
  pub program_id : Option Text

-- `!mint`
abbrev pub given : Option Text → Option Text
given none = none
given (some s) = if is_empty s then none else some s

abbrev pub pre_lamports : Option Meta → ℕ → ℕ
pre_lamports none i = 0
pre_lamports (some m) i = balance_at m.pre_balances i

abbrev pub post_lamports : Option Meta → ℕ → ℕ
post_lamports none i = 0
post_lamports (some m) i = balance_at m.post_balances i

abbrev pub pre_tokens : Option Meta → Option (List TokenBalance)
pre_tokens none = none
pre_tokens (some m) = m.pre_token_balances

abbrev pub post_tokens : Option Meta → Option (List TokenBalance)
post_tokens none = none
post_tokens (some m) = m.post_token_balances

-- `if (delta < amount) throw …`
unfoldable pub require_delta : Text → ℤ → ℤ → Eff Trace (Unit {0})
require_delta what delta amount =
    if ltb_ℤ delta amount
    then raise bad_request (what ++ to_text delta ++ lit " < expected " ++ to_text amount)
    else pure tt

-- The check of native SOL, at the account's place among the message's keys.
unfoldable pub native_at : Text → Text → Tx → ℤ → Option ℕ → Eff Trace Tx
native_at missing what tx amount none = raise bad_request missing
native_at missing what tx amount (some i) = do
  require_delta what (pos (post_lamports tx.meta i) -ℤ pos (pre_lamports tx.meta i)) amount
  pure tx

unfoldable pub check_native : Text → Text → Tx → Text → ℤ → Eff Trace Tx
check_native missing what tx owner amount =
    native_at missing what tx amount (find_index owner tx.account_keys)

-- The check of a token: the sums over all accounts of this owner and mint.
unfoldable pub check_tokens : Text → Tx → Text → Text → ℤ → Eff Trace Tx
check_tokens what tx owner mint amount = do
  pre_sum ← lift (sum_owner_mint (pre_tokens tx.meta) owner mint)
  post_sum ← lift (sum_owner_mint (post_tokens tx.meta) owner mint)
  require_delta what (post_sum -ℤ pre_sum) amount
  pure tx

-- The two kinds of asset of `verifyTransfer`; the associated account is only logged.
unfoldable pub check_transfer : Chain → Tx → Text → ℤ → Option Text → Eff Trace Tx
check_transfer chain tx owner amount none =
    check_native (lit "Recipient not in message keys") (lit "SOL delta ") tx owner amount
check_transfer chain tx owner amount (some m) = do
  mint ← lift (chain.public_key m)
  ask (get_associated_token_address mint owner false)
      (λ t. chain.associated_token_address t mint owner)
  check_tokens (lit "SPL delta ") tx owner mint amount

unfoldable pub verify_transfer : Chain → VerifyTransferParams → Eff Trace Tx
verify_transfer chain p = do
  owner ← lift (chain.public_key p.recipient)
  tx ← get_tx_with_retry chain p.signature 6
  check_transfer chain tx owner p.amount (given p.mint)

unfoldable pub check_program : Tx → Option Text → Eff Trace (Unit {0})
check_program tx none = pure tt
check_program tx (some id) =
    if any (λ k. text_eq k id) tx.account_keys
    then pure tt
    else raise bad_request (lit "Bridge program not invoked in this tx")

unfoldable pub check_deposit : Chain → Tx → Text → ℤ → Option Text → Eff Trace Tx
check_deposit chain tx vault amount none =
    check_native (lit "Vault not in message keys") (lit "Vault SOL delta ") tx vault amount
check_deposit chain tx vault amount (some m) = do
  mint ← lift (chain.public_key m)
  check_tokens (lit "Vault SPL delta ") tx vault mint amount

unfoldable pub verify_deposit : Chain → VerifyDepositParams → Eff Trace Tx
verify_deposit chain p = do
  tx ← get_tx_with_retry chain p.signature 6
  check_program tx (given p.program_id)
  vault ← lift (chain.public_key p.vault)
  check_deposit chain tx vault p.amount (given p.mint)
