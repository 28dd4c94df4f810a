-- ===== src/Relayer/Solana/Verify/Sound.antt =====
-- What a passed check of relayer/src/sol/sol.service.ts has established.
use mathlib.Core.Path.{subst}
use lunarys_bridge.Prelude.{ℕ, ◌≡◌, refl, Option, none, some, arith}
use lunarys_bridge.Prelude.Int.{ℤ, pos, ◌+ℤ◌, ◌-ℤ◌, ◌≤ℤ◌, +ℤ_parts, -ℤ_parts}
use lunarys_bridge.Prelude.Text.{Text}
use lunarys_bridge.Prelude.Effect.{ok, bind-ok, ok-injective}
use lunarys_bridge.Relayer.Chain.{Tx, Chain, Trace}
use lunarys_bridge.Relayer.Solana.Retry.{Fetched, get_tx_with_retry-Fetched}
use lunarys_bridge.Relayer.Solana.Balances.{find_index, or_empty, TotalIs, sum_owner_mint-TotalIs}
use lunarys_bridge.Relayer.Solana.Verify.{
  VerifyTransferParams, VerifyDepositParams, given, pre_lamports, post_lamports, pre_tokens,
  post_tokens, require_delta, native_at, check_native, check_tokens, check_transfer, check_deposit,
  verify_transfer, verify_deposit,
}

-- The transaction raised what the account holds by `amount` at least: lamports of a listed account,
-- or the total of all the owner's token accounts of the mint.
pub data Credits (chain : Chain) (owner : Text) (mint : Option Text) (tx : Tx) (amount : ℤ)
    : Type 0 where
  lamports :
      {i : ℕ}
      → given mint ≡ none
      → find_index owner tx.account_keys ≡ some i
      → amount +ℤ pos (pre_lamports tx.meta i) ≤ℤ pos (post_lamports tx.meta i)
      → Credits chain owner mint tx amount
  tokens :
      {m key : Text} {before after : ℤ}
      → given mint ≡ some m
      → chain.public_key m ≡ ok key
      → TotalIs owner key (or_empty (pre_tokens tx.meta)) before
      → TotalIs owner key (or_empty (post_tokens tx.meta)) after
      → amount +ℤ before ≤ℤ after
      → Credits chain owner mint tx amount

require_delta-ok :
    (what : Text) (before after amount : ℤ) (t : Trace) {u : Unit {0}}
    → (require_delta what (after -ℤ before) amount t).0 ≡ ok u
    → amount +ℤ before ≤ℤ after
unfolding require_delta
require_delta-ok what before after amount t h =
    ground (arith, -ℤ_parts after before, +ℤ_parts amount before)

module _ (chain : Chain) (owner : Text) (tx found : Tx) (amount : ℤ) where
  native_at-Credits :
      (missing what : Text) (mint : Option Text) (o : Option ℕ) (t : Trace)
      → given mint ≡ none
      → find_index owner found.account_keys ≡ o
      → (native_at missing what found amount o t).0 ≡ ok tx
      → (found ≡ tx) × Credits chain owner mint found amount
  unfolding native_at
  native_at-Credits missing what mint none t absent e h = cc
  native_at-Credits missing what mint (some i) t absent e h =
      let (u, passed, returned, _) = bind-ok _ _ h in
      (ok-injective returned, Credits.lamports absent e (require_delta-ok what _ _ amount t passed))

  check_native-Credits :
      (missing what : Text) (mint : Option Text) (t : Trace)
      → given mint ≡ none
      → (check_native missing what found owner amount t).0 ≡ ok tx
      → (found ≡ tx) × Credits chain owner mint found amount
  unfolding check_native
  check_native-Credits missing what mint t absent h =
      native_at-Credits missing what mint _ t absent refl h

  check_tokens-Credits :
      (what m key : Text) (mint : Option Text) (t : Trace)
      → given mint ≡ some m
      → chain.public_key m ≡ ok key
      → (check_tokens what found owner key amount t).0 ≡ ok tx
      → (found ≡ tx) × Credits chain owner mint found amount
  unfolding check_tokens
  check_tokens-Credits what m key mint t present known h =
      let (before, pre, rest, _) = bind-ok _ _ h in
      let (after, post, more, _) = bind-ok _ _ rest in
      let (u, passed, returned, _) = bind-ok _ _ more in
      (
        ok-injective returned,
        Credits.tokens present known
            (sum_owner_mint-TotalIs owner key (pre_tokens found.meta) before pre)
            (sum_owner_mint-TotalIs owner key (post_tokens found.meta) after post)
            (require_delta-ok what _ _ amount t passed),
      )

-- A passed check read an executed transaction of this signature that credits the account.
pub record Verified (chain : Chain) (signature account : Text) (mint : Option Text) (amount : ℤ)
    (tx : Tx) : Type 0 where
  pub owner : Text
  pub known : chain.public_key account ≡ ok owner
  pub fetched : Fetched chain signature tx
  pub credits : Credits chain owner mint tx amount

check_transfer-Credits :
    (chain : Chain) (owner : Text) (tx found : Tx) (amount : ℤ) (mint o : Option Text) (t : Trace)
    → given mint ≡ o
    → (check_transfer chain found owner amount o t).0 ≡ ok tx
    → (found ≡ tx) × Credits chain owner mint found amount
unfolding check_transfer
check_transfer-Credits chain owner tx found amount mint none t e h =
    check_native-Credits chain owner tx found amount _ _ mint t e h
check_transfer-Credits chain owner tx found amount mint (some m) t e h =
    let (key, known, rest, _) = bind-ok _ _ h in
    let (ata, asked, more, _) = bind-ok _ _ rest in
    check_tokens-Credits chain owner tx found amount _ m key mint _ e known more

check_deposit-Credits :
    (chain : Chain) (owner : Text) (tx found : Tx) (amount : ℤ) (mint o : Option Text) (t : Trace)
    → given mint ≡ o
    → (check_deposit chain found owner amount o t).0 ≡ ok tx
    → (found ≡ tx) × Credits chain owner mint found amount
unfolding check_deposit
check_deposit-Credits chain owner tx found amount mint none t e h =
    check_native-Credits chain owner tx found amount _ _ mint t e h
check_deposit-Credits chain owner tx found amount mint (some m) t e h =
    let (key, known, rest, _) = bind-ok _ _ h in
    check_tokens-Credits chain owner tx found amount _ m key mint _ e known rest

verified :
    (chain : Chain) (signature account owner : Text) (mint : Option Text) (amount : ℤ)
    (tx found : Tx)
    → chain.public_key account ≡ ok owner
    → Fetched chain signature found
    → (found ≡ tx) × Credits chain owner mint found amount
    → Verified chain signature account mint amount tx
verified chain signature account owner mint amount tx found known fetched (same, credits) = record {
  owner = owner;
  known = known;
  fetched = subst (Fetched chain signature) same fetched;
  credits = subst (λ x. Credits chain owner mint x amount) same credits;
}

-- If `verifyTransfer` returns, the transaction that it returns was read from the chain under the
-- given signature, was executed, and credits the recipient with the amount or more: in lamports
-- where no mint is given, and otherwise in the total of the recipient's accounts of that mint.
pub verify_transfer_sound :
    (chain : Chain) (p : VerifyTransferParams) (t : Trace) (tx : Tx)
    → (verify_transfer chain p t).0 ≡ ok tx
    → Verified chain p.signature p.recipient p.mint p.amount tx
unfolding verify_transfer
verify_transfer_sound chain p t tx h =
    let (owner, known, rest, _) = bind-ok _ _ h in
    let (found, read, more, _) = bind-ok _ _ rest in
    verified chain p.signature p.recipient owner p.mint p.amount tx found known
      (get_tx_with_retry-Fetched chain p.signature found 6 t read)
      (check_transfer-Credits chain owner tx found p.amount p.mint (given p.mint) _ refl more)

-- If `verifyDeposit` returns, the transaction that it returns was read from the chain under the
-- given signature, was executed, and credits the vault with the amount or more: in lamports where no
-- mint is given, and otherwise in the total of the vault's accounts of that mint.
pub verify_deposit_sound :
    (chain : Chain) (p : VerifyDepositParams) (t : Trace) (tx : Tx)
    → (verify_deposit chain p t).0 ≡ ok tx
    → Verified chain p.signature p.vault p.mint p.amount tx
unfolding verify_deposit
verify_deposit_sound chain p t tx h =
    let (found, read, rest, _) = bind-ok _ _ h in
    let (u, checked, more, _) = bind-ok _ _ rest in
    let (owner, known, last, _) = bind-ok _ _ more in
    verified chain p.signature p.vault owner p.mint p.amount tx found known
      (get_tx_with_retry-Fetched chain p.signature found 6 t read)
      (check_deposit-Credits chain owner tx found p.amount p.mint (given p.mint) _ refl last)
