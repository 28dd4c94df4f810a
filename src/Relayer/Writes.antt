-- ===== src/Relayer/Writes.antt =====
-- Of all that the relayer asks of the chains, what changes them: the transactions that it sends.
pub mod Lifted
pub mod Settling
use lunarys_bridge.Prelude.{
  ℕ, zero, suc, ◌+◌, ◌*◌, ◌≡◌, refl, Bool, true, false, Option, none, some, List, [], ◌∷◌, ◌++◌,
  any, if◌then◌else◌,
}
use lunarys_bridge.Prelude.Int.{ℤ}
use lunarys_bridge.Prelude.Text.{Text, lit, text_eq, is_empty, to_lower}
use lunarys_bridge.Prelude.Effect.{
  Result, ok, thrown, Eff, pure, raise, lift, bad_request, ◌>>=◌, ◌>>◌, try_catch,
}
use lunarys_bridge.Prelude.Effect.Ends.{
  After, Ends, Keeps, Ends-bind, Ends-pure, Ends-if, Ends-try, Keeps-lift, Keeps-raise,
}
use lunarys_bridge.Relayer.Chain.{
  Meta, Tx, Log, Mined, Chain, Call, Trace, ask, get_parsed_transaction, sleep,
  get_associated_token_address, get_bridge_request, request_claim, get_contract_balance,
  wait_for_transaction, verify_and_settle, deliver_tokens, anchor_settle,
}
use lunarys_bridge.Relayer.Solana.Retry.{judge_meta, judge, after_loop, attempts, get_tx_with_retry}
use lunarys_bridge.Relayer.Solana.Balances.{find_index, sum_owner_mint}
use lunarys_bridge.Relayer.Solana.Verify.{
  VerifyTransferParams, VerifyDepositParams, given, require_delta, native_at, check_native,
  check_tokens, check_transfer, verify_transfer, check_program, check_deposit, verify_deposit,
}
use lunarys_bridge.Relayer.Ethereum.Delivery.{
  DeliveryParams, zero_eth_sentinel, pays, check_receipt, check_logs, verify_evm_delivery,
}
use lunarys_bridge.Relayer.Ethereum.{read_bridge_request, read_claim, read_contract_balance}

abbrev pub is_write : Call → Bool
is_write (verify_and_settle id dest evidence url) = true
is_write (deliver_tokens recipient token amount) = true
is_write (anchor_settle id hash evidence accounts) = true
is_write _ = false

abbrev pub writes : Trace → Trace
writes [] = []
writes (c ∷ t) = if is_write c then c ∷ writes t else writes t

-- What was written so far stays as it is.
module _ (ws : Trace) where
  abbrev pub Wrote : Trace → Type 0
  Wrote t = writes t ≡ ws

  pub ask-Reads :
      {A : Type 0} (c : Call) (answer : Trace → Result A)
      → is_write c ≡ false
      → Keeps Wrote (ask c answer)
  ask-Reads c answer h = record { at = λ t p. go (answer t) t p }
    where
      go : {A : Type 0} (x : Result A) (t : Trace) → Wrote t → After Wrote (λ _. Wrote) (x, c ∷ t)
      go (ok a) t p = rw h p
      go (thrown e) t p = rw h p

  judge-Reads :
      (again : Option Tx → Eff Trace Tx) (read : Option Tx)
      → ((last : Option Tx) → Keeps Wrote (again last))
      → Keeps Wrote (judge again read)
  unfolding judge judge_meta
  judge-Reads again none h = h none
  judge-Reads again (some tx) h = go tx.meta
    where
      fate :
          (o : Option Text)
          → Keeps Wrote (elim o [
            | some e ↦ raise bad_request (lit "Solana tx failed: " ++ e)
            | none ↦ pure tx
          ])
      fate none = Ends-pure tx
      fate (some e) = Keeps-raise _ _

      go : (m : Option Meta) → Keeps Wrote (judge_meta again tx m)
      go none = h (some tx)
      go (some m) = fate m.err

module _ (ws : Trace) (chain : Chain) where
  attempts-Reads :
      (sig : Text) (tries i : ℕ) (last : Option Tx)
      → Keeps (Wrote ws) (attempts chain sig tries i last)
  unfolding attempts after_loop
  attempts-Reads sig zero i none = Keeps-raise _ _
  attempts-Reads sig zero i (some tx) = go tx.meta
    where
      go :
          (m : Option Meta)
          → Keeps {A = Tx} (Wrote ws) (elim m [
            | none ↦ raise bad_request (lit "Solana tx meta not available yet")
            | some _ ↦ pure tx
          ])
      go none = Keeps-raise _ _
      go (some m) = Ends-pure tx
  attempts-Reads sig (suc left) i last = Ends-bind _ _ (ask-Reads ws _ _ refl) (λ read.
      judge-Reads ws _ read
        (λ l. Ends-bind _ _ (ask-Reads ws _ _ refl) (λ _. attempts-Reads sig left (i + 1) l)))

  get_tx_with_retry-Reads :
      (sig : Text) (tries : ℕ) → Keeps (Wrote ws) (get_tx_with_retry chain sig tries)
  unfolding get_tx_with_retry
  get_tx_with_retry-Reads sig tries = attempts-Reads sig tries 0 none

  require_delta-Reads :
      (what : Text) (delta amount : ℤ) → Keeps (Wrote ws) (require_delta what delta amount)
  unfolding require_delta
  require_delta-Reads what delta amount = Ends-if _ _ _ (Keeps-raise _ _) (Ends-pure tt)

  check_native-Reads :
      (missing what : Text) (tx : Tx) (owner : Text) (amount : ℤ)
      → Keeps (Wrote ws) (check_native missing what tx owner amount)
  unfolding check_native native_at
  check_native-Reads missing what tx owner amount = go (find_index owner tx.account_keys)
    where
      go : (o : Option ℕ) → Keeps (Wrote ws) (native_at missing what tx amount o)
      go none = Keeps-raise _ _
      go (some i) = Ends-bind _ _ (require_delta-Reads _ _ _) (λ _. Ends-pure tx)

  check_tokens-Reads :
      (what : Text) (tx : Tx) (owner mint : Text) (amount : ℤ)
      → Keeps (Wrote ws) (check_tokens what tx owner mint amount)
  unfolding check_tokens
  check_tokens-Reads what tx owner mint amount = Ends-bind _ _ (Keeps-lift _) λ pre_sum.
      Ends-bind _ _ (Keeps-lift _)
        λ post_sum. Ends-bind _ _ (require_delta-Reads _ _ _) λ _. Ends-pure tx

  check_transfer-Reads :
      (tx : Tx) (owner : Text) (amount : ℤ) (mint : Option Text)
      → Keeps (Wrote ws) (check_transfer chain tx owner amount mint)
  unfolding check_transfer
  check_transfer-Reads tx owner amount none = check_native-Reads _ _ _ _ _
  check_transfer-Reads tx owner amount (some m) =
      Ends-bind _ _ (Keeps-lift _)
        λ mint. Ends-bind _ _ (ask-Reads ws _ _ refl) λ _. check_tokens-Reads _ _ _ _ _

  pub verify_transfer-Reads :
      (p : VerifyTransferParams) → Keeps (Wrote ws) (verify_transfer chain p)
  unfolding verify_transfer
  verify_transfer-Reads p =
      Ends-bind _ _ (Keeps-lift _)
        λ owner. Ends-bind _ _ (get_tx_with_retry-Reads _ _) λ tx. check_transfer-Reads _ _ _ _

  check_program-Reads : (tx : Tx) (o : Option Text) → Keeps (Wrote ws) (check_program tx o)
  unfolding check_program
  check_program-Reads tx none = Ends-pure tt
  check_program-Reads tx (some id) = Ends-if _ _ _ (Ends-pure tt) (Keeps-raise _ _)

  check_deposit-Reads :
      (tx : Tx) (vault : Text) (amount : ℤ) (mint : Option Text)
      → Keeps (Wrote ws) (check_deposit chain tx vault amount mint)
  unfolding check_deposit
  check_deposit-Reads tx vault amount none = check_native-Reads _ _ _ _ _
  check_deposit-Reads tx vault amount (some m) =
      Ends-bind _ _ (Keeps-lift _) λ mint. check_tokens-Reads _ _ _ _ _

  pub verify_deposit-Reads : (p : VerifyDepositParams) → Keeps (Wrote ws) (verify_deposit chain p)
  unfolding verify_deposit
  verify_deposit-Reads p = Ends-bind _ _ (get_tx_with_retry-Reads _ _) λ tx.
      Ends-bind _ _ (check_program-Reads _ _)
        λ _. Ends-bind _ _ (Keeps-lift _) λ vault. check_deposit-Reads _ _ _ _

  pub read_bridge_request-Reads : (id : ℤ) → Keeps (Wrote ws) (read_bridge_request chain id)
  unfolding read_bridge_request
  read_bridge_request-Reads id =
      Ends-try _ _ (Ends-bind _ _ (ask-Reads ws _ _ refl) (λ br. Ends-pure _)) (λ _. Ends-pure none)

  pub read_claim-Reads : (id : ℤ) → Keeps (Wrote ws) (read_claim chain id)
  unfolding read_claim
  read_claim-Reads id =
      Ends-try _ _ (Ends-bind _ _ (ask-Reads ws _ _ refl) (λ br. Ends-pure _)) (λ _. Ends-pure none)

  pub read_contract_balance-Reads :
      (token : Text) → Keeps (Wrote ws) (read_contract_balance chain token)
  unfolding read_contract_balance
  read_contract_balance-Reads token = Ends-try _ _ (ask-Reads ws _ _ refl) (λ _. Ends-pure 0)

  receipt-Reads :
      (reverted : Text) (hash : Option Text) (o : Option Mined)
      → Keeps (Wrote ws) (check_receipt reverted hash o)
  unfolding check_receipt
  receipt-Reads reverted hash none = Keeps-raise _ _
  receipt-Reads reverted hash (some m) = Ends-if _ _ _ (Ends-pure _) (Keeps-raise _ _)

  logs-Reads : (p : DeliveryParams) (logs : List Log) → Keeps (Wrote ws) (check_logs chain p logs)
  unfolding check_logs
  logs-Reads p [] = Keeps-raise _ _
  logs-Reads p (l ∷ logs) =
      Ends-if (any (pays chain p.to p.amount) (l ∷ logs)) _ _ (Ends-pure tt) (Keeps-raise _ _)

  pub verify_evm_delivery-Reads :
      (p : DeliveryParams) → Keeps (Wrote ws) (verify_evm_delivery chain p)
  unfolding verify_evm_delivery
  verify_evm_delivery-Reads p =
      Ends-if (text_eq (to_lower p.token) (to_lower zero_eth_sentinel)) _ _
        (Ends-bind _ _ (ask-Reads ws _ _ refl)
          λ mined. Ends-bind _ _ (receipt-Reads _ _ mined) λ _. Ends-pure tt)
        (Ends-bind _ _ (ask-Reads ws _ _ refl)
          λ mined. Ends-bind _ _ (receipt-Reads _ _ mined) λ logs. logs-Reads p _)
