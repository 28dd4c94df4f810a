-- ===== src/Relayer/Ethereum/Delivery.antt =====
-- `verifyEvmDelivery` of relayer/src/eth/eth.service.ts.
pub mod Accepted
use lunarys_bridge.Prelude.{
  ℕ, ◌≡◌, refl, ap, ◌↔◌, Bool, true, false, ◌&&◌, Option, none, some, List, [], ◌∷◌, ◌++◌, any,
  select, arith, ◌==◌, inl, inr, Bool-cases, Option-cases, if◌then◌else◌,
}
use lunarys_bridge.Prelude.Int.{ℤ, pos, eqb_ℤ}
use lunarys_bridge.Prelude.Text.{Text, lit, text_eq, text_eq_iff, to_lower}
use lunarys_bridge.Prelude.Numeral.{digits, to_text}
use lunarys_bridge.Prelude.Effect.{
  Result, ok, thrown, Eff, pure, raise, plain, ◌>>=◌, ◌>>◌, bind-ok,
}
use lunarys_bridge.Relayer.Chain.{Chain, Trace, Log, Mined, ask, wait_for_transaction}

pub record DeliveryParams : Type 0 where
  pub tx_hash : Option Text
  pub token : Text
  pub to : Text
  pub amount : ℤ
  pub min_confirmations : Option ℕ

abbrev pub zero_eth_sentinel : Text
zero_eth_sentinel = lit "0xeeeeeeeeeeeeeeeeeeeeeeeeeeeeeeeeeeeeeeee"

-- keccak256 of "Transfer(address,address,uint256)"
abbrev pub erc20_transfer_topic : Text
erc20_transfer_topic = lit "0xddf252ad1be2c89b69c2b068fc378daa952ba7f163c4a11628f55a4df523b3ef"

abbrev confirmations : Option ℕ → ℕ
confirmations none = 1
confirmations (some n) = n

abbrev shown : Option Text → Text
shown none = lit "undefined"
shown (some hash) = hash

abbrev status_text : Option ℕ → Text
status_text none = lit "null"
status_text (some n) = digits 10 n

abbrev address_is : Option Text → Text → Bool
address_is none token = false
address_is (some a) token = text_eq (to_lower a) (to_lower token)

abbrev topic_is : List Text → Text → Bool
topic_is [] topic = false
topic_is (t ∷ ts) topic = text_eq t topic

-- The filter on the token's address and the event's topic.
unfoldable pub is_transfer_log : Text → Log → Bool
is_transfer_log token l = address_is l.address token && topic_is l.topics erc20_transfer_topic

abbrev matched : Text → ℤ → Result (Text × ℕ) → Bool
matched to amount (thrown e) = false
matched to amount (ok (recipient, value)) =
    text_eq (to_lower recipient) (to_lower to) && eqb_ℤ (pos value) amount

-- The `some(…)` that decodes each log; one that cannot be decoded does not count.
unfoldable pub pays : Chain → Text → ℤ → Log → Bool
pays chain to amount l = matched to amount (chain.decode_transfer l)

abbrev succeeded : Option ℕ → Bool
succeeded none = false
succeeded (some n) = n == 1

unfoldable pub check_receipt : Text → Option Text → Option Mined → Eff Trace (List Log)
check_receipt reverted hash none = raise plain (lit "No receipt for tx " ++ shown hash)
check_receipt reverted hash (some m) =
    if succeeded m.status
    then pure (elim m.logs [ none ↦ [] | some logs ↦ logs ])
    else raise plain (reverted ++ lit " (status=" ++ status_text m.status ++ lit ")")

unfoldable pub check_logs : Chain → DeliveryParams → List Log → Eff Trace (Unit {0})
check_logs chain p [] =
    raise plain
      (lit "No ERC20 Transfer logs for token " ++ p.token ++ lit " in tx " ++ shown p.tx_hash)
check_logs chain p (l ∷ logs) =
    if any (pays chain p.to p.amount) (l ∷ logs)
    then pure tt
    else raise plain (
        lit "ERC20 Transfer(to="
        ++ p.to
        ++ lit ", amt="
        ++ to_text p.amount
        ++ lit ") not found in tx "
        ++ shown p.tx_hash)

unfoldable pub verify_evm_delivery : Chain → DeliveryParams → Eff Trace (Unit {0})
verify_evm_delivery chain p =
    if text_eq (to_lower p.token) (to_lower zero_eth_sentinel)
    then (do
      mined ←
          ask (wait_for_transaction p.tx_hash (confirmations p.min_confirmations))
            (chain.mined p.tx_hash)
      check_receipt (lit "Native transfer reverted") p.tx_hash mined
      pure tt)
    else (do
      mined ←
          ask (wait_for_transaction p.tx_hash (confirmations p.min_confirmations))
            (chain.mined p.tx_hash)
      logs ← check_receipt (lit "Tx reverted") p.tx_hash mined
      check_logs chain p (select (is_transfer_log p.token) logs))
