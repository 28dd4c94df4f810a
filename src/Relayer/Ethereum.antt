-- ===== src/Relayer/Ethereum.antt =====
-- relayer/src/eth/eth.service.ts: the contract's view functions, the two transactions that the
-- relayer sends, and the check of a delivery by the logs of its transaction.
pub mod Delivery
use lunarys_bridge.Prelude.{ℕ, ◌≡◌, Bool, Option, none, some, List, [], ◌∷◌}
use lunarys_bridge.Prelude.Int.{ℤ}
use lunarys_bridge.Prelude.Text.{Text}
use lunarys_bridge.Prelude.Effect.{Result, Eff, pure, try_catch, ◌>>=◌}
use lunarys_bridge.Relayer.Chain.{
  Chain, Trace, BridgeRequestView, ClaimView, Receipt, ask, get_bridge_request, request_claim,
  get_contract_balance, verify_and_settle, deliver_tokens, wait,
}

-- `evidenceURL` chooses the overload; an empty one counts as missing.
abbrev pub url_argument : Option Text → Option Text
url_argument none = none
url_argument (some []) = none
url_argument (some (c ∷ url)) = some (c ∷ url)

unfoldable pub send_verify_and_settle :
    Chain → ℤ → Text → Text → Option Text → Eff Trace (Option Receipt)
send_verify_and_settle chain id dest_tx_hash evidence_hash url = do
  tx ← ask (verify_and_settle id dest_tx_hash evidence_hash (url_argument url)) chain.sent
  ask (wait tx) chain.receipt

unfoldable pub send_deliver_tokens : Chain → Text → Text → ℤ → Eff Trace (Option Receipt)
send_deliver_tokens chain recipient token amount = do
  tx ← ask (deliver_tokens recipient token amount) chain.sent
  ask (wait tx) chain.receipt

-- `catch { return null; }`
unfoldable pub read_bridge_request : Chain → ℤ → Eff Trace (Option BridgeRequestView)
read_bridge_request chain id =
    try_catch (do br ← ask (get_bridge_request id) (λ t. chain.bridge_request t id); pure (some br))
      (λ _. pure none)

unfoldable pub read_claim : Chain → ℤ → Eff Trace (Option ClaimView)
read_claim chain id =
    try_catch (do c ← ask (request_claim id) (λ t. chain.claim t id); pure (some c))
      (λ _. pure none)

-- `catch { return 0n; }`
unfoldable pub read_contract_balance : Chain → Text → Eff Trace ℕ
read_contract_balance chain token =
    try_catch (ask (get_contract_balance token) (λ t. chain.contract_balance t token)) (λ _. pure 0)
