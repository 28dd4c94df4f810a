-- ===== src/Relayer/Ethereum/Delivery/Accepted.antt =====
-- Which receipts `verifyEvmDelivery` of relayer/src/eth/eth.service.ts accepts.
use lunarys_bridge.Prelude.{
  ℕ, ◌≡◌, refl, ap, ◌↔◌, ◌⊎◌, inl, inr, Bool, true, ◌&&◌, Option, none, some, List, [], ◌∷◌, any,
  select, any-select, any-select_intro, get_elem?, arith, Bool-cases,
}
use lunarys_bridge.Prelude.Int.{ℤ, pos, negsuc, eqb_ℤ}
use lunarys_bridge.Prelude.Text.{Text, text_eq, text_eq_iff, to_lower}
use lunarys_bridge.Prelude.Effect.{
  Result, ok, thrown, Eff, pure, continue, ◌>>=◌, ◌>>◌, bind-ok, bind-at, ok-injective,
  thrown-ne-ok,
}
use lunarys_bridge.Relayer.Chain.{Chain, Trace, Log, Mined}
use lunarys_bridge.Relayer.Ethereum.Delivery.{
  DeliveryParams, zero_eth_sentinel, erc20_transfer_topic, address_is, topic_is, matched,
  is_transfer_log, pays, succeeded, check_receipt, check_logs, verify_evm_delivery,
}

-- The log is a `Transfer` event of the token, to the recipient and of the amount. Addresses are
-- compared without regard to case.
pub record Paid (chain : Chain) (p : DeliveryParams) (l : Log) : Type 0 where
  pub address : Text
  pub emitted : l.address ≡ some address
  pub of_token : to_lower address ≡ to_lower p.token
  pub rest : List Text
  pub topics : l.topics ≡ erc20_transfer_topic ∷ rest
  pub recipient : Text
  pub value : ℕ
  pub decoded : chain.decode_transfer l ≡ ok (recipient, value)
  pub same_recipient : to_lower recipient ≡ to_lower p.to
  pub same_amount : pos value ≡ p.amount

both : {a b : Bool} → (a && b) ≡ true → (a ≡ true) × (b ≡ true)
both h = ground arith

eqb_pos : (n : ℕ) (z : ℤ) → (eqb_ℤ (pos n) z ≡ true) ↔ (pos n ≡ z)
eqb_pos n (pos m) = (λ h. ground arith, λ h. ground arith)
eqb_pos n (negsuc m) = (λ h. absurd (ground arith), λ h. absurd (ground arith))

module _ (chain : Chain) (p : DeliveryParams) where
  address_is-some :
      (o : Option Text)
      → address_is o p.token ≡ true
      → (a : Text) × (o ≡ some a) × (to_lower a ≡ to_lower p.token)
  address_is-some none h = cc
  address_is-some (some a) h = (a, refl, (text_eq_iff (to_lower a) (to_lower p.token)).0 h)

  topic_is-cons :
      (ts : List Text)
      → topic_is ts erc20_transfer_topic ≡ true
      → (rest : List Text) × (ts ≡ erc20_transfer_topic ∷ rest)
  topic_is-cons [] h = cc
  topic_is-cons (t ∷ ts) h = (ts, ap (λ u. u ∷ ts) ((text_eq_iff t erc20_transfer_topic).0 h))

  matched-ok :
      (x : Result (Text × ℕ))
      → matched p.to p.amount x ≡ true
      → (to : Text) × (value : ℕ) × (x ≡ ok (to, value))
        × (to_lower to ≡ to_lower p.to)
        × (pos value ≡ p.amount)
  matched-ok (thrown e) h = cc
  matched-ok (ok (to, value)) h =
      let (same, equal) = both h in
      (
        to,
        value,
        refl,
        (text_eq_iff (to_lower to) (to_lower p.to)).0 same,
        (eqb_pos value p.amount).0 equal,
      )

  tests-Paid :
      (l : Log)
      → is_transfer_log p.token l ≡ true
      → pays chain p.to p.amount l ≡ true
      → Paid chain p l
  unfolding is_transfer_log pays
  tests-Paid l h k =
      let (by_token, by_topic) = both h in
      let (address, emitted, of_token) = address_is-some l.address by_token in
      let (rest, topics) = topic_is-cons l.topics by_topic in
      let (to, value, decoded, same_to, same_amount) = matched-ok (chain.decode_transfer l) k in
      record {
        address = address;
        emitted = emitted;
        of_token = of_token;
        rest = rest;
        topics = topics;
        recipient = to;
        value = value;
        decoded = decoded;
        same_recipient = same_to;
        same_amount = same_amount;
      }

  Paid-is_transfer_log : (l : Log) → Paid chain p l → is_transfer_log p.token l ≡ true
  unfolding is_transfer_log
  Paid-is_transfer_log l h =
      rw
        (
          h.emitted,
          h.topics,
          h.of_token,
          (text_eq_iff (to_lower p.token) (to_lower p.token)).1 refl,
          (text_eq_iff erc20_transfer_topic erc20_transfer_topic).1 refl,
        )
        refl

  Paid-pays : (l : Log) → Paid chain p l → pays chain p.to p.amount l ≡ true
  unfolding pays
  Paid-pays l h =
      rw
        (
          h.decoded,
          h.same_recipient,
          (text_eq_iff (to_lower p.to) (to_lower p.to)).1 refl,
          (eqb_pos h.value p.amount).1 h.same_amount,
        )
        refl

  abbrev pub IsNative : Type 0
  IsNative = to_lower p.token ≡ to_lower zero_eth_sentinel

  abbrev logs_of : Option (List Log) → List Log
  logs_of none = []
  logs_of (some logs) = logs

  -- A receipt came, of a transaction that succeeded; and for an ERC20 one of its logs pays.
  pub Accepted : Result (Option Mined) → Type 0
  Accepted (thrown e) = ⊥
  Accepted (ok none) = ⊥
  Accepted (ok (some m)) =
      (m.status ≡ some 1)
      × (IsNative
          ⊎ ((i : ℕ) × (l : Log) × (get_elem? (logs_of m.logs) i ≡ some l) × Paid chain p l))

  succeeded_iff : (o : Option ℕ) → (succeeded o ≡ true) ↔ (o ≡ some 1)
  succeeded_iff none = (λ h. cc, λ h. cc)
  succeeded_iff (some n) = (λ h. ground arith, λ h. ground arith)

  module _ (reverted : Text) (hash : Option Text) where
    receipt-ok :
        (m : Mined) (t : Trace) {logs : List Log}
        → (check_receipt reverted hash (some m) t).0 ≡ ok logs
        → (m.status ≡ some 1) × (logs_of m.logs ≡ logs)
    unfolding check_receipt
    receipt-ok m t h = elim (Bool-cases (succeeded m.status)) [
      | inl good ↦ ((succeeded_iff m.status).0 good, logs m.logs (rw good at h))
      | inr bad ↦ absurd (thrown-ne-ok (rw bad at h))
    ]
      where
        logs :
            (o : Option (List Log)) {l : List Log}
            → (pure {A = List Log} (elim o [ none ↦ [] | some logs ↦ logs ]) t).0 ≡ ok l
            → logs_of o ≡ l
        logs none h = ok-injective h
        logs (some l) h = ok-injective h

    receipt-of :
        (m : Mined) (t : Trace)
        → m.status ≡ some 1
        → check_receipt reverted hash (some m) t ≡ (ok (logs_of m.logs), t)
    unfolding check_receipt
    receipt-of m t h = rw ((succeeded_iff m.status).1 h) (logs m.logs)
      where
        logs :
            (o : Option (List Log))
            → pure {A = List Log} (elim o [ none ↦ [] | some logs ↦ logs ]) t ≡ (ok (logs_of o), t)
        logs none = refl
        logs (some l) = refl

  check_logs-any :
      (logs : List Log) (t : Trace)
      → (check_logs chain p logs t).0 ≡ ok tt
      → any (pays chain p.to p.amount) logs ≡ true
  unfolding check_logs
  check_logs-any [] t h = cc
  check_logs-any (l ∷ logs) t h = elim (Bool-cases (any (pays chain p.to p.amount) (l ∷ logs))) [
    | inl found ↦ found
    | inr unfound ↦ absurd (thrown-ne-ok (rw unfound at h))
  ]

  any-check_logs :
      (logs : List Log) (t : Trace)
      → any (pays chain p.to p.amount) logs ≡ true
      → check_logs chain p logs t ≡ (ok tt, t)
  unfolding check_logs
  any-check_logs [] t h = cc
  any-check_logs (l ∷ logs) t h = rw h refl

  -- What is looked for in the logs of a receipt.
  Chosen : Mined → Type 0
  Chosen m = (i : ℕ) × (l : Log) × (get_elem? (logs_of m.logs) i ≡ some l) × Paid chain p l

  Chosen-any :
      (m : Mined)
      → any (pays chain p.to p.amount) (select (is_transfer_log p.token) (logs_of m.logs)) ≡ true
      → Chosen m
  unfolding Chosen
  Chosen-any m h =
      let (i, l, at, filtered, paid) = any-select _ _ (logs_of m.logs) h in
      (i, l, at, tests-Paid l filtered paid)

  any-Chosen :
      (m : Mined)
      → Chosen m
      → any (pays chain p.to p.amount) (select (is_transfer_log p.token) (logs_of m.logs)) ≡ true
  unfolding Chosen
  any-Chosen m (i, l, at, paid) =
      any-select_intro _ _ (logs_of m.logs) i l at (Paid-is_transfer_log l paid) (Paid-pays l paid)

  abbrev check_erc20 : Text → Option Mined → Eff Trace (Unit {0})
  check_erc20 reverted mined = check_receipt reverted p.tx_hash mined >>= λ logs.
      check_logs chain p (select (is_transfer_log p.token) logs)

  erc20-Accepted :
      (reverted : Text) (m : Mined) (t : Trace)
      → (check_erc20 reverted (some m) t).0 ≡ ok tt
      → Accepted (ok (some m))
  unfolding Accepted Chosen
  erc20-Accepted reverted m t h =
      let (logs, got, looked, _) = bind-ok _ _ h in
      let (status, same) = receipt-ok reverted p.tx_hash m t got in
      (status, inr (Chosen-any m (rw same (check_logs-any _ _ looked))))

  Accepted-erc20 :
      (reverted : Text) (m : Mined) (t : Trace)
      → (IsNative → ⊥)
      → Accepted (ok (some m))
      → (check_erc20 reverted (some m) t).0 ≡ ok tt
  unfolding Accepted Chosen
  Accepted-erc20 reverted m t erc20 (status, inl native) = absurd (erc20 native)
  Accepted-erc20 reverted m t erc20 (status, inr found) =
      rw
        (
          bind-at _ (λ logs. check_logs chain p (select (is_transfer_log p.token) logs)) t _ _
              (receipt-of reverted p.tx_hash m t status),
          any-check_logs _ t (any-Chosen m found),
        )
        refl

  erc20_iff :
      (reverted : Text) (x : Result (Option Mined)) (t : Trace)
      → (IsNative → ⊥)
      → ((continue (check_erc20 reverted) (x, t)).0 ≡ ok tt) ↔ Accepted x
  unfolding check_receipt ◌>>=◌ Accepted
  erc20_iff reverted (thrown e) t erc20 = (λ h. thrown-ne-ok h, λ h. absurd h)
  erc20_iff reverted (ok none) t erc20 = (λ h. thrown-ne-ok h, λ h. absurd h)
  erc20_iff reverted (ok (some m)) t erc20 =
      (erc20-Accepted reverted m t, Accepted-erc20 reverted m t erc20)

  abbrev check_native : Text → Option Mined → Eff Trace (Unit {0})
  check_native reverted mined = check_receipt reverted p.tx_hash mined >> pure tt

  native-Accepted :
      (reverted : Text) (m : Mined) (t : Trace)
      → IsNative
      → (check_native reverted (some m) t).0 ≡ ok tt
      → Accepted (ok (some m))
  unfolding Accepted
  native-Accepted reverted m t native h =
      let (logs, got, _, _) = bind-ok _ _ h in
      ((receipt-ok reverted p.tx_hash m t got).0, inl native)

  Accepted-native :
      (reverted : Text) (m : Mined) (t : Trace)
      → Accepted (ok (some m))
      → (check_native reverted (some m) t).0 ≡ ok tt
  unfolding Accepted
  Accepted-native reverted m t h =
      rw (bind-at _ (λ _. pure tt) t _ _ (receipt-of reverted p.tx_hash m t h.0)) refl

  native_iff :
      (reverted : Text) (x : Result (Option Mined)) (t : Trace)
      → IsNative
      → ((continue (check_native reverted) (x, t)).0 ≡ ok tt) ↔ Accepted x
  unfolding check_receipt ◌>>=◌ Accepted
  native_iff reverted (thrown e) t native = (λ h. thrown-ne-ok h, λ h. absurd h)
  native_iff reverted (ok none) t native = (λ h. thrown-ne-ok h, λ h. absurd h)
  native_iff reverted (ok (some m)) t native =
      (native-Accepted reverted m t native, Accepted-native reverted m t)

  -- `verifyEvmDelivery` returns if and only if a receipt came, of a transaction that succeeded, and,
  -- unless the token is the sentinel for the native one, a log of it is a `Transfer` event of the
  -- token to the recipient of exactly the amount (`Accepted`).
  pub verify_evm_delivery_iff :
      (t : Trace) → ((verify_evm_delivery chain p t).0 ≡ ok tt) ↔ Accepted (chain.mined p.tx_hash t)
  unfolding verify_evm_delivery ◌>>=◌
  verify_evm_delivery_iff t =
      elim (Bool-cases (text_eq (to_lower p.token) (to_lower zero_eth_sentinel))) [
        | inl native ↦ rw native (native_iff _ _ _ ((text_eq_iff _ _).0 native))
        | inr other ↦ rw other (
            erc20_iff _ _ _ (λ e.
              absurd (ground (arith, text_eq_iff (to_lower p.token) (to_lower zero_eth_sentinel)))))
      ]
