-- ===== src/Relayer/Verification/SolToEvm/Deposited.antt =====
-- What `handleSolToEvm` has checked when it goes on to pay.
use mathlib.Core.Path.{subst}
use lunarys_bridge.Prelude.{
  ℕ, ◌≡◌, ◌≢◌, refl, Option, none, some, true, inl, inr, Bool-cases, arith,
}
use lunarys_bridge.Prelude.Int.{ℤ, pos, ◌≤ℤ◌, ltb_ℤ, leb_ℤ}
use lunarys_bridge.Prelude.Text.{Text}
use lunarys_bridge.Prelude.Numeral.{big_int}
use lunarys_bridge.Prelude.Effect.{
  Result, ok, thrown, try_catch, bind-ok, ok-injective, thrown-ne-ok,
}
use lunarys_bridge.Relayer.Chain.{Trace, Tx}
use lunarys_bridge.Relayer.TokenMapping.{adjust_to_evm_decimals}
use lunarys_bridge.Relayer.Solana.Verify.Sound.{Verified, verify_deposit_sound}
use lunarys_bridge.Relayer.Ethereum.{read_contract_balance}
use lunarys_bridge.Relayer.World.{World, Relayer, on_chain}
use lunarys_bridge.Relayer.Verification.EvmToSol.{or_syntax}
use lunarys_bridge.Relayer.Verification.SolToEvm.{
  SolToEvmVerificationDto, reject, token_info, check_addresses, check_deposited, check_payable,
  prepare,
}

-- The deposit was found on Solana and credits the vault with the amount of the request, which is
-- not negative; what it is worth in EVM units is positive, and the bridge's contract holds it.
pub record Deposited {D E : Type 0} (r : Relayer D E) (dto : SolToEvmVerificationDto) (payment : ℤ)
    : Type 0 where
  pub recipient : r.chain.is_address dto.evm_recipient ≡ true
  pub token : r.chain.is_address dto.evm_token ≡ true
  pub amount : ℤ
  pub read_amount : big_int dto.amount ≡ some amount
  pub not_negative : pos 0 ≤ℤ amount
  pub tx : Tx
  pub credited :
      Verified r.chain dto.solana_deposit_signature dto.solana_vault dto.solana_mint amount tx
  pub address : Text
  pub converted : adjust_to_evm_decimals amount (token_info r dto) ≡ ok (payment, address)
  pub positive : pos 1 ≤ℤ payment
  pub asked : Trace
  pub balance : ℕ
  pub held : r.chain.contract_balance asked dto.evm_token ≡ ok balance
  pub enough : payment ≤ℤ pos balance

module _ {D E : Type 0} (r : Relayer D E) (dto : SolToEvmVerificationDto) where
  pub reject-ne-ok :
      {A : Type 0} (message : Text) (w : World D E) {a : A} → (reject r dto message w).0 ≢ ok a
  unfolding reject
  reject-ne-ok message w h = let (row, marked, refused, _) = bind-ok _ _ h in thrown-ne-ok refused

  check_addresses-ok :
      (w : World D E) {u : Unit {0}}
      → (check_addresses r dto w).0 ≡ ok u
      → (r.chain.is_address dto.evm_recipient ≡ true) × (r.chain.is_address dto.evm_token ≡ true)
  unfolding check_addresses
  check_addresses-ok w h = elim (Bool-cases (r.chain.is_address dto.evm_recipient)) [
    | inr bad ↦ absurd (reject-ne-ok _ w (rw bad at h))
    | inl good ↦ elim (Bool-cases (r.chain.is_address dto.evm_token)) [
      | inl fine ↦ (good, fine)
      | inr wrong ↦ absurd (reject-ne-ok _ w (rw (good, wrong) at h))
    ]
  ]

  or_syntax-ok : (o : Option ℤ) {z : ℤ} → or_syntax o ≡ ok z → o ≡ some z
  or_syntax-ok none h = cc
  or_syntax-ok (some z) h = cc

  check_deposited-ok :
      (w : World D E) {amount : ℤ}
      → (check_deposited r dto w).0 ≡ ok amount
      → (big_int dto.amount ≡ some amount)
        × (tx : Tx) × Verified r.chain dto.solana_deposit_signature dto.solana_vault dto.solana_mint
            amount tx
  unfolding check_deposited on_chain
  check_deposited-ok w h =
      let (amount, parsed, rest, _) = bind-ok _ _ h in
      let (tx, found, returned, _) = bind-ok _ _ rest in
      let same = ok-injective returned in
      (
        or_syntax-ok _ (rw same at parsed),
        tx,
        subst
            (λ a.
              Verified r.chain dto.solana_deposit_signature dto.solana_vault dto.solana_mint a tx)
            same (verify_deposit_sound r.chain _ w.calls tx found),
      )

  adjusted :
      (amount : ℤ) {leg : ℤ × Text}
      → adjust_to_evm_decimals amount (token_info r dto) ≡ ok leg
      → pos 0 ≤ℤ amount
  unfolding adjust_to_evm_decimals
  adjusted amount h = elim (Bool-cases (ltb_ℤ amount (pos 0))) [
    | inl negative ↦ absurd (thrown-ne-ok (rw negative at h))
    | inr fine ↦ ground arith
  ]

  check_payable-ok :
      (amount : ℤ) (balance : ℕ) (w : World D E) {u : Unit {0}}
      → (check_payable r dto amount balance w).0 ≡ ok u
      → (amount ≤ℤ pos balance) × (pos 1 ≤ℤ amount)
  unfolding check_payable
  check_payable-ok amount balance w h = elim (Bool-cases (ltb_ℤ (pos balance) amount)) [
    | inl poor ↦ absurd (reject-ne-ok _ w (rw poor at h))
    | inr rich ↦ elim (Bool-cases (leb_ℤ amount (pos 0))) [
      | inl nothing ↦ absurd (reject-ne-ok _ w (rw (rich, nothing) at h))
      | inr something ↦ (ground arith, ground arith)
    ]
  ]

  -- A balance that is not 0 was answered by the contract.
  read_contract_balance-ok :
      (t : Trace) (payment : ℤ) {balance : ℕ}
      → (read_contract_balance r.chain dto.evm_token t).0 ≡ ok balance
      → payment ≤ℤ pos balance
      → pos 1 ≤ℤ payment
      → r.chain.contract_balance t dto.evm_token ≡ ok balance
  unfolding read_contract_balance try_catch
  read_contract_balance-ok t payment {balance} h enough positive =
      go (r.chain.contract_balance t dto.evm_token) refl
    where
      go :
          (x : Result ℕ)
          → r.chain.contract_balance t dto.evm_token ≡ x
          → r.chain.contract_balance t dto.evm_token ≡ ok balance
      go (ok b) e = ground arith
      go (thrown b) e = absurd (zero_balance (rw e at h))
        where
          zero_balance : ok 0 ≡ ok balance → ⊥
          zero_balance z = let none_held = ok-injective z in ground arith

  pub prepare-Deposited :
      (w : World D E) {payment : ℤ} → (prepare r dto w).0 ≡ ok payment → Deposited r dto payment
  unfolding prepare on_chain
  prepare-Deposited w {payment} h =
      let (u, addressed, h1, _) = bind-ok _ _ h in
      let (amount, deposited, h2, _) = bind-ok _ _ h1 in
      let (row, marked, h3, _) = bind-ok _ _ h2 in
      let (leg, converted, h4, _) = bind-ok _ _ h3 in
      let (balance, read, h5, _) = bind-ok _ _ h4 in
      let (v, payable, h6, _) = bind-ok _ _ h5 in
      let (recipient, token) = check_addresses-ok w addressed in
      let (read_amount, tx, credited) = check_deposited-ok _ deposited in
      let (enough, positive) = check_payable-ok leg.0 balance _ payable in
      let same : leg.0 ≡ payment = ok-injective h6 in
      let paid : Deposited r dto leg.0 = record {
        recipient = recipient;
        token = token;
        amount = amount;
        read_amount = read_amount;
        not_negative = adjusted amount converted;
        tx = tx;
        credited = credited;
        address = leg.1;
        converted = converted;
        positive = positive;
        asked = _;
        balance = balance;
        held = read_contract_balance-ok _ leg.0 read enough positive;
        enough = enough;
      } in
      subst (Deposited r dto) same paid
