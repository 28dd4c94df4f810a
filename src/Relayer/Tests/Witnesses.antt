-- ===== src/Relayer/Tests/Witnesses.antt =====
-- The relayer's theorems at the requests of the tests.
use lunarys_bridge.Prelude.{
  inl, inr, ℕ, ◌<◌, ◌≤◌, ◌+◌, ◌-◌, ◌^◌, ◌≡◌, ◌≢◌, refl, ◌⊎◌, ◌↔◌, true, false, Option, none, some,
  [], ◌∷◌,
}
use lunarys_bridge.Prelude.Int.{pos, ◌≤ℤ◌}
use lunarys_bridge.Prelude.Text.{lit, text_eq_iff}
use lunarys_bridge.Prelude.Numeral.{big_int}
use lunarys_bridge.Prelude.Numeral.RoundTrip.{big_int-to_text}
use lunarys_bridge.Prelude.Effect.{ok}
use lunarys_bridge.Prelude.Effect.Ends.{Yields}
use lunarys_bridge.Relayer.Chain.{Chain, Trace, Receipt}
use lunarys_bridge.Relayer.TokenMapping.{usdc, adjust_to_sol_decimals, adjust_to_evm_decimals}
use lunarys_bridge.Relayer.TokenMapping.Units.{there_and_back}
use lunarys_bridge.Relayer.Solana.Retry.{get_tx_with_retry}
use lunarys_bridge.Relayer.Solana.Retry.Bound.{reads, slept, get_tx_with_retry_bound}
use lunarys_bridge.Relayer.Solana.Balances.{TotalIs, sum_owner_mint-TotalIs}
use lunarys_bridge.Relayer.Solana.Verify.{VerifyTransferParams, VerifyDepositParams}
use lunarys_bridge.Relayer.Solana.Verify.Sound.{
  Verified, verify_transfer_sound, verify_deposit_sound,
}
use lunarys_bridge.Relayer.Solana.Settle.{to_bn_u128}
use lunarys_bridge.Relayer.Solana.Settle.Words.{to_bn_u128_iff}
use lunarys_bridge.Relayer.Ethereum.Delivery.{DeliveryParams, verify_evm_delivery}
use lunarys_bridge.Relayer.Ethereum.Delivery.Accepted.{Accepted, verify_evm_delivery_iff}
use lunarys_bridge.Relayer.Repository.Table.{table, table-IsRepository}
use lunarys_bridge.Relayer.Repository.Isolation.{SameRow}
use lunarys_bridge.Relayer.Repository.Isolation.EvmToSol.{evm_to_sol_isolation}
use lunarys_bridge.Relayer.Repository.EvmToSol
use lunarys_bridge.Relayer.Writes.{writes}
use lunarys_bridge.Relayer.Verification.EvmToSol.{handle_evm_to_sol}
use lunarys_bridge.Relayer.Verification.EvmToSol.Checked.{Checked}
use lunarys_bridge.Relayer.Verification.EvmToSol.Once.{settlement, settles_once}
use lunarys_bridge.Relayer.Verification.EvmToSol.Recorded.{Recorded, failure_is_Recorded}
use lunarys_bridge.Relayer.Verification.SolToEvm.{deliver, handle_sol_to_evm}
use lunarys_bridge.Relayer.Verification.SolToEvm.Flow.{Flow, pays_then_settles}
use lunarys_bridge.Relayer.Verification.SolToEvm.Recorded.{
  HasRow, IsSettled, IsFailed, payment_is_recorded,
}
use lunarys_bridge.Relayer.Verification.SolToEvm.NoHash.{hashless_never_settles}
use lunarys_bridge.Relayer.Verification.EvmToSol.{hash_of}
use lunarys_bridge.Relayer.Api.{Headers, single, absent, can_activate, serve, sol_to_evm}
use lunarys_bridge.Relayer.Api.Guarded.{
  bearer, Bears, Admitted, can_activate_iff, intruder_changes_nothing,
}
use lunarys_bridge.Relayer.Tests.{
  running, balance, landed_tx, hash_text, mined_well, chain, tokens, e2s_key, s2e_key, relayer_on,
  relayer, empty_world, claimed_dto, deposit_dto,
}

pays_then_settles_example :
    Flow relayer deposit_dto
      (writes empty_world.calls)
      (handle_sol_to_evm relayer deposit_dto empty_world).1
pays_then_settles_example = pays_then_settles relayer deposit_dto empty_world

settles_once_example :
    (writes (handle_evm_to_sol relayer claimed_dto empty_world).1.calls ≡ writes empty_world.calls)
    ⊎ ((c : Checked relayer claimed_dto) × (writes
            (handle_evm_to_sol relayer claimed_dto empty_world).1.calls
          ≡ settlement relayer claimed_dto c ∷ writes empty_world.calls))
settles_once_example = settles_once relayer claimed_dto empty_world

failure_is_Recorded_example :
    Recorded relayer
      (table-IsRepository e2s_key)
      claimed_dto
      (handle_evm_to_sol relayer claimed_dto empty_world)
failure_is_Recorded_example =
    failure_is_Recorded relayer (table-IsRepository e2s_key) claimed_dto empty_world (pos 7)
      (big_int-to_text (pos 7))

payment_is_recorded_example :
    Yields
      (HasRow relayer (table-IsRepository s2e_key) deposit_dto)
      (IsSettled relayer (table-IsRepository s2e_key) deposit_dto (pos 1000))
      (IsFailed relayer (table-IsRepository s2e_key) deposit_dto)
      (deliver relayer deposit_dto (pos 1000))
payment_is_recorded_example =
    payment_is_recorded relayer (table-IsRepository s2e_key) deposit_dto (pos 1000)

abbrev transfer_params : VerifyTransferParams
transfer_params = record {
  signature = lit "sig";
  recipient = lit "dest";
  amount = pos 10;
  mint = some (lit "M");
}

verify_transfer_sound_example :
    Verified chain (lit "sig") (lit "dest") (some (lit "M")) (pos 10) landed_tx
unfolding running
verify_transfer_sound_example = verify_transfer_sound chain transfer_params [] landed_tx refl

abbrev deposit_params : VerifyDepositParams
deposit_params = record {
  signature = lit "sig";
  vault = lit "vault";
  amount = pos 10;
  mint = some (lit "M");
  program_id = none;
}

verify_deposit_sound_example :
    Verified chain (lit "sig") (lit "vault") (some (lit "M")) (pos 10) landed_tx
unfolding running
verify_deposit_sound_example = verify_deposit_sound chain deposit_params [] landed_tx refl

abbrev delivery_params : DeliveryParams
delivery_params = record {
  tx_hash = some hash_text;
  token = lit "0xab";
  to = lit "0xcd";
  amount = pos 1000;
  min_confirmations = none;
}

verify_evm_delivery_iff_example :
    ((verify_evm_delivery chain delivery_params []).0 ≡ ok tt)
    ↔ Accepted chain delivery_params (ok (some mined_well))
verify_evm_delivery_iff_example = verify_evm_delivery_iff chain delivery_params []

sum_owner_mint-TotalIs_example :
    TotalIs
      (lit "dest")
      (lit "M")
      (balance (lit "dest") (lit "5") ∷ balance (lit "vault") (lit "9") ∷ [])
      (pos 5)
unfolding running
sum_owner_mint-TotalIs_example =
    sum_owner_mint-TotalIs (lit "dest") (lit "M")
      (some (balance (lit "dest") (lit "5") ∷ balance (lit "vault") (lit "9") ∷ [])) (pos 5) refl

there_and_back_example :
    (m : ℕ) × (adjust_to_evm_decimals
        (adjust_to_sol_decimals (pos 1234) (usdc tokens)).0
        (usdc tokens)
      ≡ ok (pos m, (usdc tokens).evm.address))
    × (m ≤ 1234)
    × (1234 < m + 10 ^ ((usdc tokens).evm.decimals - (usdc tokens).sol.decimals))
there_and_back_example = there_and_back (usdc tokens) 1234

to_bn_u128_iff_example :
    (to_bn_u128 (lit "12") ≡ ok (pos 12))
    ↔ ((big_int (lit "12") ≡ some (pos 12)) × (pos 0 ≤ℤ pos 12) × (pos 12 ≤ℤ pos (2 ^ 128 - 1)))
to_bn_u128_iff_example = to_bn_u128_iff (lit "12") (pos 12)

get_tx_with_retry_bound_example :
    (reads (get_tx_with_retry chain (lit "sig") 6 []).1 ≤ 6)
    × (slept (get_tx_with_retry chain (lit "sig") 6 []).1 ≤ 8400)
get_tx_with_retry_bound_example = get_tx_with_retry_bound chain (lit "sig") 6 []

-- A chain whose receipts lack the hash, as those of ethers 6 do.
abbrev hashless_chain : Chain
hashless_chain = record chain { receipt = λ t. ok (some (record { transaction_hash = none })) }

no_hash :
    (t : Trace) (receipt : Option Receipt)
    → hashless_chain.receipt t ≡ ok receipt
    → hash_of receipt ≡ none
no_hash t none h = refl
no_hash t (some x) h = cc

hashless_never_settles_example :
    (handle_sol_to_evm (relayer_on hashless_chain) deposit_dto empty_world).0
    ≢ ok (record { eth_tx = none })
hashless_never_settles_example =
    hashless_never_settles (relayer_on hashless_chain) deposit_dto no_hash empty_world
      (record { eth_tx = none })

abbrev headers : Headers
headers = record { x_api_token = absent; authorization = single (lit "Bearer no") }

can_activate_iff_example :
    (can_activate (some (b'a' ∷ lit "bc")) headers ≡ ok true) ↔ Admitted (b'a' ∷ lit "bc") headers
can_activate_iff_example = can_activate_iff b'a' (lit "bc") headers

false_ne : false ≡ true → ⊥
false_ne h = cc

no_token : Admitted (b'a' ∷ lit "bc") headers → ⊥
unfolding running Bears Admitted lit
no_token (s, bearer m ne, inl e) = false_ne ((text_eq_iff (lit "Bearer no") (lit "Bearer abc")).1 e)
no_token (s, bearer m ne, inr (e, bare)) =
    false_ne ((text_eq_iff (lit "Bearer no") (lit "abc")).1 e)

intruder_changes_nothing_example :
    (serve relayer (some (b'a' ∷ lit "bc")) headers (sol_to_evm deposit_dto) empty_world).1
    ≡ empty_world
intruder_changes_nothing_example =
    intruder_changes_nothing relayer b'a' (lit "bc") headers (sol_to_evm deposit_dto) empty_world
      no_token

abbrev e2s_reception : lunarys_bridge.Relayer.Repository.EvmToSol.Reception
e2s_reception = lunarys_bridge.Relayer.Verification.EvmToSol.reception claimed_dto

e2s_other : e2s_reception.request_id ≢ lit "9"
unfolding running
e2s_other e = false_ne ((text_eq_iff (lit "7") (lit "9")).1 e)

evm_to_sol_isolation_example :
    SameRow
      (table e2s_key)
      (lit "9")
      []
      (lunarys_bridge.Relayer.Repository.EvmToSol.upsert_received
        (table e2s_key)
        e2s_reception
        []).1
    × SameRow
        (table e2s_key)
        (lit "9")
        []
        (lunarys_bridge.Relayer.Repository.EvmToSol.mark_verified
          (table e2s_key)
          e2s_reception.request_id
          none
          []).1
    × SameRow
        (table e2s_key)
        (lit "9")
        []
        (lunarys_bridge.Relayer.Repository.EvmToSol.mark_settled
          (table e2s_key)
          e2s_reception.request_id
          (some hash_text)
          none
          []).1
    × SameRow
        (table e2s_key)
        (lit "9")
        []
        (lunarys_bridge.Relayer.Repository.EvmToSol.mark_failed
          (table e2s_key)
          e2s_reception.request_id
          (lit "reason")
          []).1
evm_to_sol_isolation_example =
    evm_to_sol_isolation (table-IsRepository e2s_key) e2s_reception (lit "9") none none
      (some hash_text) (lit "reason") [] e2s_other
