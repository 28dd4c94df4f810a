-- ===== src/Frontend/EvmBridge.antt =====
-- From the EVM to Solana: `evmToSolBridge` of frontend/lib/bridge/evm/bridge.ts, and `bridge` of the
-- hook frontend/hooks/bridge/useEvmBridge.ts around it. Toasts are not modelled, and the reset of
-- the phase 2.5 seconds after a success is outside the run.
pub mod Amounts
pub mod Ended
use lunarys_bridge.Prelude.{
  ℕ, Bool, true, false, not, ◌||◌, Option, none, some, List, ◌∷◌, if◌then◌else◌,
}
use lunarys_bridge.Prelude.Int.{ℤ, pos, ltb_ℤ, leb_ℤ}
use lunarys_bridge.Prelude.Text.{Text, lit, is_empty}
use lunarys_bridge.Prelude.Numeral.{trim}
use lunarys_bridge.Prelude.Effect.{
  Result, Failure, ErrorKind, plain, bad_request, not_found, syntax, type_error, range_error, Eff,
  pure, raise, rethrow, lift, try_catch, ◌>>=◌, ◌>>◌,
}
use lunarys_bridge.Frontend.Units.{is_valid_solana_address}

pub record Encrypted : Type 0 where
  pub handle : Text
  pub proof : Text

pub data Call : Type 0 where
  encrypt : Text → Call
  -- owner, spender
  allowance : Text → Text → Call
  -- spender, amount
  approve : Text → ℤ → Call
  -- token, amount, handle and proof
  initiate_bridge : Text → ℤ → Encrypted → Call
  wait : Text → Call
  request_accounts switch_chain : Call

-- The latest request first.
abbrev pub Trace : Type 0
Trace = List Call

-- The answers of ethers, of the wallet and of the FHE library.
pub record Services : Type 0 where
  pub encrypted : Trace → Result Encrypted
  -- `ethers.parseUnits(text, decimals)`
  pub parse_units : Text → ℕ → Result ℤ
  -- of an owner, for a spender
  pub allowed : Text → Text → Trace → Result ℤ
  pub sent : Trace → Result Text
  -- the `hash` of a receipt, if one came
  pub receipt : Trace → Result (Option Text)
  -- `window.ethereum`, and its member `request`
  pub has_ethereum : Bool
  pub has_request : Bool
  pub granted : Trace → Result (Unit {0})
  pub switched : Trace → Result (Unit {0})

pub data Phase : Type 0 where
  idle encrypting bridging complete : Phase

pub record Page : Type 0 where
  pub phase : Phase
  pub loading : Bool
  pub error : Option Text
  pub calls : Trace

unfoldable pub call : {A : Type 0} → Call → (Trace → Result A) → Eff Page A
call c answer p = (answer p.calls, record p { calls = c ∷ p.calls })

pub record Params : Type 0 where
  pub owner_address : Text
  pub new_relayer_address : Text
  pub token_address : Text
  pub token_decimals : ℕ
  pub amount_str : Text
  pub destination : Text

pub record BridgeResult : Type 0 where
  pub approval_tx_hash : Option Text
  pub bridge_tx_hash : Text

-- `receipt?.hash ?? tx.hash`
abbrev hash_or : Option Text → Text → Text
hash_or none hash = hash
hash_or (some h) hash = h

module _ (s : Services) (q : Params) where
  abbrev pub sanitized : Text
  sanitized = if is_empty (trim q.amount_str) then lit "0" else q.amount_str

  unfoldable pub approve_if_needed : ℤ → ℤ → Eff Page (Option Text)
  approve_if_needed parsed current =
      if ltb_ℤ current parsed
      then (do
        hash ← call (approve q.new_relayer_address parsed) s.sent
        receipt ← call (wait hash) s.receipt
        pure (some (hash_or receipt hash)))
      else pure none

  unfoldable pub initiate : Encrypted → ℤ → Option Text → Eff Page BridgeResult
  initiate enc parsed approval = do
    hash ← call (initiate_bridge q.token_address parsed enc) s.sent
    receipt ← call (wait hash) s.receipt
    pure (record { approval_tx_hash = approval; bridge_tx_hash = hash_or receipt hash })

  -- From the check of the allowance on.
  unfoldable pub send_amount : Encrypted → ℤ → Eff Page BridgeResult
  send_amount enc parsed = do
    current ←
        call (allowance q.owner_address q.new_relayer_address)
          (s.allowed q.owner_address q.new_relayer_address)
    approval ← approve_if_needed parsed current
    initiate enc parsed approval

  unfoldable pub evm_to_sol_bridge : Eff Page BridgeResult
  evm_to_sol_bridge = do
    enc ← call (encrypt q.destination) s.encrypted
    parsed ← lift (s.parse_units sanitized q.token_decimals)
    if leb_ℤ parsed (pos 0)
        then raise plain (lit "Amount must be greater than zero")
        else send_amount enc parsed

pub record TokenConfig : Type 0 where
  pub address : Text
  pub decimals : ℕ

-- What the hook has from its caller and from the wallet's context.
pub record Hook : Type 0 where
  pub services : Services
  pub amount : Text
  -- `numericAmount > 0`, a test of a float
  pub amount_is_positive : Bool
  pub solana_destination : Text
  pub token_config : Option TokenConfig
  pub new_relayer_address : Option Text
  pub fhe_is_ready : Bool
  pub is_connected : Bool
  pub has_signer : Bool
  pub is_correct_network : Bool
  pub account : Text

-- What an error shows: its message, or `String(e)` where that is empty.
abbrev name : ErrorKind → Text
name plain = lit "Error"
name bad_request = lit "BadRequestException"
name not_found = lit "NotFoundException"
name syntax = lit "SyntaxError"
name type_error = lit "TypeError"
name range_error = lit "RangeError"

unfoldable pub shown : Failure → Text
shown e = if is_empty e.message then name e.kind else e.message

module _ (h : Hook) where
  unfoldable pub ensure_evm_wallet : Eff Page Bool
  ensure_evm_wallet =
      if h.services.has_ethereum
      then (if h.services.has_request
          then try_catch (do call request_accounts h.services.granted; pure true) (λ e. pure false)
          else pure true)
      else pure false

  unfoldable pub ensure_sepolia_network : Eff Page Bool
  ensure_sepolia_network =
      if h.services.has_request
      then try_catch (do call switch_chain h.services.switched; pure true) (λ e. pure false)
      else pure false

  abbrev require : Bool → Text → Eff Page (Unit {0})
  require b message = if b then pure tt else raise plain message

  unfoldable pub ask_wallet : Eff Page (Unit {0})
  ask_wallet = do there ← ensure_evm_wallet; require there (lit "No EVM wallet")

  unfoldable pub connect : Eff Page (Unit {0})
  connect = if h.is_connected then (if h.has_signer then pure tt else ask_wallet) else ask_wallet

  unfoldable pub change_network : Eff Page (Unit {0})
  change_network =
      if h.is_correct_network
      then pure tt
      else (do there ← ensure_sepolia_network; require there (lit "Wrong network"))

  unfoldable pub set_running : Eff Page (Unit {0})
  set_running p = pure tt (record p { loading = true; error = none; phase = encrypting })

  unfoldable pub set_complete : BridgeResult → Eff Page BridgeResult
  set_complete res p = pure res (record p { phase = complete })

  unfoldable pub set_failed : Failure → Eff Page BridgeResult
  set_failed e p = rethrow e (record p { error = some (shown e); phase = idle })

  -- `finally`
  unfoldable pub stop_loading : Result BridgeResult × Page → Result BridgeResult × Page
  stop_loading (r, p) = (r, record p { loading = false })

  unfoldable pub run : Params → Eff Page BridgeResult
  run q p =
      stop_loading
        (try_catch (do res ← evm_to_sol_bridge h.services q; set_complete res) set_failed p)

  abbrev pub params_of : TokenConfig → Text → Params
  params_of token relayer = record {
    owner_address = h.account;
    new_relayer_address = relayer;
    token_address = token.address;
    token_decimals = token.decimals;
    amount_str = h.amount;
    destination = h.solana_destination;
  }

  -- Behind the guards on the token and the contract's address.
  unfoldable pub bridge_with : TokenConfig → Text → Eff Page BridgeResult
  bridge_with token relayer = do
    require h.fhe_is_ready (lit "FHE not ready")
    connect
    change_network
    set_running
    run (params_of token relayer)

  unfoldable pub with_relayer : TokenConfig → Option Text → Eff Page BridgeResult
  with_relayer token none = raise plain (lit "Missing NewRelayer")
  with_relayer token (some relayer) =
      if is_empty relayer then raise plain (lit "Missing NewRelayer") else bridge_with token relayer

  unfoldable pub with_token : Option TokenConfig → Eff Page BridgeResult
  with_token none = raise plain (lit "Missing token config")
  with_token (some token) = do
    require h.amount_is_positive (lit "Invalid amount")
    with_relayer token h.new_relayer_address

  unfoldable pub bridge : Eff Page BridgeResult
  bridge = do
    require (is_valid_solana_address h.solana_destination) (lit "Invalid Solana address")
    with_token h.token_config
