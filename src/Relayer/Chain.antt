-- ===== src/Relayer/Chain.antt =====
-- What the relayer asks of the world outside: the two chains, through the libraries ethers,
-- web3.js, spl-token and anchor, and the clock. Each request is written to a trace, and each answer
-- is any function of the trace so far, and of what is asked where that matters, so the chains may
-- change in any way between two requests.
use lunarys_bridge.Prelude.{ℕ, Bool, Option, List, ◌∷◌}
use lunarys_bridge.Prelude.Int.{ℤ}
use lunarys_bridge.Prelude.Text.{Text}
use lunarys_bridge.Prelude.Effect.{Result, Eff}

-- A parsed Solana transaction, as far as the relayer reads it.
pub record TokenBalance : Type 0 where
  pub owner : Option Text
  pub mint : Option Text
  pub amount : Option Text

pub record Meta : Type 0 where
  pub err : Option Text
  pub pre_balances : List ℕ
  pub post_balances : List ℕ
  pub pre_token_balances : Option (List TokenBalance)
  pub post_token_balances : Option (List TokenBalance)

pub record Tx : Type 0 where
  pub account_keys : List Text
  pub meta : Option Meta

-- `BridgeRequestView` and `ClaimView` of the EVM contract.
pub record BridgeRequestView : Type 0 where
  pub sender : Text
  pub token : Text
  pub amount : ℕ
  pub timestamp : ℕ
  pub finalized : Bool
  pub fee : ℕ

pub record ClaimView : Type 0 where
  pub solver : Text
  pub claimed_at : ℕ
  pub deadline : ℕ
  pub bond : ℕ

-- What `tx.wait()` gives: only this member is read, and it may be missing.
pub record Receipt : Type 0 where
  pub transaction_hash : Option Text

pub record Log : Type 0 where
  pub address : Option Text
  pub topics : List Text
  pub payload : Text

-- What `waitForTransaction` gives.
pub record Mined : Type 0 where
  pub status : Option ℕ
  pub logs : Option (List Log)

-- The accounts of the Anchor instruction, in base58.
pub record SettleAccounts : Type 0 where
  pub payer : Text
  pub escrow_owner : Text
  pub escrow_token : Text
  pub mint : Text
  pub mxe_account : Text
  pub fee_pool : Text
  pub clock : Text
  pub token_program : Text
  pub system_program : Text

pub data Call : Type 0 where
  get_parsed_transaction : Text → Call
  sleep : ℕ → Call
  get_associated_token_address : Text → Text → Bool → Call
  get_bridge_request : ℤ → Call
  request_claim : ℤ → Call
  get_contract_balance : Text → Call
  date_now : Call
  verify_and_settle : ℤ → Text → Text → Option Text → Call
  deliver_tokens : Text → Text → ℤ → Call
  wait : Text → Call
  wait_for_transaction : Option Text → ℕ → Call
  load_keypair : Call
  anchor_settle : ℤ → List ℕ → List ℕ → SettleAccounts → Call
  confirm_transaction : Text → Call

-- The latest request first.
abbrev pub Trace : Type 0
Trace = List Call

pub record Chain : Type 0 where
  -- `new PublicKey(s).toBase58()`
  pub public_key : Text → Result Text
  -- `ethers.keccak256(ethers.toUtf8Bytes(s))` and `ethers.isAddress(s)`
  pub keccak256 : Text → Text
  pub is_address : Text → Bool
  -- `iface.decodeEventLog('Transfer', …)`: the recipient and the value
  pub decode_transfer : Log → Result (Text × ℕ)
  pub parsed_transaction : Trace → Text → Result (Option Tx)
  pub associated_token_address : Trace → Text → Text → Result Text
  pub bridge_request : Trace → ℤ → Result BridgeRequestView
  pub claim : Trace → ℤ → Result ClaimView
  pub contract_balance : Trace → Text → Result ℕ
  -- `Date.now()`, in milliseconds
  pub now : Trace → ℕ
  -- the handle of a transaction that was sent, and its receipt
  pub sent : Trace → Result Text
  pub receipt : Trace → Result (Option Receipt)
  -- what waiting for a transaction of this hash gives
  pub mined : Option Text → Trace → Result (Option Mined)
  pub keypair : Trace → Result (Unit {0})
  pub signature : Trace → Result Text
  -- `conf.value.err`, as JSON
  pub confirmation : Trace → Result (Option Text)

-- One request: it is written down, and answered from what has been asked before.
abbrev pub ask : {A : Type 0} → Call → (Trace → Result A) → Eff Trace A
ask c answer t = (answer t, c ∷ t)
