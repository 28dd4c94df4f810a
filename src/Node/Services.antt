-- ===== src/Node/Services.antt =====
-- What the node asks of the world outside: both chains (ethers, web3.js, spl-token), the FHE
-- library, the relayer's API through axios, and the clock. As in the relayer, each request is
-- written to a trace, and each answer is any function of the trace so far, and of what is asked where that
-- matters.
use lunarys_bridge.Prelude.{ℕ, Bool, Option, List}
use lunarys_bridge.Prelude.Text.{Text}
use lunarys_bridge.Prelude.Effect.{Failure, Result}
unfoldable pub use lunarys_bridge.Prelude.Double.{exponent, to_number}

-- The body of a POST to the relayer, `VerificationRequest`.
pub record VerificationRequest : Type 0 where
  pub request_id : Text
  pub eth_claim_tx_hash : Text
  pub solana_transfer_signature : Text
  pub solana_destination : Text
  pub amount : Text
  pub token : Text

pub data NodeCall : Type 0 where
  request_claim : ℕ → NodeCall
  date_now : NodeCall
  claim_bridge : ℕ → NodeCall
  wait : Text → NodeCall
  decrypt_solana_address : ℕ → Text → NodeCall
  get_or_create_account : Text → Text → NodeCall
  send_lamports : Text → ℕ → NodeCall
  send_tokens : Text → Text → ℕ → NodeCall
  post : VerificationRequest → NodeCall

-- The latest request first.
abbrev pub NodeTrace : Type 0
NodeTrace = List NodeCall

pub record ClaimState : Type 0 where
  pub solver : Text
  pub deadline : ℕ

-- What is read of the relayer's answer.
pub record ApiResponse : Type 0 where
  pub status : ℕ
  pub verified : Bool
  pub success : Bool
  pub message : Option Text

pub record Services : Type 0 where
  -- the node's own account on Solana
  pub wallet : Text
  -- `new PublicKey(s).toBase58()`
  pub public_key : Text → Result Text
  pub claim : NodeTrace → Result ClaimState
  pub now : NodeTrace → ℕ
  pub sent : NodeTrace → Result Text
  -- the `status` of a receipt, if one came
  pub mined : NodeTrace → Result (Option ℕ)
  -- what the decryption for a request and a contract gives
  pub decrypted : ℕ → Text → NodeTrace → Result Text
  pub account : NodeTrace → Result Text
  pub signature : NodeTrace → Result Text
  pub answer : NodeTrace → Result ApiResponse
  -- `e.response.data.message` of what axios throws
  pub response_message : Failure → Option Text
