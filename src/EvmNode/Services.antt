-- ===== src/EvmNode/Services.antt =====
-- What the earlier node asks of the world outside (ethers, web3.js, spl-token, fhevmjs, axios), and
-- its state. Each request is written to a trace, and each answer is any function of the trace so far.
use lunarys_bridge.Prelude.{ℕ, Bool, Option, List, ◌∷◌}
use lunarys_bridge.Prelude.Text.{Text}
use lunarys_bridge.Prelude.Effect.{Result}
use lunarys_bridge.Node.Services.{VerificationRequest}

pub data Call : Type 0 where
  get_block_number get_balance create_instance generate_keypair get_health : Call
  authorized_nodes : Text → Call
  bridge_requests : ℕ → Call
  -- the request's id and the bond in wei
  claim_bridge : ℕ → ℕ → Call
  wait : Text → Call
  query_filter : ℕ → ℕ → Call
  create_eip712 : Text → Call
  sign_typed_data : Call
  send_lamports : Text → ℕ → Call
  get_or_create_account : Text → Text → Call
  send_tokens : Text → Text → ℕ → Call
  post : VerificationRequest → Call
  get_status : Text → Call

-- The latest request first.
abbrev pub Trace : Type 0
Trace = List Call

-- The body of the relayer's answer, which is passed on as it is.
pub record VerificationResponse : Type 0 where
  pub success : Bool
  pub message : Text
  pub verified : Option Bool

-- How a request through axios ends: with a body, with an error of axios (the message in the body of
-- an error response, and the error's own), or with any other error.
pub data Reply (A : Type 0) : Type 0 where
  body : A → Reply A
  axios_error : Option Text → Text → Reply A
  other_error : Text → Reply A

-- The arguments of a `BridgeInitiated` event, as `queryFilter` gives them.
pub record EventArgs : Type 0 where
  pub request_id : ℕ
  pub sender : Text
  pub token : Text
  pub amount : ℕ
  pub encrypted_solana_destination : Text

pub record Services : Type 0 where
  -- the node's own account on Solana
  pub wallet : Text
  -- `new PublicKey(s).toBase58()`
  pub public_key : Text → Result Text
  -- `ethers.parseEther(s)`
  pub parse_ether : Text → Result ℕ
  -- the account's address on the EVM, and `Date.now()`
  pub address : Text
  pub now : Trace → ℕ
  pub number : Trace → Result ℕ
  pub authorized : Trace → Result Bool
  -- the `claimer` of a request
  pub claimer : Trace → Result Text
  pub sent : Trace → Result Text
  -- the `status` of a receipt, if one came
  pub mined : Trace → Result (Option ℕ)
  -- events of a filter; one that could not be decoded has no `args`
  pub events : Trace → Result (List (Option EventArgs))
  pub done : Trace → Result (Unit {0})
  pub account : Trace → Result Text
  -- the balance of an associated token account
  pub token_amount : Trace → Result ℕ
  pub signature : Trace → Result Text
  pub posted : Trace → Reply VerificationResponse
  pub health : Trace → Result ℕ
  -- the body of a status request, `null` in its place after an error
  pub status_body : Trace → Result Text

-- The members of `NodeConfig` that the services read.
pub record Config : Type 0 where
  pub services : Services
  pub new_relayer_address : Text
  pub bond_amount : Text

pub record NodeState : Type 0 where
  -- the set `processing`, oldest first
  pub processing : List Text
  pub last_processed_block : ℕ
  -- `fheDecryptor`, and its `fhevmInstance`
  pub decryptor : Bool
  pub instance_ready : Bool
  pub listening : Bool
  pub calls : Trace

unfoldable pub call : {A : Type 0} → Call → (Trace → A) → NodeState → A × NodeState
call c answer n = (answer n.calls, record n { calls = c ∷ n.calls })
