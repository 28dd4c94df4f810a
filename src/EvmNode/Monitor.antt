-- ===== src/EvmNode/Monitor.antt =====
-- evm-contracts/node/src/services/ethereumMonitor.ts and utils/fheDecryption.ts.
use lunarys_bridge.Prelude.{
  ℕ, ◌==◌, Bool, true, false, not, Option, none, some, List, [], ◌∷◌, ◌++◌, if◌then◌else◌,
}
use lunarys_bridge.Prelude.Text.{Text, lit, text_eq, is_empty}
use lunarys_bridge.Prelude.Numeral.{digits}
use lunarys_bridge.Prelude.Effect.{Eff, pure, raise, lift, rethrow, try_catch, plain, ◌>>=◌, ◌>>◌}
use lunarys_bridge.EvmNode.Services.{
  get_block_number, authorized_nodes, bridge_requests, claim_bridge, wait, query_filter,
  create_instance, generate_keypair, create_eip712, sign_typed_data, EventArgs, Config, NodeState,
  call,
}

pub record BridgeRequest : Type 0 where
  pub request_id : ℕ
  pub sender : Text
  pub token : Text
  pub amount : ℕ
  pub timestamp : ℕ
  pub encrypted_solana_destination : Text

abbrev or_0x : Text → Text
or_0x s = if is_empty s then lit "0x" else s

unfoldable pub requests_of : ℕ → List (Option EventArgs) → List BridgeRequest
requests_of now [] = []
requests_of now (none ∷ es) = requests_of now es
requests_of now (some a ∷ es) =
    record {
      request_id = a.request_id;
      sender = a.sender;
      token = a.token;
      amount = a.amount;
      timestamp = now;
      encrypted_solana_destination = or_0x a.encrypted_solana_destination;
    }
    ∷ requests_of now es

abbrev pub zero_address : Text
zero_address = lit "0x0000000000000000000000000000000000000000"

abbrev pub mined_well : Option ℕ → Bool
mined_well none = false
mined_well (some n) = n == 1

module _ (cfg : Config) where
  -- `initialize` of the monitor; whether the node is authorized is only logged.
  unfoldable pub initialize_monitor : Eff NodeState (Unit {0})
  initialize_monitor = do
    block ← call get_block_number cfg.services.number
    set_block block
    is_authorized ← call (authorized_nodes cfg.services.address) cfg.services.authorized
    pure tt
    where
      set_block : ℕ → Eff NodeState (Unit {0})
      set_block block n = pure tt (record n { last_processed_block = block })

  -- One time for all events: the clock is asked without a wait between them.
  unfoldable pub poll_for_events : ℕ → ℕ → Eff NodeState (List BridgeRequest)
  poll_for_events from_block to_block = do
    events ← call (query_filter from_block to_block) cfg.services.events
    stamped events
    where
      stamped : List (Option EventArgs) → Eff NodeState (List BridgeRequest)
      stamped events n = pure (requests_of (cfg.services.now n.calls) events) n

  unfoldable pub is_request_claimed : ℕ → Eff NodeState Bool
  is_request_claimed id = do
    claimer ← call (bridge_requests id) cfg.services.claimer
    pure (not (text_eq claimer zero_address))

  unfoldable pub send_claim : ℕ → Eff NodeState Text
  send_claim id = do
    bond ← lift (cfg.services.parse_ether cfg.bond_amount)
    hash ← call (claim_bridge id bond) cfg.services.sent
    status ← call (wait hash) cfg.services.mined
    if mined_well status
        then pure hash
        else raise plain (lit "Claim transaction failed for request " ++ digits 10 id)

  unfoldable pub claim_bridge_request : ℕ → Eff NodeState Text
  claim_bridge_request id = do
    is_claimed ← is_request_claimed id
    if is_claimed
        then raise plain (lit "Request " ++ digits 10 id ++ lit " has already been claimed")
        else send_claim id

  -- `initialize` of the decryptor.
  unfoldable pub initialize_decryptor : Eff NodeState (Unit {0})
  initialize_decryptor = do
    call create_instance cfg.services.done
    λ n. pure tt (record n { instance_ready = true })

  -- `decryptSolanaAddress`: it asks for a key pair and a signature, and then always throws; its
  -- handler logs and throws the same error again.
  unfoldable pub decrypt_solana_address : Bool → ℕ → Text → Eff NodeState Text
  decrypt_solana_address false id relayer =
      raise plain (lit "FHE instance not initialized. Call initialize() first.")
  decrypt_solana_address true id relayer =
      try_catch
        (do
          call generate_keypair cfg.services.done
          call (create_eip712 relayer) cfg.services.done
          call sign_typed_data cfg.services.done
          raise plain (
              lit "FHE decryption not fully implemented. NewRelayer contract needs "
              ++ lit "getEncryptedDestination(uint256) view function."))
        (λ e. rethrow e)
