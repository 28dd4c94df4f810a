-- ===== src/EvmNode/Tests.antt =====
-- The earlier node on one event, alone and beside a second one.
use lunarys_bridge.Prelude.{◌≡◌, refl, true, false, none, some, [], ◌∷◌}
use lunarys_bridge.Prelude.Text.{Text, lit}
use lunarys_bridge.Prelude.Effect.{ok, ◌>>=◌, try_catch}
use lunarys_bridge.EvmNode.Services.{
  Services, Config, NodeState, call, claim_bridge, body, get_balance, get_health, create_instance,
  authorized_nodes, get_block_number,
}
use lunarys_bridge.EvmNode.Monitor.{
  BridgeRequest, zero_address, initialize_monitor, initialize_decryptor,
}
use lunarys_bridge.EvmNode.Transfer.{balance}
use lunarys_bridge.EvmNode.RelayerApi.{health_check}
use lunarys_bridge.EvmNode.Startup.{initialize, start}
use lunarys_bridge.EvmNode.Process.{has, request_id_str, process_bridge_request}
use lunarys_bridge.EvmNode.Process.NeverPays.{outgoing, never_pays}
use lunarys_bridge.EvmNode.Process.Bond.{claims, bond_is_locked}
use lunarys_bridge.EvmNode.Process.Exclusion.{System}

abbrev services : Services
services = record {
  wallet = lit "node";
  public_key = λ s. ok s;
  parse_ether = λ s. ok 30;
  address = lit "0xnode";
  now = λ t. 0;
  number = λ t. ok 100;
  authorized = λ t. ok true;
  claimer = λ t. ok zero_address;
  sent = λ t. ok (lit "0xclaim");
  mined = λ t. ok (some 1);
  events = λ t. ok [];
  done = λ t. ok tt;
  account = λ t. ok (lit "account");
  token_amount = λ t. ok 0;
  signature = λ t. ok (lit "sig");
  posted = λ t. body (record { success = true; message = []; verified = none });
  health = λ t. ok 200;
  status_body = λ t. ok [];
}

abbrev config : Config
config = record { services = services; new_relayer_address = lit "0xee"; bond_amount = lit "0.03" }

abbrev fresh : NodeState
fresh = record {
  processing = [];
  last_processed_block = 0;
  decryptor = false;
  instance_ready = false;
  listening = false;
  calls = [];
}

abbrev request : BridgeRequest
request = record {
  request_id = 7;
  sender = lit "0xuser";
  token = lit "0xab";
  amount = 500;
  timestamp = 0;
  encrypted_solana_destination = lit "0x";
}

start_test : (start config fresh).1 ≡ record fresh {
  last_processed_block = 100;
  decryptor = true;
  instance_ready = true;
  listening = true;
  calls =
      get_health
      ∷ get_balance
      ∷ create_instance
      ∷ authorized_nodes (lit "0xnode")
      ∷ get_block_number
      ∷ [];
}
unfolding start initialize initialize_monitor initialize_decryptor health_check balance call ◌>>=◌
    try_catch
start_test = refl

abbrev ready : NodeState
ready = record fresh { decryptor = true; instance_ready = true }

never_pays_example :
    (after : NodeState) × (process_bridge_request config request ready ≡ (ok tt, after))
    × (outgoing after.calls ≡ outgoing ready.calls)
    × (after.processing ≡ ready.processing)
never_pays_example = never_pays config request ready

nothing_is_processed : has (request_id_str config request) ready.processing ≡ false
unfolding has
nothing_is_processed = refl

bond_is_locked_example :
    claims (process_bridge_request config request ready).1.calls
    ≡ claim_bridge 7 30 ∷ claims ready.calls
bond_is_locked_example = bond_is_locked config request (λ t. refl) refl ready nothing_is_processed

abbrev entered : System
entered = record { node = record ready { processing = lit "7" ∷ [] }; running = lit "7" ∷ [] }
