-- ===== src/EvmNode/Startup.antt =====
-- `initialize`, `start` and `stop` of evm-contracts/node/src/index.ts.
use lunarys_bridge.Prelude.{true, false}
use lunarys_bridge.Prelude.Effect.{Eff, pure, try_catch, ◌>>=◌, ◌>>◌}
use lunarys_bridge.EvmNode.Services.{Config, NodeState}
use lunarys_bridge.EvmNode.Monitor.{BridgeRequest, initialize_monitor, initialize_decryptor}
use lunarys_bridge.EvmNode.Transfer.{balance}
use lunarys_bridge.EvmNode.RelayerApi.{health_check}
use lunarys_bridge.EvmNode.Process.{process_bridge_request}

module _ (cfg : Config) where
  -- `this.fheDecryptor = new FHEDecryptor(...)`
  abbrev set_decryptor : Eff NodeState (Unit {0})
  set_decryptor n = pure tt (record n { decryptor = true; instance_ready = false })

  unfoldable pub initialize : Eff NodeState (Unit {0})
  initialize = do
    initialize_monitor cfg
    set_decryptor
    initialize_decryptor cfg
    balance cfg
    healthy ← health_check cfg
    pure tt

  unfoldable pub start : Eff NodeState (Unit {0})
  start = do initialize; λ n. pure tt (record n { listening = true })

  -- The listener of `BridgeInitiated`; an error of the callback is only logged.
  unfoldable pub on_bridge_initiated : BridgeRequest → Eff NodeState (Unit {0})
  on_bridge_initiated request = try_catch (process_bridge_request cfg request) (λ e. pure tt)

  unfoldable pub stop : Eff NodeState (Unit {0})
  stop n = pure tt (record n { listening = false })
