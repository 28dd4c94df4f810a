-- ===== src/Node/Tests/Configured.antt =====
-- The configuration of the node in an environment where every variable has one value.
use lunarys_bridge.Prelude.{◌≡◌, ◌↔◌, some}
use lunarys_bridge.Prelude.Text.{lit}
use lunarys_bridge.Prelude.Effect.{ok}
use lunarys_bridge.Node.Configuration.{Env, read_config, configuration}
use lunarys_bridge.Node.Configuration.Complete.{Complete, configuration_iff}

abbrev env : Env
env name = some (lit "0x12345678")

configuration_iff_example :
    (configuration env ≡ ok (read_config env))
    ↔ ((read_config env ≡ read_config env) × Complete env (read_config env))
configuration_iff_example = configuration_iff env (read_config env)
