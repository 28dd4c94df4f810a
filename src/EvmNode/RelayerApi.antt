-- ===== src/EvmNode/RelayerApi.antt =====
-- evm-contracts/node/src/services/relayerApi.ts.
use lunarys_bridge.Prelude.{◌==◌, Bool, false, Option, none, some, if◌then◌else◌}
use lunarys_bridge.Prelude.Text.{Text, is_empty}
use lunarys_bridge.Prelude.Effect.{Eff, pure, try_catch, ◌>>=◌}
use lunarys_bridge.Node.Services.{VerificationRequest}
use lunarys_bridge.EvmNode.Services.{
  post, get_status, get_health, VerificationResponse, Reply, body, axios_error, other_error, Config,
  NodeState, call,
}

-- `a || b`
abbrev or_else : Option Text → Text → Text
or_else none b = b
or_else (some a) b = if is_empty a then b else a

abbrev pub refused : Text → VerificationResponse
refused message = record { success = false; message = message; verified = none }

unfoldable pub response_of : Reply VerificationResponse → VerificationResponse
response_of (body r) = r
response_of (axios_error answered message) = refused (or_else answered message)
response_of (other_error message) = refused message

module _ (cfg : Config) where
  -- Errors become a response; the `catch` leaves no way to throw.
  unfoldable pub submit_verification : VerificationRequest → Eff NodeState VerificationResponse
  submit_verification q n =
      let (reply, n') = call (post q) cfg.services.posted n in pure (response_of reply) n'

  unfoldable pub health_check : Eff NodeState Bool
  health_check =
      try_catch (do status ← call get_health cfg.services.health; pure (status == 200))
        (λ e. pure false)

  unfoldable pub check_bridge_status : Text → Eff NodeState (Option Text)
  check_bridge_status id =
      try_catch (do answer ← call (get_status id) cfg.services.status_body; pure (some answer))
        (λ e. pure none)
