-- ===== src/EvmNode/Transfer.antt =====
-- evm-contracts/node/src/services/solanaTransfer.ts.
use lunarys_bridge.Prelude.{ℕ, Bool, true, false, Option, none, some, []}
use lunarys_bridge.Prelude.Text.{Text}
use lunarys_bridge.Prelude.Effect.{Failure, Eff, pure, lift, try_catch, ◌>>=◌}
use lunarys_bridge.Node.Services.{to_number}
use lunarys_bridge.EvmNode.Services.{
  get_balance, send_lamports, get_or_create_account, send_tokens, Config, NodeState, call,
}

pub record TransferResult : Type 0 where
  pub signature : Text
  pub success : Bool
  pub error : Option Text

abbrev pub succeeded : Text → TransferResult
succeeded signature = record { signature = signature; success = true; error = none }

abbrev pub broken : Failure → TransferResult
broken e = record { signature = []; success = false; error = some e.message }

module _ (cfg : Config) where
  unfoldable pub transfer_sol : Text → ℕ → Eff NodeState TransferResult
  transfer_sol destination amount =
      try_catch
        (do
          dest ← lift (cfg.services.public_key destination)
          signature ← call (send_lamports dest (to_number amount)) cfg.services.signature
          pure (succeeded signature))
        (λ e. pure (broken e))

  unfoldable pub transfer_spl_token : Text → Text → ℕ → Eff NodeState TransferResult
  transfer_spl_token mint_address destination amount =
      try_catch
        (do
          mint ← lift (cfg.services.public_key mint_address)
          dest ← lift (cfg.services.public_key destination)
          source ← call (get_or_create_account mint cfg.services.wallet) cfg.services.account
          target ← call (get_or_create_account mint dest) cfg.services.account
          signature ← call (send_tokens source target (to_number amount)) cfg.services.signature
          pure (succeeded signature))
        (λ e. pure (broken e))

  unfoldable pub get_token_balance : Text → Eff NodeState ℕ
  get_token_balance mint_address =
      try_catch
        (do
          mint ← lift (cfg.services.public_key mint_address)
          amount ← call (get_or_create_account mint cfg.services.wallet) cfg.services.token_amount
          pure (to_number amount))
        (λ e. pure 0)

  -- The balance in lamports, before it is divided for display.
  unfoldable pub balance : Eff NodeState (Unit {0})
  balance = call get_balance cfg.services.done
