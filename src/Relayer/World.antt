-- ===== src/Relayer/World.antt =====
-- What one request of the relayer works on: the two tables and the trace of what was asked of the
-- chains. A component's effect acts on its own part.
use lunarys_bridge.Prelude.{ℕ, Option}
use lunarys_bridge.Prelude.Text.{Text}
use lunarys_bridge.Prelude.Effect.{Eff}
use lunarys_bridge.Relayer.Chain.{Chain, Trace}
use lunarys_bridge.Relayer.TokenMapping.{TokenVars}
use lunarys_bridge.Relayer.Solana.Settle.{AnchorVars}
use lunarys_bridge.Relayer.Repository.Core.{Repository}
use lunarys_bridge.Relayer.Repository.EvmToSol.{EvmToSolRecord}
use lunarys_bridge.Relayer.Repository.SolToEvm.{SolToEvmRecord}

pub record World (D E : Type 0) : Type 0 where
  pub e2s : D
  pub s2e : E
  pub calls : Trace

-- The variables that `handleSolToEvm` reads for the last step on Solana.
pub record SolanaVars : Type 0 where
  pub relayer_pubkey : Option Text
  pub mxe_pda : Text
  pub fee_pool : Text
  pub clock : Text

-- The services that `VerificationService` is built from, and the process's environment.
pub record Relayer (D E : Type 0) : Type 0 where
  pub chain : Chain
  pub e2s : Repository EvmToSolRecord D
  pub s2e : Repository SolToEvmRecord E
  pub tokens : TokenVars
  pub anchor : AnchorVars
  pub solana : SolanaVars
  -- `ETH_MIN_CONFIRMATIONS`, read as a number
  pub min_confirmations : Option ℕ

module _ {D E A : Type 0} where
  unfoldable pub on_e2s : Eff D A → Eff (World D E) A
  on_e2s m w = let (r, d) = m w.e2s in (r, record w { e2s = d })

  unfoldable pub on_s2e : Eff E A → Eff (World D E) A
  on_s2e m w = let (r, e) = m w.s2e in (r, record w { s2e = e })

  unfoldable pub on_chain : Eff Trace A → Eff (World D E) A
  on_chain m w = let (r, t) = m w.calls in (r, record w { calls = t })
