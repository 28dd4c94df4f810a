-- ===== src/Relayer/TokenMapping.antt =====
-- relayer/src/common/config/token-mapping.ts: the one configured token and the change of units.
pub mod Units
use lunarys_bridge.Prelude.{ℕ, ◌+◌, ◌^◌, List, [], ◌∷◌, Bool, Option, none, some, if◌then◌else◌}
use lunarys_bridge.Prelude.Int.{ℤ, pos, sub_ℕ, pos_part, neg_part, scale, tdiv, ltb_ℤ, leb_ℤ}
use lunarys_bridge.Prelude.Text.{Text, lit, text_eq, to_lower}
use lunarys_bridge.Prelude.Effect.{Result, ok, thrown, plain}

pub record EvmSide : Type 0 where
  pub address : Text
  pub decimals : ℕ

pub record SolSide : Type 0 where
  pub mint : Text
  pub decimals : ℕ

pub record TokenInfo : Type 0 where
  pub name : Text
  pub evm : EvmSide
  pub sol : SolSide

-- The four variables of the environment, the decimals read as numbers.
pub record TokenVars : Type 0 where
  pub token_usdc : Option Text
  pub token_sol : Option Text
  pub evm_decimals : ℕ
  pub sol_decimals : ℕ

abbrev or_text : Option Text → Text → Text
or_text none t = t
or_text (some s) t = s

-- `EVM`
unfoldable pub evm_address : TokenVars → Text
evm_address v = to_lower (or_text v.token_usdc (lit "0x1c7D4B196Cb0C7B01d743Fbc6116a902379C7238"))

-- `MINT`
unfoldable pub sol_mint : TokenVars → Text
sol_mint v = or_text v.token_sol (lit "4zMMC9srt5Ri5X14GAgXhaHii3GnPAEERYPJgZJDncDU")

-- The value of the one key of `BY_EVM_ADDRESS`.
unfoldable pub usdc : TokenVars → TokenInfo
usdc v = record {
  name = lit "USDC";
  evm = record { address = evm_address v; decimals = v.evm_decimals };
  sol = record { mint = sol_mint v; decimals = v.sol_decimals };
}

unfoldable pub find_token_info : TokenVars → Text → Option TokenInfo
find_token_info v address =
    if text_eq (to_lower address) (evm_address v) then some (usdc v) else none

-- `10n ** BigInt(Math.abs(d))`
unfoldable pub pow10 : ℤ → ℕ
pow10 d = 10 ^ (pos_part d + neg_part d)

abbrev pub negated : ℤ → ℤ
negated d = sub_ℕ (neg_part d) (pos_part d)

-- `diff >= 0 ? amount * pow10(diff) : amount / pow10(-diff)`
unfoldable pub adjust : ℤ → ℤ → ℤ
adjust amount diff =
    if leb_ℤ (pos 0) diff then scale amount (pow10 diff) else tdiv amount (pow10 (negated diff))

unfoldable pub adjust_to_sol_decimals : ℤ → TokenInfo → ℤ × Text
adjust_to_sol_decimals amount info =
    (adjust amount (sub_ℕ info.sol.decimals info.evm.decimals), info.sol.mint)

unfoldable pub adjust_to_evm_decimals : ℤ → TokenInfo → Result (ℤ × Text)
adjust_to_evm_decimals amount info =
    if ltb_ℤ amount (pos 0)
    then thrown (record { kind = plain; message = lit "amountSol must be non-negative" })
    else ok (adjust amount (sub_ℕ info.evm.decimals info.sol.decimals), info.evm.address)
