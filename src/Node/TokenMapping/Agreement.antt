-- ===== src/Node/TokenMapping/Agreement.antt =====
-- The node and the relayer (relayer/src/common/config/token-mapping.ts) convert alike.
use lunarys_bridge.Prelude.{ℕ, zero, suc, ◌≡◌, refl, sym, arith}
use lunarys_bridge.Prelude.Int.{ℤ, pos, negsuc, sub_ℕ, scale}
use lunarys_bridge.Prelude.Effect.{ok}
use lunarys_bridge.Relayer.TokenMapping.{
  TokenInfo, pow10, adjust, adjust_to_sol_decimals, adjust_to_evm_decimals,
}
use lunarys_bridge.Relayer.TokenMapping.Units.{to_evm-pos}
use lunarys_bridge.Node.TokenMapping.{TokenMapping, convert, convert_evm_to_sol, convert_sol_to_evm}

scale-1 : (z : ℤ) → scale z 1 ≡ z
unfolding scale
scale-1 (pos n) = ground arith
scale-1 (negsuc n) = ground arith

convert-zero : (amount : ℤ) → convert amount (pos 0) ≡ adjust amount (pos 0)
unfolding convert adjust pow10
convert-zero amount = sym (scale-1 amount)

convert-pos : (amount : ℤ) (n : ℕ) → convert amount (pos (suc n)) ≡ adjust amount (pos (suc n))
unfolding convert adjust pow10
convert-pos amount n = ground arith

convert-negsuc : (amount : ℤ) (n : ℕ) → convert amount (negsuc n) ≡ adjust amount (negsuc n)
unfolding convert adjust pow10
convert-negsuc amount n = ground arith

convert-adjust : (amount diff : ℤ) → convert amount diff ≡ adjust amount diff
convert-adjust amount (pos zero) = convert-zero amount
convert-adjust amount (pos (suc n)) = convert-pos amount n
convert-adjust amount (negsuc n) = convert-negsuc amount n

-- The decimals of the node's mapping and of the relayer's are the same.
unfoldable pub SameDecimals : TokenMapping → TokenInfo → Type 0
SameDecimals m info = (m.decimals.evm ≡ info.evm.decimals) × (m.decimals.solana ≡ info.sol.decimals)

-- With the same decimals, the amount that the node pays out on Solana for an EVM amount is the one
-- that the relayer then looks for, whatever the amount.
pub node_agrees_evm_to_sol :
    (m : TokenMapping) (info : TokenInfo) (amount : ℤ)
    → SameDecimals m info
    → convert_evm_to_sol amount m ≡ (adjust_to_sol_decimals amount info).0
unfolding convert_evm_to_sol adjust_to_sol_decimals SameDecimals
node_agrees_evm_to_sol m info amount (evm, sol) =
    rw (evm, sol) (convert-adjust amount (sub_ℕ info.sol.decimals info.evm.decimals))

-- The other way the relayer pays what the node would: with the same decimals on both sides, for an
-- amount of Solana units that is not negative, its conversion returns, with the node's amount.
pub node_agrees_sol_to_evm :
    (m : TokenMapping) (info : TokenInfo) (n : ℕ)
    → SameDecimals m info
    → adjust_to_evm_decimals (pos n) info ≡ ok (convert_sol_to_evm (pos n) m, info.evm.address)
unfolding convert_sol_to_evm SameDecimals
node_agrees_sol_to_evm m info n (evm, sol) =
    rw
      (
        evm,
        sol,
        to_evm-pos n (pos n) info refl,
        convert-adjust (pos n) (sub_ℕ info.evm.decimals info.sol.decimals),
      )
      refl
