-- ===== src/Relayer/TokenMapping/Units.antt =====
-- Changing units there and back, for the conversions of relayer/src/common/config/token-mapping.ts.
use native.Mathlib.Nat.{div-add-mod', mod-lt, mul-div_cancel, pow-suc}
use lunarys_bridge.Prelude.{
  ℕ, zero, suc, ◌+◌, ◌-◌, ◌*◌, ◌/◌, ◌^◌, ◌≤◌, ◌<◌, ◌≡◌, refl, inl, inr, ◌∙◌, ap, arith, leb, leb→le,
  Bool-cases,
}
use lunarys_bridge.Prelude.Int.{ℤ, pos, negsuc, sub_ℕ, sub_ℕ-le, sub_ℕ-lt, scale, tdiv}
use lunarys_bridge.Prelude.Effect.{ok}
use lunarys_bridge.Relayer.TokenMapping.{
  TokenInfo, pow10, adjust, adjust_to_sol_decimals, adjust_to_evm_decimals,
}

pow10-pos : (k : ℕ) → 0 < 10 ^ k
pow10-pos zero = omega arith
pow10-pos (suc k) = rw pow-suc (omega (arith, pow10-pos k))

pow10-to_ℕ : (d : ℕ) → pow10 (pos d) ≡ 10 ^ d
unfolding pow10
pow10-to_ℕ d = ap {B = ℕ} (λ k. 10 ^ k) {x = d + 0} {y = d} (omega arith)

adjust-pos : (n d : ℕ) → adjust (pos n) (pos d) ≡ pos (n * 10 ^ d)
unfolding adjust pow10 scale tdiv
adjust-pos n d = ground (arith, pow10-to_ℕ d)

adjust-negsuc : (n d : ℕ) → adjust (pos n) (negsuc d) ≡ pos (n / 10 ^ suc d)
unfolding adjust pow10 scale tdiv
adjust-negsuc n d = ground (arith, pow10-to_ℕ (suc d))

-- More decimals on the target: a multiplication.
pub adjust-up : (n a b : ℕ) → b ≤ a → adjust (pos n) (sub_ℕ a b) ≡ pos (n * 10 ^ (a - b))
adjust-up n a b h = rw (sub_ℕ-le a b h) (adjust-pos n (a - b))

-- Fewer: a division.
pub adjust-down : (n a b : ℕ) → a < b → adjust (pos n) (sub_ℕ a b) ≡ pos (n / 10 ^ (b - a))
adjust-down n a b h =
    (rw (sub_ℕ-lt a b h) (adjust-negsuc n (b - a - 1)))
    ∙ ap (λ (k : ℕ). pos (n / 10 ^ k)) {x = suc (b - a - 1)} {y = b - a} (omega arith)

-- What is left of `n` units after a change to `a` decimals and back to `b`.
abbrev pub back : ℕ → ℕ → ℕ → ℤ
back n a b = adjust (adjust (pos n) (sub_ℕ a b)) (sub_ℕ b a)

back-up : (n a b : ℕ) → b < a → back n a b ≡ pos n
back-up n a b h =
    rw (adjust-up n a b (omega arith), adjust-down (n * 10 ^ (a - b)) b a h)
      (ap pos (mul-div_cancel n (pow10-pos (a - b))))

back-same : (n a : ℕ) → back n a a ≡ pos n
back-same n a = rw (sub_ℕ-le a a (omega arith)) (
    ap (λ (d : ℕ). adjust (adjust (pos n) (pos d)) (pos d)) {x = a - a} {y = 0} (omega arith)
    ∙ ap (λ z. adjust z (pos 0)) (adjust-pos n 0)
    ∙ adjust-pos (n * 10 ^ 0) 0
    ∙ ap pos {x = n * 10 ^ 0 * 10 ^ 0} {y = n} (omega arith))

back-down : (n a b : ℕ) → a < b → back n a b ≡ pos (n / 10 ^ (b - a) * 10 ^ (b - a))
back-down n a b h = rw (adjust-down n a b h, adjust-up (n / 10 ^ (b - a)) b a (omega arith)) refl

back-exact : (n a b : ℕ) → b ≤ a → back n a b ≡ pos n
back-exact n a b h = elim (Bool-cases (leb a b)) [
  | inl le ↦ (let same : b ≡ a = omega (arith, leb→le a b le) in rw same (back-same n a))
  | inr gt ↦ back-up n a b (ground arith)
]

back-bounds : (n a b : ℕ) → (m : ℕ) × (back n a b ≡ pos m) × (m ≤ n) × (n < m + 10 ^ (b - a))
back-bounds n a b = elim (Bool-cases (leb b a)) [
  | inl le ↦ (n, back-exact n a b (leb→le b a le), omega arith, omega (arith, pow10-pos (b - a)))
  | inr gt ↦ (
    n / 10 ^ (b - a) * 10 ^ (b - a),
    back-down n a b (ground arith),
    omega (arith, div-add-mod' n (10 ^ (b - a))),
    omega (arith, div-add-mod' n (10 ^ (b - a)), mod-lt n (pow10-pos (b - a))),
  )
]

adjust-nonneg : (n : ℕ) (d : ℤ) → (k : ℕ) × (adjust (pos n) d ≡ pos k)
adjust-nonneg n (pos d) = (_, adjust-pos n d)
adjust-nonneg n (negsuc d) = (_, adjust-negsuc n d)

pub to_evm-pos :
    (k : ℕ) (z : ℤ) (info : TokenInfo)
    → z ≡ pos k
    → adjust_to_evm_decimals z info
      ≡ ok (adjust z (sub_ℕ info.evm.decimals info.sol.decimals), info.evm.address)
unfolding adjust_to_evm_decimals
to_evm-pos k z info e = rw e (ground arith)

-- An amount of EVM units, changed to Solana units and back, is never more than it was and falls
-- short by less than one Solana unit; where Solana has as many decimals or more, it is the same.
pub there_and_back :
    (info : TokenInfo) (n : ℕ)
    → (m : ℕ) × (adjust_to_evm_decimals (adjust_to_sol_decimals (pos n) info).0 info
        ≡ ok (pos m, info.evm.address))
      × (m ≤ n)
      × (n < m + 10 ^ (info.evm.decimals - info.sol.decimals))
unfolding adjust_to_sol_decimals
there_and_back info n =
    let (k, nonneg) = adjust-nonneg n (sub_ℕ info.sol.decimals info.evm.decimals) in
    let (m, same, low, high) = back-bounds n info.sol.decimals info.evm.decimals in
    (m, rw (to_evm-pos k _ info nonneg) (ap (λ z. ok (z, info.evm.address)) same), low, high)
