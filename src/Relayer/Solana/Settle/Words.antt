-- ===== src/Relayer/Solana/Settle/Words.antt =====
-- The two conversions in front of the instruction on Solana: 32 bytes from hex digits, and a
-- request id as a u128.
use mathlib.Core.Path.{subst}
use lunarys_bridge.Prelude.{
  ℕ, ◌-◌, ◌^◌, ◌≡◌, refl, sym, ◌∙◌, ap, ◌<◌, ◌↔◌, true, Option, none, some, List, ◌∷◌, length, All,
  arith, inl, inr, ◌||◌, Bool-cases, ◌==◌, ==_iff,
}
use lunarys_bridge.Prelude.Int.{ℤ, pos, ◌≤ℤ◌, ltb_ℤ}
use lunarys_bridge.Prelude.Text.{Text, starts_with}
use lunarys_bridge.Prelude.Numeral.{big_int}
use lunarys_bridge.Prelude.Hex.{
  bytes_of_hex, hex_of_bytes, length-hex_of_bytes, bytes_of_hex-hex_of_bytes,
}
use lunarys_bridge.Prelude.Effect.{ok, thrown-ne-ok, ok-injective}
use lunarys_bridge.Relayer.Solana.Settle.{without_0x, hex32_to_bytes, u128_max, in_u128, to_bn_u128}

stripped : (h : Text) → without_0x (b'0' ∷ b'x' ∷ h) ≡ h
unfolding starts_with
stripped h = refl

-- `hex32ToBytes` reads back 32 bytes that were written as `0x` and two digits a byte.
pub hex32_to_bytes-hex_of_bytes :
    (bytes : List ℕ)
    → length bytes ≡ 32
    → All (λ b. b < 256) bytes
    → hex32_to_bytes (some (b'0' ∷ b'x' ∷ hex_of_bytes bytes)) ≡ ok bytes
unfolding hex32_to_bytes
hex32_to_bytes-hex_of_bytes bytes len small =
    let digits : length (hex_of_bytes bytes) ≡ 64 = omega (arith, length-hex_of_bytes bytes) in
    let fits : (length (hex_of_bytes bytes) == 64) ≡ true = (==_iff _ _).1 digits in
    rw (stripped (hex_of_bytes bytes), fits)
      (ap ok (
        ap (λ n. bytes_of_hex n (hex_of_bytes bytes)) (sym len)
        ∙ bytes_of_hex-hex_of_bytes bytes small))

in_u128-ok : (b z : ℤ) → in_u128 (some b) ≡ ok z → (b ≡ z) × (pos 0 ≤ℤ z) × (z ≤ℤ pos (2 ^ 128 - 1))
unfolding in_u128
in_u128-ok b z h = elim (Bool-cases (ltb_ℤ b (pos 0) || ltb_ℤ u128_max b)) [
  | inl outside ↦ absurd (thrown-ne-ok (rw outside at h))
  | inr inside ↦
      (let same = ok-injective (rw inside at h) in
        subst (λ c. (b ≡ c) × (pos 0 ≤ℤ c) × (c ≤ℤ pos (2 ^ 128 - 1))) same
          (refl, ground arith, ground arith))
]

ok-in_u128 : (z : ℤ) → pos 0 ≤ℤ z → z ≤ℤ pos (2 ^ 128 - 1) → in_u128 (some z) ≡ ok z
unfolding in_u128
ok-in_u128 z low high = elim (Bool-cases (ltb_ℤ z (pos 0) || ltb_ℤ u128_max z)) [
  | inl outside ↦ absurd (ground arith)
  | inr inside ↦ rw inside refl
]

in_u128_iff :
    (o : Option ℤ) (z : ℤ)
    → (in_u128 o ≡ ok z) ↔ ((o ≡ some z) × (pos 0 ≤ℤ z) × (z ≤ℤ pos (2 ^ 128 - 1)))
unfolding in_u128
in_u128_iff none z = (λ h. absurd (thrown-ne-ok h), λ (e, low, high). absurd (ground arith))
in_u128_iff (some b) z = (
  λ h. let (same, low, high) = in_u128-ok b z h in (ap some same, low, high),
  λ (e, low, high). ap in_u128 e ∙ ok-in_u128 z low high,
)

-- `toBNu128` returns exactly the number that the text reads as, which is from 0 to 2^128 - 1: a
-- number outside that range throws and never wraps.
pub to_bn_u128_iff :
    (s : Text) (z : ℤ)
    → (to_bn_u128 s ≡ ok z) ↔ ((big_int s ≡ some z) × (pos 0 ≤ℤ z) × (z ≤ℤ pos (2 ^ 128 - 1)))
unfolding to_bn_u128
to_bn_u128_iff s z = in_u128_iff (big_int s) z
