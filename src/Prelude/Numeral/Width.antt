-- ===== src/Prelude/Numeral/Width.antt =====
-- How long a hexadecimal text is.
use Prim.Native.Nat.{ℕ, zero, suc, ◌+◌, ◌-◌, ◌*◌, ◌/◌, ◌%◌, ◌≤◌, ◌<◌}
use mathlib.Core.Path.{◌≡◌}
use mathlib.Core.Logic.{inl, inr}
use mathlib.Core.Bool.{true, false}
use mathlib.Core.List.{[], ◌∷◌}
use native.Mathlib.Omega.{arith}
use lunarys_bridge.Prelude.Tests.{◌==◌, ==_iff, Bool-cases}
use lunarys_bridge.Prelude.Lists.{length, replicate, length-append, length-replicate}
use lunarys_bridge.Prelude.Text.{Text, pad_start}
use lunarys_bridge.Prelude.Numeral.{digit_char, emit, digits}

-- 16 to the power of `k`.
unfoldable pub hex_bound : ℕ → ℕ
hex_bound zero = 1
hex_bound (suc k) = 16 * hex_bound k

smaller : (f n : ℕ) → n < suc f → (n / 16 == 0) ≡ false → n / 16 < f
smaller f n l more = ground arith

length-emit :
    (k f n : ℕ) (out : Text)
    → n < hex_bound (suc k)
    → n < f
    → length (emit 16 f n out) ≤ suc k + length out
unfolding emit hex_bound
length-emit k zero n out h l = absurd (omega arith)
length-emit zero (suc f) n out h l =
    let done : (n / 16 == 0) ≡ true = (==_iff (n / 16) 0).1 (omega arith) in
    rw (done, emit) (omega arith)
length-emit (suc k) (suc f) n out h l = elim (Bool-cases (n / 16 == 0)) [
  | inl done ↦ rw (done, emit) (omega arith)
  | inr more ↦
      rw (more, emit)
        (let rest =
            length-emit k f (n / 16) (digit_char (n % 16) ∷ out) (omega arith)
              (smaller f n l more) in
          omega (arith, rest))
]

-- A number below 16 to the power of `k` has at most `k` hexadecimal digits.
pub length-digits : (k n : ℕ) → n < hex_bound (suc k) → length (digits 16 n) ≤ suc k
unfolding digits
length-digits k n h = omega (arith, length-emit k (suc n) n [] h)

-- Padded to a width that it does not exceed, a text has that width.
pub length-pad_start : (n c : ℕ) (s : Text) → length s ≤ n → length (pad_start n c s) ≡ n
unfolding pad_start
length-pad_start n c s h =
    omega (arith, length-append (replicate (n - length s) c) s, length-replicate (n - length s) c)
