-- ===== src/Prelude/Bytes.antt =====
-- Numbers as bytes, the lowest byte first.
use Prim.Native.Nat.{ℕ, zero, suc, ◌+◌, ◌*◌, ◌/◌, ◌%◌, ◌^◌}
use mathlib.Core.Path.{◌≡◌, refl}
use mathlib.Core.List.{List, [], ◌∷◌}
use native.Mathlib.Omega.{arith}
use lunarys_bridge.Prelude.Lists.{length}

-- `for (i = 0; i < k; i++) { out[i] = v & 0xff; v >>= 8 }`
unfoldable pub le_bytes : ℕ → ℕ → List ℕ
le_bytes zero v = []
le_bytes (suc k) v = v % 256 ∷ le_bytes k (v / 256)

-- The number that bytes stand for.
abbrev pub le_value : List ℕ → ℕ
le_value [] = 0
le_value (b ∷ bs) = b + 256 * le_value bs

-- Eight bytes hold a number modulo 2^64.
pub le_value-le_bytes :
    (n : ℕ) → (le_value (le_bytes 8 n) ≡ n % 2 ^ 64) × (length (le_bytes 8 n) ≡ 8)
unfolding le_bytes
le_value-le_bytes n = (omega arith, refl)
