-- ===== src/Prelude/Double.antt =====
-- `Number(n)` of a bigint: the nearest double.
use lunarys_bridge.Prelude.Tests.{ltb, ◌==◌, if◌then◌else◌}
use Prim.Native.Nat.{ℕ, zero, suc, ◌+◌, ◌*◌, ◌/◌, ◌%◌, ◌^◌}
use mathlib.Core.Bool.{◌&&◌, ◌||◌}

-- How often a number is halved until it has 53 bits.
unfoldable pub exponent : ℕ → ℕ → ℕ
exponent zero n = 0
exponent (suc fuel) n = let rest = exponent fuel (n / 2) in if ltb n (2 ^ 53) then 0 else suc rest

abbrev rounded : ℕ → ℕ → ℕ → ℕ
rounded q r unit =
    if ltb unit (2 * r) || (2 * r == unit && q % 2 == 1) then (q + 1) * unit else q * unit

-- `Number(n)` of a bigint below 2^256: the nearest double, and of two the even one.
unfoldable pub to_number : ℕ → ℕ
to_number n = let unit = 2 ^ exponent 256 n in rounded (n / unit) (n % unit) unit
