-- ===== src/Prelude/Numeral/Trimmed.antt =====
-- A text without white space is not changed by `trim`.
use Prim.Native.Nat.{ℕ, ◌≤◌}
use mathlib.Core.Path.{◌≡◌, refl}
use mathlib.Core.Bool.{false}
use mathlib.Core.List.{[], ◌∷◌, reverse, reverse-reverse}
use native.Mathlib.Omega.{arith}
use lunarys_bridge.Prelude.Lists.{All, All-reverse}
use lunarys_bridge.Prelude.Text.{Text}
use lunarys_bridge.Prelude.Numeral.{is_space, trim_start, trim}

abbrev pub IsSolid : ℕ → Type 0
IsSolid c = is_space c ≡ false

-- The printed characters of ASCII.
pub printed-IsSolid : (c : ℕ) → 33 ≤ c → c ≤ 126 → IsSolid c
unfolding is_space
printed-IsSolid c h k = ground arith

trim_start-of-IsSolid : (s : Text) → All IsSolid s → trim_start s ≡ s
unfolding trim_start
trim_start-of-IsSolid [] h = refl
trim_start-of-IsSolid (c ∷ s) (p, h) = rw p refl

pub trim-of-IsSolid : (s : Text) → All IsSolid s → trim s ≡ s
unfolding trim
trim-of-IsSolid s h =
    rw (trim_start-of-IsSolid s h, trim_start-of-IsSolid (reverse s) (All-reverse IsSolid s h))
      (reverse-reverse s)
