-- ===== src/Prelude/Prefix.antt =====
-- Texts that begin with a given text.
use mathlib.Core.Path.{◌≡◌, refl}
use mathlib.Core.Bool.{true}
use lunarys_bridge.Prelude.{arith, [], ◌∷◌, ◌++◌, length, drop}
use lunarys_bridge.Prelude.Text.{Text, starts_with}

pub starts_with-drop : (p s : Text) → starts_with p s ≡ true → s ≡ p ++ drop (length p) s
unfolding starts_with
starts_with-drop [] s h = refl
starts_with-drop (c ∷ p) [] h = absurd (cc)
starts_with-drop (c ∷ p) (d ∷ s) h = ground (arith, h, starts_with-drop p s)

pub starts_with-append : (p t : Text) → starts_with p (p ++ t) ≡ true
unfolding starts_with
starts_with-append [] t = refl
starts_with-append (c ∷ p) t = ground (arith, starts_with-append p t)
