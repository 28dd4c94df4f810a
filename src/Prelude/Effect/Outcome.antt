-- ===== src/Prelude/Effect/Outcome.antt =====
-- What a block in a `try` comes to, from what its first part comes to.
use mathlib.Core.Path.{◌≡◌, refl, ap, ◌∙◌}
use lunarys_bridge.Prelude.Effect.{
  Failure, Result, ok, thrown, Eff, pure, continue, handle, ◌>>=◌, try_catch,
}

module _ {S A B : Type 0} where
  -- Two parts, with the values of both.
  abbrev pub both : Eff S A → (A → Eff S B) → Eff S (A × B)
  both m g = m >>= λ a. g a >>= λ b. pure (a, b)

module _ {S A B C : Type 0} (m : Eff S A) (g : A → Eff S B) (k : A → B → Eff S C) where
  abbrev uncurried : A × B → Eff S C
  uncurried x = k x.0 x.1

  second :
      (a : A) (y : Result B × S)
      → continue (k a) y ≡ continue uncurried (continue (λ b. pure (a, b)) y)
  second a (thrown e, s) = refl
  second a (ok b, s) = refl

  first :
      (x : Result A × S)
      → continue (λ a. g a >>= k a) x
        ≡ continue uncurried (continue (λ a. g a >>= λ b. pure (a, b)) x)
  unfolding ◌>>=◌
  first (thrown e, s) = refl
  first (ok a, s) = second a (g a s)

  pub try-both-thrown :
      (f : Failure → Eff S C) (s : S) {t : S} {e : Failure}
      → both m g s ≡ (thrown e, t)
      → try_catch (m >>= λ a. g a >>= k a) f s ≡ f e t
  unfolding ◌>>=◌ try_catch
  try-both-thrown f s h = ap (handle f) (first (m s)) ∙ ap (λ x. handle f (continue uncurried x)) h

  pub try-both-ok :
      (f : Failure → Eff S C) (s : S) {t u : S} {a : A} {b : B} {c : C}
      → both m g s ≡ (ok (a, b), t)
      → k a b t ≡ (ok c, u)
      → try_catch (m >>= λ a. g a >>= k a) f s ≡ (ok c, u)
  unfolding ◌>>=◌ try_catch
  try-both-ok f s h r =
      ap (handle f) (first (m s)) ∙ ap (λ x. handle f (continue uncurried x)) h ∙ ap (handle f) r
