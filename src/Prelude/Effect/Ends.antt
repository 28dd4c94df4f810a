-- ===== src/Prelude/Effect/Ends.antt =====
-- How a block ends: `P` holds if it returns, and `Q` of the error's message if it throws. One rule
-- for each way to build a block.
use mathlib.Core.Path.{◌≡◌, refl, sym, subst}
use mathlib.Core.Logic.{◌≢◌}
use mathlib.Core.Bool.{Bool, true, false}
use lunarys_bridge.Prelude.Tests.{if◌then◌else◌}
use lunarys_bridge.Prelude.Text.{Text}
use lunarys_bridge.Prelude.Effect.{
  ErrorKind, Failure, Result, ok, thrown, Eff, pure, raise, lift, continue, ◌>>=◌, handle,
  try_catch,
}

abbrev pub After : {S A : Type 0} → (S → Type 0) → (Text → S → Type 0) → Result A × S → Type 0
After P Q (ok a, s) = P s
After P Q (thrown e, s) = Q e.message s

pub record Ends {S A : Type 0} (P : S → Type 0) (Q : Text → S → Type 0) (m : Eff S A) : Type 0 where
  pub at : (s : S) → P s → After P Q (m s)

-- `P` holds however the block ends.
abbrev pub Keeps : {S A : Type 0} → (S → Type 0) → Eff S A → Type 0
Keeps P m = Ends P (λ _. P) m

module _ {S A B : Type 0} {P : S → Type 0} {Q : Text → S → Type 0} where
  continue-After :
      (f : A → Eff S B) (r : Result A × S)
      → After P Q r
      → ((a : A) → Ends P Q (f a))
      → After P Q (continue f r)
  continue-After f (ok a, s) h k = (k a).at s h
  continue-After f (thrown e, s) h k = h

  pub Ends-bind :
      (m : Eff S A) (f : A → Eff S B) → Ends P Q m → ((a : A) → Ends P Q (f a)) → Ends P Q (m >>= f)
  unfolding ◌>>=◌
  Ends-bind m f h k = record { at = λ s p. continue-After f (m s) (h.at s p) k }

module _ {S A : Type 0} {P : S → Type 0} {Q : Text → S → Type 0} where
  pub Ends-pure : (a : A) → Ends P Q (pure a)
  Ends-pure a = record { at = λ s p. p }

  pub Ends-lift : (r : Result A) (a : A) → r ≡ ok a → Ends P Q (lift r)
  Ends-lift r a e = record { at = λ s p. subst (λ x. After P Q (x, s)) (sym e) p }

  pub Ends-if : (b : Bool) (m n : Eff S A) → Ends P Q m → Ends P Q n → Ends P Q (if b then m else n)
  Ends-if true m n h k = h
  Ends-if false m n h k = k

  handle-After :
      (f : Failure → Eff S A) (r : Result A × S)
      → After P (λ _. P) r
      → ((e : Failure) → Ends P Q (f e))
      → After P Q (handle f r)
  handle-After f (ok a, s) h k = h
  handle-After f (thrown e, s) h k = (k e).at s h

  pub Ends-try :
      (m : Eff S A) (f : Failure → Eff S A)
      → Keeps P m
      → ((e : Failure) → Ends P Q (f e))
      → Ends P Q (try_catch m f)
  unfolding try_catch
  Ends-try m f h k = record { at = λ s p. handle-After f (m s) (h.at s p) k }

pub ruleset ends_rules = (Ends-bind, Ends-pure, Ends-if, Ends-try)

module _ {S A : Type 0} {P : S → Type 0} where
  -- What leaves the state alone keeps anything.
  pub Keeps-lift : (r : Result A) → Keeps P (lift r)
  Keeps-lift (ok a) = record { at = λ s p. p }
  Keeps-lift (thrown e) = record { at = λ s p. p }

  pub Keeps-raise : (k : ErrorKind) (m : Text) → Keeps P (raise {A = A} k m)
  Keeps-raise k m = record { at = λ s p. p }

-- The same with a promise of the value that is returned.
abbrev pub Post : {S A : Type 0} → (A → S → Type 0) → (Text → S → Type 0) → Result A × S → Type 0
Post R Q (ok a, s) = R a s
Post R Q (thrown e, s) = Q e.message s

pub record Yields {S A : Type 0} (P : S → Type 0) (R : A → S → Type 0) (Q : Text → S → Type 0)
    (m : Eff S A) : Type 0 where
  pub at : (s : S) → P s → Post R Q (m s)

module _ {S A B : Type 0} {P : S → Type 0} {R : B → S → Type 0} {Q : Text → S → Type 0} where
  continue-Post :
      (f : A → Eff S B) (r : Result A × S)
      → After P Q r
      → ((a : A) → Yields P R Q (f a))
      → Post R Q (continue f r)
  continue-Post f (ok a, s) h k = (k a).at s h
  continue-Post f (thrown e, s) h k = h

  pub Yields-bind :
      (m : Eff S A) (f : A → Eff S B)
      → Ends P Q m
      → ((a : A) → Yields P R Q (f a))
      → Yields P R Q (m >>= f)
  unfolding ◌>>=◌
  Yields-bind m f h k = record { at = λ s p. continue-Post f (m s) (h.at s p) k }

module _ {S A B : Type 0} {R : A → S → Type 0} {T : B → S → Type 0} {Q : Text → S → Type 0} where
  continue-Post_then :
      (f : A → Eff S B) (r : Result A × S)
      → Post R Q r
      → ((a : A) → Yields (R a) T Q (f a))
      → Post T Q (continue f r)
  continue-Post_then f (ok a, s) h k = (k a).at s h
  continue-Post_then f (thrown e, s) h k = h

  -- The rest starts from what the first part promises of its value.
  pub Yields-then :
      {P : S → Type 0}
      → (m : Eff S A) (f : A → Eff S B) → Yields P R Q m
      → ((a : A) → Yields (R a) T Q (f a))
      → Yields P T Q (m >>= f)
  unfolding ◌>>=◌
  Yields-then m f h k = record { at = λ s p. continue-Post_then f (m s) (h.at s p) k }

module _ {S A : Type 0} {P Q : S → Type 0} where
  -- What is kept is promised of every value.
  pub Yields-Keeps :
      (m : Eff S A) → Keeps P m → ((s : S) → P s → Q s) → Yields P (λ _. P) (λ _. Q) m
  Yields-Keeps m h f = record { at = λ s p. go (m s) (h.at s p) }
    where
      go : (r : Result A × S) → After P (λ _. P) r → Post (λ _. P) (λ _. Q) r
      go (ok a, s) p = p
      go (thrown e, s) p = f s p

module _ {S A : Type 0} {P : S → Type 0} {R : A → S → Type 0} {Q : Text → S → Type 0} where
  handle-Post :
      (f : Failure → Eff S A) (r : Result A × S)
      → Post R (λ _. P) r
      → ((e : Failure) → Yields P R Q (f e))
      → Post R Q (handle f r)
  handle-Post f (ok a, s) h k = h
  handle-Post f (thrown e, s) h k = (k e).at s h

  pub Yields-try :
      (m : Eff S A) (f : Failure → Eff S A)
      → Yields P R (λ _. P) m
      → ((e : Failure) → Yields P R Q (f e))
      → Yields P R Q (try_catch m f)
  unfolding try_catch
  Yields-try m f h k = record { at = λ s p. handle-Post f (m s) (h.at s p) k }

module _ {S A B : Type 0} (P : S → Type 0) where
  continue-throws :
      (f : A → Eff S B) (r : Result A × S)
      → After P (λ _. P) r
      → ((a : A) → r.0 ≢ ok a)
      → After P (λ _. P) (continue f r)
  continue-throws f (ok a, s) h k = absurd (k a refl)
  continue-throws f (thrown e, s) h k = h

  -- What follows a part that always throws does not matter.
  pub Keeps-throws :
      (m : Eff S A) (f : A → Eff S B)
      → Keeps P m
      → ((s : S) (a : A) → (m s).0 ≢ ok a)
      → Keeps P (m >>= f)
  unfolding ◌>>=◌
  Keeps-throws m f h k = record { at = λ s p. continue-throws f (m s) (h.at s p) (k s) }
