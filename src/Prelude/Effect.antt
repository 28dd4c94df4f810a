-- ===== src/Prelude/Effect.antt =====
-- `async` code: it reads and writes a state, and returns or throws. What was written before a
-- throw stays written.
pub mod Outcome
pub mod Ends
pub mod Leads
use mathlib.Core.Path.{◌≡◌, refl}
use mathlib.Core.Logic.{◌≢◌, ◌⊎◌, inl, inr}
use mathlib.Core.Bool.{Bool, true, false}
use lunarys_bridge.Prelude.Tests.{if◌then◌else◌}
use lunarys_bridge.Prelude.Text.{Text}

-- The classes that the program throws or meets: `Error`, Nest's two exceptions, and the three that
-- JavaScript itself throws for a bad bigint text, for a member of `undefined` and for a number that
-- does not fit.
pub data ErrorKind : Type 0 where
  plain bad_request not_found syntax type_error range_error : ErrorKind

pub record Failure : Type 0 where
  pub kind : ErrorKind
  pub message : Text

pub data Result {ℓ} (A : Type ℓ) : Type ℓ where
  ok : A → Result A
  thrown : Failure → Result A

pub ok-injective {ℓ} : {A : Type ℓ} {a b : A} → ok a ≡ ok b → a ≡ b
ok-injective h = cc

pub thrown-ne-ok {ℓ} : {A : Type ℓ} {e : Failure} {a : A} → thrown e ≢ ok a
thrown-ne-ok h = cc

abbrev pub Eff {ℓ} : Type ℓ → Type ℓ → Type ℓ
Eff S A = S → Result A × S

module _ {ℓ} {S A : Type ℓ} where
  abbrev pub pure : A → Eff S A
  pure a s = (ok a, s)

  abbrev pub raise : ErrorKind → Text → Eff S A
  raise k m s = (thrown (record { kind = k; message = m }), s)

  abbrev pub rethrow : Failure → Eff S A
  rethrow e s = (thrown e, s)

  abbrev pub lift : Result A → Eff S A
  lift r s = (r, s)

module _ {ℓ} {S A B : Type ℓ} where
  abbrev pub continue : (A → Eff S B) → Result A × S → Result B × S
  continue f (ok a, s) = f a s
  continue f (thrown e, s) = (thrown e, s)

  -- Shut, so that a block keeps its shape in a hypothesis.
  infixl 5 ◌>>=◌ ◌>>◌
  unfoldable pub ◌>>=◌ : Eff S A → (A → Eff S B) → Eff S B
  ◌>>=◌ m f s = continue f (m s)

  abbrev pub ◌>>◌ : Eff S A → Eff S B → Eff S B
  m >> k = m >>= λ _. k

  -- A first part whose outcome is known.
  pub bind-at :
      (m : Eff S A) (f : A → Eff S B) (s : S) (a : A) (t : S)
      → m s ≡ (ok a, t)
      → (m >>= f) s ≡ f a t
  unfolding ◌>>=◌
  bind-at m f s a t h = rw h refl

  pub continue-ok :
      (f : A → Eff S B) (r : Result A × S) {b : B}
      → (continue f r).0 ≡ ok b
      → (a : A) × (r.0 ≡ ok a) × ((f a r.1).0 ≡ ok b) × (continue f r ≡ f a r.1)
  continue-ok f (ok a, s) h = (a, refl, h, refl)
  continue-ok f (thrown e, s) h = cc

  -- A block that returned: its first part returned, and so did the rest from there.
  pub bind-ok :
      (m : Eff S A) (f : A → Eff S B) {s : S} {b : B}
      → ((m >>= f) s).0 ≡ ok b
      → (a : A) × ((m s).0 ≡ ok a) × ((f a (m s).1).0 ≡ ok b) × ((m >>= f) s ≡ f a (m s).1)
  unfolding ◌>>=◌
  bind-ok m f {s} h = continue-ok f (m s) h

module _ {ℓ} {S A : Type ℓ} where
  abbrev pub handle : (Failure → Eff S A) → Result A × S → Result A × S
  handle f (ok a, s) = (ok a, s)
  handle f (thrown e, s) = f e s

  -- `try { m } catch (e) { f(e) }`
  unfoldable pub try_catch : Eff S A → (Failure → Eff S A) → Eff S A
  try_catch m f s = handle f (m s)

  -- A `try` that returned: its body did, or its handler did.
  pub try-ok :
      (m : Eff S A) (f : Failure → Eff S A) {s : S} {a : A}
      → (try_catch m f s).0 ≡ ok a
      → ((m s).0 ≡ ok a) ⊎ ((e : Failure) × ((f e (m s).1).0 ≡ ok a))
  unfolding try_catch
  try-ok m f {s} {a} h = go (m s) h
    where
      go :
          (r : Result A × S)
          → (handle f r).0 ≡ ok a
          → (r.0 ≡ ok a) ⊎ ((e : Failure) × ((f e r.1).0 ≡ ok a))
      go (ok b, t) k = inl k
      go (thrown e, t) k = inr (e, k)
