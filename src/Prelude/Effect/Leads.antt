-- ===== src/Prelude/Effect/Leads.antt =====
-- Where a block leads, however it ends. One rule for each way to build a block.
use mathlib.Core.Path.{◌≡◌, refl}
use lunarys_bridge.Prelude.Effect.{
  Result, ok, thrown, Eff, lift, continue, ◌>>=◌, handle, try_catch, Failure,
}
use lunarys_bridge.Prelude.Effect.Ends.{After, Keeps}

-- Whatever it returns, it leads from `P` to `R`.
pub record Leads {S A : Type 0} (P R : S → Type 0) (m : Eff S A) : Type 0 where
  pub at : (s : S) → P s → R (m s).1

module _ {S A B : Type 0} {R : S → Type 0} where
  continue-Leads :
      (f : A → Eff S B) (x : Result A × S) → R x.1 → ((a : A) → Keeps R (f a)) → R (continue f x).1
  continue-Leads f (thrown e, s) h k = h
  continue-Leads f (ok a, s) h k = after_any (f a s) ((k a).at s h)
    where
      after_any : (y : Result B × S) → After R (λ _. R) y → R y.1
      after_any (ok b, t) q = q
      after_any (thrown e, t) q = q

  -- The first part leads there, and the rest keeps it.
  pub Leads-bind :
      {P : S → Type 0} (m : Eff S A) (f : A → Eff S B)
      → Leads P R m
      → ((a : A) → Keeps R (f a))
      → Leads P R (m >>= f)
  unfolding ◌>>=◌
  Leads-bind m f h k = record { at = λ s p. continue-Leads f (m s) (h.at s p) k }

module _ {S A B : Type 0} {P R : S → Type 0} (weaken : (s : S) → P s → R s) where
  continue_then :
      (f : A → Eff S B) (x : Result A × S)
      → After P (λ _. P) x
      → ((a : A) → x.0 ≡ ok a → Leads P R (f a))
      → R (continue f x).1
  continue_then f (ok a, s) p k = (k a refl).at s p
  continue_then f (thrown e, s) p k = weaken s p

  -- The first part keeps `P`, which is enough if it throws; the rest leads on.
  pub Leads-then :
      (m : Eff S A) (f : A → Eff S B)
      → Keeps P m
      → ((a : A) → Leads P R (f a))
      → Leads P R (m >>= f)
  unfolding ◌>>=◌
  Leads-then m f h k = record { at = λ s p. continue_then f (m s) (h.at s p) (λ a e. k a) }

  -- The same where the rest needs to know that the first part returned.
  pub Leads-known :
      (m : Eff S A) (f : A → Eff S B)
      → Keeps P m
      → ((s : S) (a : A) → (m s).0 ≡ ok a → Leads P R (f a))
      → Leads P R (m >>= f)
  unfolding ◌>>=◌
  Leads-known m f h k = record { at = λ s p. continue_then f (m s) (h.at s p) (k s) }

  -- The same of a value that was computed, which is known to the rest.
  pub Leads-lift :
      (x : Result A) (f : A → Eff S B)
      → ((a : A) → x ≡ ok a → Leads P R (f a))
      → Leads P R (lift x >>= f)
  unfolding ◌>>=◌
  Leads-lift x f k = record { at = λ s p. continue_then f (x, s) (kept x s p) k }
    where
      kept : {A : Type 0} (x : Result A) (s : S) → P s → After P (λ _. P) (x, s)
      kept (ok a) s p = p
      kept (thrown e) s p = p

module _ {S A : Type 0} {P : S → Type 0} where
  pub Leads-Keeps : (m : Eff S A) → Keeps P m → Leads P P m
  Leads-Keeps m h = record { at = λ s p. go (m s) (h.at s p) }
    where
      go : {A : Type 0} (x : Result A × S) → After P (λ _. P) x → P x.1
      go (ok a, s) q = q
      go (thrown e, s) q = q

module _ {S A : Type 0} {R : S → Type 0} where
  handle-Leads :
      (f : Failure → Eff S A) (x : Result A × S)
      → R x.1
      → ((e : Failure) → Leads R R (f e))
      → R (handle f x).1
  handle-Leads f (ok a, s) h k = h
  handle-Leads f (thrown e, s) h k = (k e).at s h

  pub Leads-try :
      {P : S → Type 0} (m : Eff S A) (f : Failure → Eff S A)
      → Leads P R m
      → ((e : Failure) → Leads R R (f e))
      → Leads P R (try_catch m f)
  unfolding try_catch
  Leads-try m f h k = record { at = λ s p. handle-Leads f (m s) (h.at s p) k }

module _ {S A : Type 0} {P R : S → Type 0} where
  pub Leads-map : {Q : S → Type 0} (m : Eff S A) → Leads P Q m → ((s : S) → Q s → R s) → Leads P R m
  Leads-map m h f = record { at = λ s p. f (m s).1 (h.at s p) }

module _ {S A B : Type 0} {Q R : S → Type 0} where
  continue-seq :
      (weaken : (s : S) → Q s → R s) (f : A → Eff S B) (x : Result A × S)
      → Q x.1
      → ((a : A) → Leads Q R (f a))
      → R (continue f x).1
  continue-seq weaken f (ok a, s) q k = (k a).at s q
  continue-seq weaken f (thrown e, s) q k = weaken s q

  -- One step after the other.
  pub Leads-seq :
      {P : S → Type 0}
      → ((s : S) → Q s → R s)
      → (m : Eff S A) (f : A → Eff S B) → Leads P Q m
      → ((a : A) → Leads Q R (f a))
      → Leads P R (m >>= f)
  unfolding ◌>>=◌
  Leads-seq weaken m f h k = record { at = λ s p. continue-seq weaken f (m s) (h.at s p) k }

module _ {S A B : Type 0} {Q R : S → Type 0} where
  continue-seq_known :
      (weaken : (s : S) → Q s → R s) (f : A → Eff S B) (x : Result A × S)
      → Q x.1
      → ((a : A) → x.0 ≡ ok a → Leads Q R (f a))
      → R (continue f x).1
  continue-seq_known weaken f (ok a, s) q k = (k a refl).at s q
  continue-seq_known weaken f (thrown e, s) q k = weaken s q

  -- The same where the rest needs to know from where the first step returned.
  pub Leads-seq_known :
      {P : S → Type 0}
      → ((s : S) → Q s → R s)
      → (m : Eff S A) (f : A → Eff S B) → Leads P Q m
      → ((s : S) (a : A) → P s → (m s).0 ≡ ok a → Leads Q R (f a))
      → Leads P R (m >>= f)
  unfolding ◌>>=◌
  Leads-seq_known weaken m f h k = record {
    at = λ s p. continue-seq_known weaken f (m s) (h.at s p) (λ a e. k s a p e);
  }
