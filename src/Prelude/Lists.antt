-- ===== src/Prelude/Lists.antt =====
-- Lists over the native numbers: JavaScript's `length`, `[i]`, `slice` and `findIndex`.
pub mod Parts
use Prim.Native.Nat.{ℕ, zero, suc, ◌+◌}
use mathlib.Core.Path.{◌≡◌, refl}
use mathlib.Core.Bool.{Bool, true, false, ◌||◌}
use mathlib.Core.Option.{Option, none, some}
use mathlib.Core.List.{List, [], ◌∷◌, ◌++◌, reverse, reverse-cons}
use native.Mathlib.Omega.{arith}
use mathlib.Core.Logic.{inl, inr}
use lunarys_bridge.Prelude.Tests.{if◌then◌else◌, Bool-cases}

module _ {ℓ} {A : Type ℓ} where
  abbrev pub length : List A → ℕ
  length [] = 0
  length (x ∷ xs) = suc (length xs)

  abbrev pub get_elem? : List A → ℕ → Option A
  get_elem? [] i = none
  get_elem? (x ∷ xs) zero = some x
  get_elem? (x ∷ xs) (suc i) = get_elem? xs i

  abbrev pub take : ℕ → List A → List A
  take zero xs = []
  take (suc n) [] = []
  take (suc n) (x ∷ xs) = x ∷ take n xs

  abbrev pub drop : ℕ → List A → List A
  drop zero xs = xs
  drop (suc n) [] = []
  drop (suc n) (x ∷ xs) = drop n xs

  abbrev pub replicate : ℕ → A → List A
  replicate zero x = []
  replicate (suc n) x = x ∷ replicate n x

  -- `xs.some(p)`
  abbrev pub any : (A → Bool) → List A → Bool
  any p [] = false
  any p (x ∷ xs) = p x || any p xs

  -- `xs.find(p)`
  abbrev pub find? : (A → Bool) → List A → Option A
  find? p [] = none
  find? p (x ∷ xs) = if p x then some x else find? p xs

  -- `xs.filter(p)`
  abbrev pub select : (A → Bool) → List A → List A
  select p [] = []
  select p (x ∷ xs) = if p x then x ∷ select p xs else select p xs

  abbrev pub All {κ} : (A → Type κ) → List A → Type κ
  All P [] = Unit
  All P (x ∷ xs) = P x × All P xs

  pub length-append : (xs ys : List A) → length (xs ++ ys) ≡ length xs + length ys
  length-append [] ys = omega arith
  length-append (x ∷ xs) ys = omega (arith, length-append xs ys)

  pub length-replicate : (n : ℕ) (x : A) → length (replicate n x) ≡ n
  length-replicate zero x = refl
  length-replicate (suc n) x = omega (arith, length-replicate n x)

  pub All-append {κ} : (P : A → Type κ) (xs ys : List A) → All P xs → All P ys → All P (xs ++ ys)
  All-append P [] ys h k = k
  All-append P (x ∷ xs) ys (p, h) k = (p, All-append P xs ys h k)

  pub All-reverse {κ} : (P : A → Type κ) (xs : List A) → All P xs → All P (reverse xs)
  All-reverse P [] h = h
  All-reverse P (x ∷ xs) (p, h) =
      rw (reverse-cons) (All-append P (reverse xs) (x ∷ []) (All-reverse P xs h) (p, tt))

  -- Some element passes both tests.
  pub any-select :
      (p q : A → Bool) (xs : List A)
      → any p (select q xs) ≡ true
      → (i : ℕ) × (x : A) × (get_elem? xs i ≡ some x) × (q x ≡ true) × (p x ≡ true)
  any-select p q [] h = cc
  any-select p q (x ∷ xs) h = elim (Bool-cases (q x)) [
    | inr unfit ↦ (let (i, y, at, a, b) = any-select p q xs (rw unfit at h) in (suc i, y, at, a, b))
    | inl fits ↦ elim (Bool-cases (p x)) [
      | inl good ↦ (0, x, refl, fits, good)
      | inr bad ↦
          (let (i, y, at, a, b) = any-select p q xs (rw (fits, bad) at h) in (suc i, y, at, a, b))
    ]
  ]

  pub any-select_intro :
      (p q : A → Bool) (xs : List A) (i : ℕ) (x : A)
      → get_elem? xs i ≡ some x
      → q x ≡ true
      → p x ≡ true
      → any p (select q xs) ≡ true
  any-select_intro p q [] i x h a b = cc
  any-select_intro p q (y ∷ ys) zero x h a b = ground arith
  any-select_intro p q (y ∷ ys) (suc i) x h a b =
      let rest = any-select_intro p q ys i x h a b in ground arith
