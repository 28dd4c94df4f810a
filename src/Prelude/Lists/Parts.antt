-- ===== src/Prelude/Lists/Parts.antt =====
-- `slice`: what the parts of a list are.
use Prim.Native.Nat.{ℕ, zero, suc, ◌+◌, ◌-◌, ◌≤◌}
use mathlib.Core.Path.{◌≡◌, refl, sym, ap, ◌∙◌}
use mathlib.Core.List.{List, [], ◌∷◌, ◌++◌}
use native.Mathlib.Omega.{arith}
use lunarys_bridge.Prelude.Lists.{length, take, drop}

suc-add : (k j : ℕ) → suc (k + j) ≡ suc k + j
suc-add k j = omega arith

module _ {ℓ} {A : Type ℓ} where
  pub length-take : (k : ℕ) (xs : List A) → k ≤ length xs → length (take k xs) ≡ k
  length-take zero xs h = refl
  length-take (suc k) [] h = absurd (omega arith)
  length-take (suc k) (x ∷ xs) h = omega (arith, length-take k xs)

  pub take-append-drop : (k : ℕ) (xs : List A) → take k xs ++ drop k xs ≡ xs
  take-append-drop zero xs = refl
  take-append-drop (suc k) [] = refl
  take-append-drop (suc k) (x ∷ xs) = ap (λ t. x ∷ t) (take-append-drop k xs)

  pub drop-nil : (j : ℕ) → drop {A = A} j [] ≡ []
  drop-nil zero = refl
  drop-nil (suc j) = refl

  pub drop-drop : (j k : ℕ) (xs : List A) → drop j (drop k xs) ≡ drop (k + j) xs
  drop-drop j zero xs = ap (λ n. drop n xs) (omega arith)
  drop-drop j (suc k) [] = drop-nil j ∙ sym (drop-nil (suc k + j))
  drop-drop j (suc k) (x ∷ xs) = drop-drop j k xs ∙ ap (λ n. drop n (x ∷ xs)) (suc-add k j)

  -- What follows a first part.
  pub drop-append : (xs ys : List A) (k : ℕ) → drop (length xs + k) (xs ++ ys) ≡ drop k ys
  drop-append [] ys k = ap (λ n. drop n ys) (omega arith)
  drop-append (x ∷ xs) ys k =
      ap (λ n. drop n (x ∷ xs ++ ys)) (sym (suc-add (length xs) k)) ∙ drop-append xs ys k

  pub length-drop : (k : ℕ) (xs : List A) → length (drop k xs) ≡ length xs - k
  length-drop zero xs = omega arith
  length-drop (suc k) [] = omega arith
  length-drop (suc k) (x ∷ xs) = omega (arith, length-drop k xs)

  take-nil : (j : ℕ) → take {A = A} j [] ≡ []
  take-nil zero = refl
  take-nil (suc j) = refl

  -- A part and the part behind it.
  pub take-take-drop : (k j : ℕ) (xs : List A) → take k xs ++ take j (drop k xs) ≡ take (k + j) xs
  take-take-drop zero j xs = ap (λ n. take n xs) (omega arith)
  take-take-drop (suc k) j [] = take-nil j ∙ sym (take-nil (suc k + j))
  take-take-drop (suc k) j (x ∷ xs) =
      ap (λ t. x ∷ t) (take-take-drop k j xs) ∙ ap (λ n. take n (x ∷ xs)) (suc-add k j)
