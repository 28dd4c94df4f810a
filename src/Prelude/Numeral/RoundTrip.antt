-- ===== src/Prelude/Numeral/RoundTrip.antt =====
-- What is printed is read back, in every radix and with either sign.
use Prim.Native.Nat.{ℕ, zero, suc, ◌+◌, ◌*◌, ◌/◌, ◌%◌, ◌≤◌, ◌<◌}
use mathlib.Core.Path.{◌≡◌, refl, ◌∙◌, sym, ap}
use mathlib.Core.Logic.{inl, inr}
use mathlib.Core.Bool.{true, false}
use mathlib.Core.Option
use mathlib.Core.Option.{some}
use mathlib.Core.List.{[], ◌∷◌, reverse, reverse-reverse}
use native.Mathlib.Omega.{arith}
use native.Mathlib.Nat.{mod-lt, div-add-mod', div-lt_self}
use lunarys_bridge.Prelude.Tests.{◌==◌, Bool-cases}
use lunarys_bridge.Prelude.Lists.{All, All-reverse}
use lunarys_bridge.Prelude.Int.{ℤ, pos, negsuc}
use lunarys_bridge.Prelude.Text.{Text}
use lunarys_bridge.Prelude.Numeral.{
  digit_char, digit_value, emit, digits, to_text, scan, number, trim_start, trim, signed, unspaced,
  big_int,
}

digit_value-digit_char : (d : ℕ) → d < 36 → digit_value (digit_char d) ≡ some d
unfolding digit_value digit_char
digit_value-digit_char d h = ground arith

-- Reading one more digit.
scan-digit :
    (r d acc : ℕ) (out : Text)
    → d < r
    → r ≤ 36
    → scan r (digit_char d ∷ out) acc ≡ scan r out (acc * r + d)
unfolding scan
scan-digit r d acc out h k = rw (digit_value-digit_char d (omega arith)) (ground arith)

last_digit : (r n : ℕ) → 0 < r → (n / r == 0) ≡ true → 0 * r + n % r ≡ n
last_digit r n h e = grind (arith, div-add-mod' n r)

zero_quotient : (r : ℕ) → (0 / r == 0) ≡ false → ⊥
zero_quotient r e = grind (arith, div-add-mod' 0 r)

quotient_small : (r f n : ℕ) → 2 ≤ r → n < suc f → (n / r == 0) ≡ false → n / r < f
quotient_small r f zero h l e = absurd (zero_quotient r e)
quotient_small r f (suc n) h l e = omega (arith, div-lt_self {n = suc n} {k = r} (omega arith) h)

scan-emit :
    (r f n : ℕ) (out : Text) → 2 ≤ r → r ≤ 36 → n < f → scan r (emit r f n out) 0 ≡ scan r out n
unfolding emit
scan-emit r zero n out h k l = absurd (omega arith)
scan-emit r (suc f) n out h k l = elim (Bool-cases (n / r == 0)) [
  | inl done ↦
      rw (done, emit)
        (scan-digit r (n % r) 0 out (mod-lt n (omega arith)) k
          ∙ ap (scan r out) (last_digit r n (omega arith) done))
  | inr more ↦
      rw (more, emit)
        (scan-emit r f (n / r) (digit_char (n % r) ∷ out) h k (quotient_small r f n h l more)
          ∙ scan-digit r (n % r) (n / r) out (mod-lt n (omega arith)) k
          ∙ ap (scan r out) (div-add-mod' n r))
]

emit-All :
    (P : ℕ → Type 0) (r f n : ℕ) (out : Text)
    → ((d : ℕ) → d < r → P (digit_char d))
    → 0 < r
    → All P out
    → All P (emit r f n out)
unfolding emit
emit-All P r zero n out h k l = l
emit-All P r (suc f) n out h k l = elim (Bool-cases (n / r == 0)) [
  | inl done ↦ rw (done, emit) (h (n % r) (mod-lt n k), l)
  | inr more ↦ rw (more, emit) (emit-All P r f (n / r) _ h k (h (n % r) (mod-lt n k), l))
]

emit-cons : (r f n c : ℕ) (out : Text) → (d : ℕ) × (s : Text) × (emit r f n (c ∷ out) ≡ d ∷ s)
unfolding emit
emit-cons r zero n c out = (c, out, refl)
emit-cons r (suc f) n c out = elim (Bool-cases (n / r == 0)) [
  | inl done ↦ rw (done, emit) (digit_char (n % r), c ∷ out, refl)
  | inr more ↦ rw (more, emit) (emit-cons r f (n / r) (digit_char (n % r)) (c ∷ out))
]

-- A printed number has a first digit.
pub digits-cons : (r n : ℕ) → (d : ℕ) × (s : Text) × (digits r n ≡ d ∷ s)
unfolding digits emit
digits-cons r n = elim (Bool-cases (n / r == 0)) [
  | inl done ↦ rw (done, emit) (digit_char (n % r), [], refl)
  | inr more ↦ rw (more, emit) (emit-cons r n (n / r) (digit_char (n % r)) [])
]

pub number-scan : (r : ℕ) (s : Text) {d : ℕ} {t : Text} → s ≡ d ∷ t → number r s ≡ scan r s 0
unfolding number
number-scan r s {d} {t} e = rw e

-- The digits of a number in radix 2 to 36 are read back as that number.
pub number-digits : (r n : ℕ) → 2 ≤ r → r ≤ 36 → number r (digits r n) ≡ some n
unfolding digits scan
number-digits r n h k =
    let (d, s, e) = digits-cons r n in
    number-scan r (digits r n) e ∙ scan-emit r (suc n) n [] h k (omega arith)

abbrev pub IsDigit : ℕ → Type 0
IsDigit c = (b'0' ≤ c) × (c ≤ b'9')

-- A sign or a digit.
abbrev pub IsInk : ℕ → Type 0
IsInk c = (b'-' ≤ c) × (c ≤ b'9')

digit_char-IsDigit : (d : ℕ) → d < 10 → IsDigit (digit_char d)
unfolding digit_char
digit_char-IsDigit d h = ground arith

-- A decimal print holds digits only.
pub digits-IsDigit : (n : ℕ) → All IsDigit (digits 10 n)
unfolding digits
digits-IsDigit n = emit-All IsDigit 10 (suc n) n [] digit_char-IsDigit (omega arith) tt

pub IsDigit-IsInk : (s : Text) → All IsDigit s → All IsInk s
IsDigit-IsInk [] h = tt
IsDigit-IsInk (c ∷ s) (p, h) = ((omega arith, omega arith), IsDigit-IsInk s h)

trim_start-of-IsInk : (s : Text) → All IsInk s → trim_start s ≡ s
unfolding trim_start
trim_start-of-IsInk [] h = refl
trim_start-of-IsInk (c ∷ s) (p, h) = ground arith

pub trim-of-IsInk : (s : Text) → All IsInk s → trim s ≡ s
unfolding trim
trim-of-IsInk s h =
    rw (trim_start-of-IsInk s h, trim_start-of-IsInk (reverse s) (All-reverse IsInk s h))
      (reverse-reverse s)

-- No radix prefix: the second character of a decimal print is a digit.
unspaced-of-IsDigit : (s : Text) → All IsDigit s → unspaced s ≡ signed s
unfolding unspaced
unspaced-of-IsDigit [] h = refl
unspaced-of-IsDigit (c ∷ []) h = ground arith
unspaced-of-IsDigit (c ∷ d ∷ s) h = ground arith

unspaced-minus : (s : Text) → unspaced (b'-' ∷ s) ≡ signed (b'-' ∷ s)
unfolding unspaced
unspaced-minus s = refl

signed-of-IsDigit :
    (d : ℕ) (s : Text) → IsDigit d → signed (d ∷ s) ≡ Option.map pos (number 10 (d ∷ s))
unfolding signed
signed-of-IsDigit d s h = ground arith

-- `BigInt` of one digit or more reads their number.
pub big_int-of-IsDigit :
    (d : ℕ) (s : Text) → All IsDigit (d ∷ s) → big_int (d ∷ s) ≡ Option.map pos (scan 10 (d ∷ s) 0)
unfolding big_int number
big_int-of-IsDigit d s h =
    rw (trim-of-IsInk (d ∷ s) (IsDigit-IsInk (d ∷ s) h))
      (unspaced-of-IsDigit (d ∷ s) h ∙ signed-of-IsDigit d s h.0)

signed-digits : (n : ℕ) → signed (digits 10 n) ≡ some (pos n)
signed-digits n =
    let (d, s, e) = digits-cons 10 n in
    let printed = digits-IsDigit n in
    rw e (signed-of-IsDigit d s ((rw e at printed).0))
    ∙ ap (Option.map pos) (ap (number 10) (sym e) ∙ number-digits 10 n (omega arith) (omega arith))

big_int-digits : (n : ℕ) → big_int (digits 10 n) ≡ some (pos n)
unfolding big_int
big_int-digits n =
    rw (trim-of-IsInk _ (IsDigit-IsInk _ (digits-IsDigit n)))
      (unspaced-of-IsDigit _ (digits-IsDigit n) ∙ signed-digits n)

signed-minus : (n : ℕ) → signed (b'-' ∷ digits 10 (suc n)) ≡ some (negsuc n)
unfolding signed
signed-minus n = rw (number-digits 10 (suc n) (omega arith) (omega arith)) (ground arith)

big_int-minus : (n : ℕ) → big_int (b'-' ∷ digits 10 (suc n)) ≡ some (negsuc n)
unfolding big_int
big_int-minus n =
    rw
      (trim-of-IsInk (b'-' ∷ digits 10 (suc n))
        ((omega arith, omega arith), IsDigit-IsInk _ (digits-IsDigit (suc n))))
      (unspaced-minus (digits 10 (suc n)) ∙ signed-minus n)

-- `BigInt` reads back what `toString` prints of any bigint.
pub big_int-to_text : (z : ℤ) → big_int (to_text z) ≡ some z
unfolding to_text
big_int-to_text (pos n) = big_int-digits n
big_int-to_text (negsuc n) = big_int-minus n
