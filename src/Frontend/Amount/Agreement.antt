-- ===== src/Frontend/Amount/Agreement.antt =====
-- The page's two readers of an amount agree.
use mathlib.Core.Option
use native.Mathlib.Numerals.{unary_clauses}
use lunarys_bridge.Prelude.{
  ℕ, zero, suc, ◌+◌, ◌-◌, ◌*◌, ◌^◌, ◌≤◌, ◌≡◌, refl, sym, ap, ◌∙◌, inl, inr, true, some, List, [],
  ◌∷◌, ◌++◌, length, take, replicate, All, All-append, Bool-cases, arith,
}
use lunarys_bridge.Prelude.Int.{ℤ, pos}
use lunarys_bridge.Prelude.Text.{Text, lit, pad_end, split, first_part, second_part}
use lunarys_bridge.Prelude.Numeral.{scan, trim, big_int}
use lunarys_bridge.Prelude.Numeral.RoundTrip.{IsDigit, big_int-of-IsDigit}
use lunarys_bridge.Prelude.Effect.{ok, ok-injective, thrown-ne-ok}
use lunarys_bridge.Frontend.Units.{is_digit, every, strip_zeros, or_zero, base_text, to_base_units}
use lunarys_bridge.Frontend.Units.RoundTrip.{
  scan-strip_zeros, strip_zeros-cons, strip_zeros-All, or_zero-cons, or_zero-scan,
}
use lunarys_bridge.Frontend.Amount.{is_number, is_amount, combine, to_u64_from_human}

value : ℕ → Text → ℕ
value acc [] = acc
value acc (c ∷ s) = value (acc * 10 + (c - b'0')) s

scan-value : (s : Text) (acc : ℕ) → All IsDigit s → scan 10 s acc ≡ some (value acc s)
unfolding scan value
scan-value [] acc h = refl
scan-value (c ∷ s) acc (p, h) = ground (arith, scan-value s (acc * 10 + (c - b'0')) h)

pow_ten : (k : ℕ) → 10 ^ k * 10 ≡ 10 ^ suc k
pow_ten k = simp unary_clauses refl

regroup : (acc e p v : ℕ) → (acc * 10 + e) * p + v ≡ acc * (p * 10) + ((0 * 10 + e) * p + v)
regroup acc e p v = grind arith

value-shift : (s : Text) (acc : ℕ) → value acc s ≡ acc * 10 ^ length s + value 0 s
unfolding value
value-shift [] acc = omega arith
value-shift (c ∷ s) acc =
    value-shift s (acc * 10 + (c - b'0'))
    ∙ regroup acc (c - b'0') (10 ^ length s) (value 0 s)
    ∙ ap (λ p. acc * p + ((0 * 10 + (c - b'0')) * 10 ^ length s + value 0 s)) (pow_ten (length s))
    ∙ sym (ap (λ v. acc * 10 ^ suc (length s) + v) (value-shift s (0 * 10 + (c - b'0'))))

every-All : (s : Text) → every is_digit s ≡ true → All IsDigit s
unfolding every
every-All [] h = tt
every-All (c ∷ s) h = (ground arith, every-All s (ground arith))

-- A text cut at a width, or filled with zeros.
canon : ℕ → Text → Text
canon zero f = []
canon (suc d) [] = b'0' ∷ canon d []
canon (suc d) (c ∷ f) = c ∷ canon d f

take-filled : (d k : ℕ) (f : Text) → d ≤ length f + k → take d (f ++ replicate k b'0') ≡ canon d f
unfolding canon
take-filled zero k f h = refl
take-filled (suc d) zero [] h = absurd (omega arith)
take-filled (suc d) (suc k) [] h = ap (λ s. b'0' ∷ s) (take-filled d k [] (omega arith))
take-filled (suc d) k (c ∷ f) h = ap (λ s. c ∷ s) (take-filled d k f (omega arith))

take-pad_end : (d : ℕ) (f : Text) → take d (pad_end d b'0' f) ≡ canon d f
unfolding pad_end
take-pad_end d f = take-filled d (d - length f) f (omega arith)

length-canon : (d : ℕ) (f : Text) → length (canon d f) ≡ d
unfolding canon
length-canon zero f = refl
length-canon (suc d) [] = omega (arith, length-canon d [])
length-canon (suc d) (c ∷ f) = omega (arith, length-canon d f)

canon-All : (d : ℕ) (f : Text) → All IsDigit f → All IsDigit (canon d f)
unfolding canon
canon-All zero f h = tt
canon-All (suc d) [] h = ((omega arith, omega arith), canon-All d [] tt)
canon-All (suc d) (c ∷ f) (p, h) = (p, canon-All d f h)

value-append : (s t : Text) (acc : ℕ) → value acc (s ++ t) ≡ value (value acc s) t
unfolding value
value-append [] t acc = refl
value-append (c ∷ s) t acc = value-append s t (acc * 10 + (c - b'0'))

-- `BigInt(s || '0')`
big_int-or_zero : (s : Text) → All IsDigit s → big_int (or_zero s) ≡ some (pos (value 0 s))
unfolding value lit
big_int-or_zero [] h =
    big_int-of-IsDigit b'0' [] ((omega arith, omega arith), tt)
    ∙ ap (Option.map pos) (scan-value (b'0' ∷ []) 0 ((omega arith, omega arith), tt))
big_int-or_zero (c ∷ s) h = big_int-of-IsDigit c s h ∙ ap (Option.map pos) (scan-value (c ∷ s) 0 h)

module _ (d : ℕ) (i f : Text) {c : ℕ} {t : Text} (e : i ≡ c ∷ t) (digits_i : All IsDigit i)
    (digits_f : All IsDigit f) where
  whole : Text
  whole = i ++ canon d f

  whole_digits : All IsDigit whole
  unfolding whole
  whole_digits = All-append IsDigit _ _ digits_i (canon-All d f digits_f)

  stripped-cons : (a : ℕ) × (u : Text) × (strip_zeros whole ≡ a ∷ u)
  unfolding whole
  stripped-cons =
      let (a, u, q) = strip_zeros-cons c (t ++ canon d f) in
      (a, u, ap (λ x. strip_zeros (x ++ canon d f)) e ∙ q)

  reads_base : big_int (base_text i f d) ≡ some (pos (value 0 whole))
  unfolding base_text whole
  reads_base =
      let (a, u, q) = stripped-cons in
      rw (or_zero-cons i e, take-pad_end d f)
        (or_zero-scan (strip_zeros whole) q (strip_zeros-All whole whole_digits)
          ∙ ap (Option.map pos) (scan-strip_zeros whole ∙ scan-value whole 0 whole_digits))

  value-whole : value 0 whole ≡ value 0 i * 10 ^ d + value 0 (canon d f)
  unfolding whole
  value-whole =
      value-append i (canon d f) 0
      ∙ value-shift (canon d f) (value 0 i)
      ∙ ap (λ k. value 0 i * 10 ^ k + value 0 (canon d f)) (length-canon d f)

  agree :
      combine (10 ^ d) (big_int (or_zero i)) (big_int (or_zero (take d (f ++ replicate d b'0'))))
      ≡ ok (pos (value 0 whole))
  unfolding combine
  agree =
      rw
        (
          take-filled d d f (omega arith),
          big_int-or_zero i digits_i,
          big_int-or_zero (canon d f) (canon-All d f digits_f),
        )
        (ap (λ n. ok (pos n)) (sym value-whole))

is_number-cons : (i : Text) → is_number i ≡ true → (c : ℕ) × (t : Text) × (i ≡ c ∷ t)
is_number-cons [] h = cc
is_number-cons (c ∷ t) h = (c, t, refl)

is_number-All : (i : Text) → is_number i ≡ true → All IsDigit i
is_number-All [] h = tt
is_number-All (c ∷ t) h = every-All (c ∷ t) h

parts-Agree :
    (d : ℕ) (i f : Text) {z : ℤ}
    → is_number i ≡ true
    → All IsDigit f
    → combine (10 ^ d) (big_int (or_zero i)) (big_int (or_zero (take d (f ++ replicate d b'0'))))
      ≡ ok z
    → big_int (base_text i f d) ≡ some z
parts-Agree d i f h k e =
    let (c, t, q) = is_number-cons i h in
    let digits_i = is_number-All i h in
    reads_base d i f q digits_i k ∙ ap some (ok-injective (sym (agree d i f q digits_i k) ∙ e))

is_amount-Agree :
    (d : ℕ) (parts : List Text) {z : ℤ}
    → is_amount parts ≡ true
    → combine
        (10 ^ d)
        (big_int (or_zero (first_part parts)))
        (big_int (or_zero (take d (second_part parts ++ replicate d b'0'))))
      ≡ ok z
    → big_int (base_text (first_part parts) (second_part parts) d) ≡ some z
unfolding is_amount
is_amount-Agree d [] h e = cc
is_amount-Agree d (i ∷ []) h e = parts-Agree d i [] h tt e
is_amount-Agree d (i ∷ f ∷ []) h e =
    parts-Agree d i f (ground arith) (is_number-All f (ground arith)) e
is_amount-Agree d (i ∷ f ∷ g ∷ parts) h e = cc

-- The amount that the page reads of a text is the one that `toBaseUnits` of the library reads: all
-- that `toU64FromHuman` accepts, `toBaseUnits` accepts too, with the same result.
pub to_u64_agrees :
    (human : Text) (decimals : ℕ) {z : ℤ}
    → to_u64_from_human human decimals ≡ ok z
    → to_base_units human decimals ≡ some z
unfolding to_u64_from_human to_base_units
to_u64_agrees human decimals h = elim (Bool-cases (is_amount (split b'.' (trim human)))) [
  | inl valid ↦ is_amount-Agree decimals (split b'.' (trim human)) valid (rw valid at h)
  | inr invalid ↦ absurd (thrown-ne-ok (rw invalid at h))
]
