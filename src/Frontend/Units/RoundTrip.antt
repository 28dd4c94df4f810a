-- ===== src/Frontend/Units/RoundTrip.antt =====
-- What the page prints of an amount is read back.
use mathlib.Core.Option
use lunarys_bridge.Prelude.{
  ℕ, zero, suc, ◌+◌, ◌-◌, ◌≤◌, ◌<◌, ◌==◌, ◌≡◌, refl, sym, ap, ◌∙◌, inl, inr, ◌&&◌, Option, none,
  some, [], ◌∷◌, ◌++◌, length, take, drop, replicate, All, All-append, length-append,
  length-replicate, Bool-cases, arith,
}
use lunarys_bridge.Prelude.Int.{pos}
use lunarys_bridge.Prelude.Lists.Parts.{take-append-drop, length-drop}
use lunarys_bridge.Prelude.Text.{Text, is_empty, pad_start, pad_end, split, first_part, second_part}
use lunarys_bridge.Prelude.Numeral.{digits, to_text, scan, accept, digit_value, big_int}
use lunarys_bridge.Prelude.Numeral.RoundTrip.{
  IsDigit, IsInk, IsDigit-IsInk, digits-IsDigit, digits-cons, number-digits, number-scan,
  trim-of-IsInk, big_int-of-IsDigit,
}
use lunarys_bridge.Frontend.Units.{
  starts_with_digit, strip_zeros, strip_end, or_zero, base_text, to_base_units, joined,
  from_base_units,
}

bind_assoc :
    (o : Option ℕ) (f g : ℕ → Option ℕ) (h : ℕ → Option ℕ)
    → ((a : ℕ) → h a ≡ Option.bind (f a) g)
    → Option.bind o h ≡ Option.bind (Option.bind o f) g
unfolding Option.bind
bind_assoc none f g h e = refl
bind_assoc (some a) f g h e = e a

scan-append :
    (s t : Text) (acc : ℕ) → scan 10 (s ++ t) acc ≡ Option.bind (scan 10 s acc) (scan 10 t)
unfolding scan
scan-append [] t acc = refl
scan-append (c ∷ s) t acc =
    bind_assoc (accept 10 acc (digit_value c)) (scan 10 s) (scan 10 t) (scan 10 (s ++ t))
      (scan-append s t)

scan-zero : (s : Text) → scan 10 (b'0' ∷ s) 0 ≡ scan 10 s 0
unfolding scan
scan-zero s = refl

pub scan-strip_zeros : (s : Text) → scan 10 (strip_zeros s) 0 ≡ scan 10 s 0
unfolding strip_zeros
scan-strip_zeros [] = refl
scan-strip_zeros (c ∷ s) = elim (Bool-cases (c == b'0' && starts_with_digit s)) [
  | inl more ↦
      rw more (scan-strip_zeros s ∙ sym (scan-zero s) ∙ ap (λ d. scan 10 (d ∷ s) 0) (ground arith))
  | inr last ↦ rw last refl
]

scan-replicate : (k : ℕ) (s : Text) → scan 10 (replicate k b'0' ++ s) 0 ≡ scan 10 s 0
scan-replicate zero s = refl
scan-replicate (suc k) s = scan-zero (replicate k b'0' ++ s) ∙ scan-replicate k s

pub strip_zeros-All : (s : Text) → All IsDigit s → All IsDigit (strip_zeros s)
unfolding strip_zeros
strip_zeros-All [] h = tt
strip_zeros-All (c ∷ s) (p, h) = elim (Bool-cases (c == b'0' && starts_with_digit s)) [
  | inl more ↦ rw more (strip_zeros-All s h)
  | inr last ↦ rw last (p, h)
]

-- Something is left of a text that is not empty.
pub strip_zeros-cons : (c : ℕ) (s : Text) → (d : ℕ) × (t : Text) × (strip_zeros (c ∷ s) ≡ d ∷ t)
unfolding strip_zeros
strip_zeros-cons c [] = (c, [], ground arith)
strip_zeros-cons c (e ∷ s) = elim (Bool-cases (c == b'0' && starts_with_digit (e ∷ s))) [
  | inl more ↦ rw more (strip_zeros-cons e s)
  | inr last ↦ rw last (c, e ∷ s, refl)
]

strip_end-All : (s : Text) → All IsDigit s → All IsDigit (strip_end s)
unfolding strip_end
strip_end-All [] h = tt
strip_end-All (c ∷ s) (p, h) = elim (Bool-cases (is_empty (strip_end s) && c == b'0')) [
  | inl gone ↦ rw gone tt
  | inr kept ↦ rw kept (p, strip_end-All s h)
]

suc-sub-suc : (a b : ℕ) → suc a - suc b ≡ a - b
suc-sub-suc a b = omega arith

-- What was stripped at the end is what `padEnd` puts back.
pad_end-strip_end : (s : Text) → pad_end (length s) b'0' (strip_end s) ≡ s
unfolding strip_end pad_end
pad_end-strip_end [] = refl
pad_end-strip_end (c ∷ s) = elim (Bool-cases (is_empty (strip_end s) && c == b'0')) [
  | inl gone ↦ rw gone (ground (arith, pad_end-strip_end s))
  | inr kept ↦
      rw (kept, suc-sub-suc (length s) (length (strip_end s)))
        (ap (λ t. c ∷ t) (pad_end-strip_end s))
]

take-length : (s : Text) → take (length s) s ≡ s
take-length [] = refl
take-length (c ∷ s) = ap (λ t. c ∷ t) (take-length s)

pub take-All : (k : ℕ) (s : Text) → All IsDigit s → All IsDigit (take k s)
take-All zero s h = tt
take-All (suc k) [] h = tt
take-All (suc k) (c ∷ s) (p, h) = (p, take-All k s h)

drop-All : (k : ℕ) (s : Text) → All IsDigit s → All IsDigit (drop k s)
drop-All zero s h = h
drop-All (suc k) [] h = tt
drop-All (suc k) (c ∷ s) (p, h) = drop-All k s h

pub replicate-All : (k : ℕ) → All IsDigit (replicate k b'0')
replicate-All zero = tt
replicate-All (suc k) = ((omega arith, omega arith), replicate-All k)

split-of-IsDigit : (s : Text) → All IsDigit s → split b'.' s ≡ s ∷ []
unfolding split
split-of-IsDigit [] h = refl
split-of-IsDigit (c ∷ s) (p, h) = ground (arith, split-of-IsDigit s h)

split-at_dot :
    (s t : Text) → All IsDigit s → All IsDigit t → split b'.' (s ++ b'.' ∷ t) ≡ s ∷ t ∷ []
unfolding split
split-at_dot [] t h k = ap (λ p. [] ∷ p) (split-of-IsDigit t k)
split-at_dot (c ∷ s) t (p, h) k = ground (arith, split-at_dot s t h k)

IsDigit-padded : (n d : ℕ) → All IsDigit (pad_start (d + 1) b'0' (digits 10 n))
unfolding pad_start
IsDigit-padded n d = All-append IsDigit _ _ (replicate-All _) (digits-IsDigit n)

scan-padded : (n d : ℕ) → scan 10 (pad_start (d + 1) b'0' (digits 10 n)) 0 ≡ some n
unfolding pad_start
scan-padded n d =
    let (c, t, e) = digits-cons 10 n in
    scan-replicate _ (digits 10 n)
    ∙ sym (number-scan 10 (digits 10 n) e)
    ∙ number-digits 10 n (omega arith) (omega arith)

length-padded : (d : ℕ) (s : Text) → d + 1 ≤ length (pad_start (d + 1) b'0' s)
unfolding pad_start
length-padded d s = omega (
  arith,
  length-append (replicate (d + 1 - length s) b'0') s,
  length-replicate {A = ℕ} (d + 1 - length s) b'0',
)

take-cons : (k : ℕ) (s : Text) → 0 < k → 0 < length s → (c : ℕ) × (t : Text) × (take k s ≡ c ∷ t)
take-cons zero s h l = absurd (omega arith)
take-cons (suc k) [] h l = absurd (omega arith)
take-cons (suc k) (c ∷ s) h l = (c, take k s, refl)

IsInk-joined : (int frac : Text) → All IsDigit int → All IsDigit frac → All IsInk (joined int frac)
unfolding joined
IsInk-joined int [] h k = IsDigit-IsInk int h
IsInk-joined int (c ∷ frac) h k =
    All-append IsInk _ _ (IsDigit-IsInk int h)
      ((omega arith, omega arith), IsDigit-IsInk (c ∷ frac) k)

-- The two parts of a text with a point, and of one without.
parts_of :
    (int frac : Text)
    → All IsDigit int
    → All IsDigit frac
    → (first_part (split b'.' (joined int frac)) ≡ int)
      × (second_part (split b'.' (joined int frac)) ≡ frac)
unfolding joined
parts_of int [] h k =
    (ap first_part (split-of-IsDigit int h), ap second_part (split-of-IsDigit int h))
parts_of int (c ∷ frac) h k = (
  ap first_part (split-at_dot int (c ∷ frac) h k),
  ap second_part (split-at_dot int (c ∷ frac) h k),
)

pub or_zero-scan :
    (s : Text) {d : ℕ} {t : Text}
    → s ≡ d ∷ t
    → All IsDigit s
    → big_int (or_zero s) ≡ Option.map pos (scan 10 s 0)
or_zero-scan s {d} {t} e h = rw e (big_int-of-IsDigit d t (rw e at h))

pub or_zero-cons : (s : Text) {d : ℕ} {t : Text} → s ≡ d ∷ t → or_zero s ≡ s
or_zero-cons s e = rw e refl

module _ (c : ℕ) (t f : Text) (digits_t : All IsDigit (c ∷ t)) (digits_f : All IsDigit f) where
  int : Text
  int = strip_zeros (c ∷ t)

  base_text-stripped : base_text int (strip_end f) (length f) ≡ or_zero (strip_zeros (int ++ f))
  unfolding base_text int
  base_text-stripped =
      let (d, u, e) = strip_zeros-cons c t in
      rw (or_zero-cons (strip_zeros (c ∷ t)) e, pad_end-strip_end f, take-length f) refl

  scan-stripped : scan 10 (int ++ f) 0 ≡ scan 10 ((c ∷ t) ++ f) 0
  unfolding int
  scan-stripped =
      scan-append (strip_zeros (c ∷ t)) f 0
      ∙ ap (λ o. Option.bind o (scan 10 f)) (scan-strip_zeros (c ∷ t))
      ∙ sym (scan-append (c ∷ t) f 0)

  int_digits : All IsDigit (int ++ f)
  unfolding int
  int_digits = All-append IsDigit _ _ (strip_zeros-All (c ∷ t) digits_t) digits_f

  int-cons : (d : ℕ) × (u : Text) × (strip_zeros (int ++ f) ≡ d ∷ u)
  unfolding int
  int-cons =
      let (d, u, e) = strip_zeros-cons c t in
      let (d', u', e') = strip_zeros-cons d (u ++ f) in
      (d', u', ap (λ x. strip_zeros (x ++ f)) e ∙ e')

  reads :
      to_base_units (joined int (strip_end f)) (length f)
      ≡ Option.map pos (scan 10 ((c ∷ t) ++ f) 0)
  unfolding to_base_units int
  reads =
      let (d, u, e) = int-cons in
      let digits_i = strip_zeros-All (c ∷ t) digits_t in
      let digits_e = strip_end-All f digits_f in
      let (first, second) = parts_of int (strip_end f) digits_i digits_e in
      rw
        (
          trim-of-IsInk (joined int (strip_end f))
              (IsInk-joined int (strip_end f) digits_i digits_e),
          first,
          second,
          base_text-stripped,
        )
        (or_zero-scan (strip_zeros (int ++ f)) e (strip_zeros-All (int ++ f) int_digits)
          ∙ ap (Option.map pos) (scan-strip_zeros (int ++ f) ∙ scan-stripped))

reads_whole :
    (n d : ℕ) (i f s : Text) {c : ℕ} {t : Text}
    → i ≡ c ∷ t
    → All IsDigit i
    → All IsDigit f
    → i ++ f ≡ s
    → length f ≡ d
    → scan 10 s 0 ≡ some n
    → to_base_units (joined (strip_zeros i) (strip_end f)) d ≡ some (pos n)
unfolding int
reads_whole n d i f s {c} {t} e digits_i digits_f whole width read =
    rw (sym width, e)
      (reads c t f (rw e at digits_i) digits_f
        ∙ ap (Option.map pos)
            (ap (λ x. scan 10 (x ++ f) 0) (sym e) ∙ ap (λ x. scan 10 x 0) whole ∙ read))

-- An amount in base units that `fromBaseUnits` prints is what `toBaseUnits` reads, for every number
-- of decimals and every amount that is not negative.
pub to_base_units-from_base_units :
    (n d : ℕ) → to_base_units (from_base_units (pos n) d) d ≡ some (pos n)
unfolding from_base_units to_text
to_base_units-from_base_units n d =
    let s = pad_start (d + 1) b'0' (digits 10 n) in
    let cut = length s - d in
    let long : d + 1 ≤ length s = length-padded d (digits 10 n) in
    let (c, t, e) = take-cons cut s (omega arith) (omega arith) in
    let digits_s = IsDigit-padded n d in
    let width : length (drop cut s) ≡ d = omega (arith, length-drop cut s) in
    reads_whole n d (take cut s) (drop cut s) s e (take-All cut s digits_s)
      (drop-All cut s digits_s) (take-append-drop cut s) width (scan-padded n d)
