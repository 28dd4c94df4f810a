-- ===== src/Prelude/Json/Objects.antt =====
-- What `JSON.parse` reads of objects without blanks.
use Prim.Native.Nat.{ℕ, zero, suc, ◌+◌, ◌-◌, ◌*◌, ◌/◌, ◌%◌, ◌≤◌, ◌<◌}
use mathlib.Core.Path.{◌≡◌, refl, sym, ap, ◌∙◌}
use mathlib.Core.Logic.{◌≢◌, inl, inr, ◌⊎◌}
use mathlib.Core.Bool.{Bool, true, false, not, ◌&&◌}
use mathlib.Core.Option
use mathlib.Core.Option.{Option, none, some}
use mathlib.Core.List.{[], ◌∷◌, ◌++◌, append_assoc, append-nil}
use native.Mathlib.Omega.{arith}
use native.Mathlib.Nat.{div-add-mod', div-lt_self}
use lunarys_bridge.Prelude.Tests.{leb, ltb, ◌==◌, Bool-cases}
use lunarys_bridge.Prelude.Lists.{All, length, length-append}
use lunarys_bridge.Prelude.Int.{pos}
use lunarys_bridge.Prelude.Text.{Text, lit, starts_with}
use lunarys_bridge.Prelude.Double.{to_number}
use lunarys_bridge.Prelude.Numeral.{digits, emit, digit_char, digit_value, accept, scan}
use lunarys_bridge.Prelude.Numeral.RoundTrip.{
  IsDigit, digits-IsDigit, digits-cons, number-scan, number-digits,
}
use lunarys_bridge.Prelude.Json.{
  Value, number, string, object, Members, no_members, member, skip_blanks, string_body,
  run_of_digits, signed_number, after_digits, starts_with_digit, head_is, number_body, read_number,
  read_scalar, read_value, read_members, json_parse,
}

-- Letters, digits and what stands between them in ASCII, but no backslash.
pub record IsWord (c : ℕ) : Type 0 where
  pub low : b'0' ≤ c
  pub high : c ≤ b'z'
  pub no_escape : c ≢ 92

abbrev is_word : ℕ → Bool
is_word c = leb b'0' c && (leb c b'z' && not (c == 92))

abbrev pub all_words : Text → Bool
all_words [] = true
all_words (c ∷ s) = is_word c && all_words s

pub all_words-All : (s : Text) → all_words s ≡ true → All IsWord s
all_words-All [] h = tt
all_words-All (c ∷ s) h = (
  record { low = ground arith; high = ground arith; no_escape = ground arith },
  all_words-All s (ground arith),
)

string_body-word :
    (f : ℕ) (acc s rest : Text)
    → All IsWord s
    → length s < f
    → string_body f acc (s ++ 34 ∷ rest) ≡ some (acc ++ s, rest)
unfolding string_body
string_body-word zero acc s rest h k = absurd (omega arith)
string_body-word (suc f) acc [] rest h k = ap (λ t. some (t, rest)) (sym (append-nil acc))
string_body-word (suc f) acc (c ∷ s) rest (p, h) k =
    let no_quote : (c == 34) ≡ false = ground arith in
    let no_escape : (c == 92) ≡ false = ground arith in
    let no_control : ltb c 32 ≡ false = ground arith in
    rw (string_body, no_quote, no_escape, no_control)
      (string_body-word f (acc ++ c ∷ []) s rest h (omega arith)
        ∙ ap (λ t. some (t, rest)) (append_assoc acc (c ∷ []) s))

lead_digit : (n : ℕ) → 0 < n → (n / 10 == 0) ≡ true → digit_char (n % 10) ≢ b'0'
unfolding digit_char
lead_digit n h done = ground (arith, div-add-mod' n 10)

positive_quotient : (n : ℕ) → (n / 10 == 0) ≡ false → 0 < n / 10
positive_quotient n more = ground arith

-- The leading digit of a number above zero.
emit-leads :
    (f n : ℕ) (out : Text)
    → 0 < n
    → n < f
    → (d : ℕ) × (t : Text) × (emit 10 f n out ≡ d ∷ t) × (d ≢ b'0')
unfolding emit
emit-leads zero n out h k = absurd (omega arith)
emit-leads (suc f) n out h k = elim (Bool-cases (n / 10 == 0)) [
  | inl done ↦ rw (done, emit) (digit_char (n % 10), out, refl, lead_digit n h done)
  | inr more ↦
      rw (more, emit)
        (emit-leads f (n / 10) (digit_char (n % 10) ∷ out) (omega (arith, positive_quotient n more))
          (omega (arith, div-lt_self {n = n} {k = 10} h (omega arith))))
]

scan-step :
    (d : ℕ) (s : Text) (acc : ℕ)
    → IsDigit d
    → scan 10 (d ∷ s) acc ≡ scan 10 s (acc * 10 + (d - b'0'))
unfolding scan accept digit_value Option.bind
scan-step d s acc p = ground arith

outside : (c : ℕ) → (c < b'0') ⊎ (b'9' < c) → (leb b'0' c && leb c b'9') ≡ false
outside c h = ground arith

inside : (c : ℕ) → IsDigit c → (leb b'0' c && leb c b'9') ≡ true
inside c h = ground arith

some-injective : {A : Type 0} {a b : A} → some a ≡ some b → a ≡ b
some-injective h = cc

run-digits :
    (s : Text) (acc : ℕ) {v : ℕ} (c : ℕ) (rest : Text)
    → All IsDigit s
    → (c < b'0') ⊎ (b'9' < c)
    → scan 10 s acc ≡ some v
    → run_of_digits acc (s ++ c ∷ rest) ≡ (v, c ∷ rest)
unfolding run_of_digits scan
run-digits [] acc c rest h k e =
    rw (run_of_digits, outside c k) (ap (λ v. (v, c ∷ rest)) (some-injective e))
run-digits (d ∷ s) acc c rest (p, h) k e =
    rw (run_of_digits, inside d p)
      (run-digits s (acc * 10 + (d - b'0')) c rest h k (sym (scan-step d s acc p) ∙ e))

read_scalar-digit : (d : ℕ) (s : Text) → IsDigit d → read_scalar (d ∷ s) ≡ number_body false (d ∷ s)
unfolding read_scalar read_number starts_with lit
read_scalar-digit d s p = ground arith

skip_blanks-digit : (d : ℕ) (s : Text) → IsDigit d → skip_blanks (d ∷ s) ≡ d ∷ s
unfolding skip_blanks
skip_blanks-digit d s p = ground arith

read_value-scalar :
    (f : ℕ) (s t : Text)
    → skip_blanks s ≡ t
    → head_is 34 t ≡ false
    → head_is b'[' t ≡ false
    → head_is b'{' t ≡ false
    → read_value (suc f) s ≡ read_scalar t
unfolding read_value
read_value-scalar f s t e a b c = cc

read_value-digit :
    (f d : ℕ) (s : Text) → IsDigit d → read_value (suc f) (d ∷ s) ≡ number_body false (d ∷ s)
read_value-digit f d s p =
    read_value-scalar f (d ∷ s) (d ∷ s) (skip_blanks-digit d s p) (ground arith) (ground arith)
      (ground arith)
    ∙ read_scalar-digit d s p

-- No zero in front of another digit.
no_leading_zero :
    (n d c : ℕ) (t rest : Text)
    → digits 10 n ≡ d ∷ t
    → (c ≡ b',') ⊎ (c ≡ b'}')
    → (d == b'0' && starts_with_digit (t ++ c ∷ rest)) ≡ false
unfolding digits
no_leading_zero zero d c t rest e h = let tail : t ≡ [] = cc in rw tail (ground arith)
no_leading_zero (suc n) d c t rest e h =
    let (a, u, printed, nonzero) =
      emit-leads (suc (suc n)) (suc n) [] (omega arith) (omega arith) in
    let same : a ≡ d = cc in let lead : d ≢ b'0' = rw same at nonzero in ground arith

number_body-digit :
    (d : ℕ) (s : Text)
    → IsDigit d
    → number_body false (d ∷ s) ≡ after_digits false d s (run_of_digits 0 (d ∷ s))
unfolding number_body
number_body-digit d s p = ground arith

after_digits-stop :
    (d c n : ℕ) (s rest : Text)
    → (d == b'0' && starts_with_digit s) ≡ false
    → (c ≡ b',') ⊎ (c ≡ b'}')
    → after_digits false d s (n, c ∷ rest) ≡ some (number (pos (to_number n)), c ∷ rest)
unfolding signed_number
after_digits-stop d c n s rest e h = ground arith

number_body-digits :
    (n d c : ℕ) (t rest : Text)
    → digits 10 n ≡ d ∷ t
    → (c ≡ b',') ⊎ (c ≡ b'}')
    → number_body false (d ∷ (t ++ c ∷ rest)) ≡ some (number (pos (to_number n)), c ∷ rest)
number_body-digits n d c t rest e h =
    let printed : All IsDigit (d ∷ t) = rw e at (digits-IsDigit n) in
    let read : scan 10 (d ∷ t) 0 ≡ some n =
      ap (λ s. scan 10 s 0) (sym e)
      ∙ sym (number-scan 10 (digits 10 n) e)
      ∙ number-digits 10 n (omega arith) (omega arith) in
    number_body-digit d (t ++ c ∷ rest) printed.0
    ∙ ap (after_digits false d (t ++ c ∷ rest))
        (run-digits (d ∷ t) 0 c rest printed (ground arith) read)
    ∙ after_digits-stop d c n (t ++ c ∷ rest) rest (no_leading_zero n d c t rest e h) h

-- A number is read up to the comma or the brace behind it.
pub read_value-digits :
    (f n c : ℕ) (rest : Text)
    → (c ≡ b',') ⊎ (c ≡ b'}')
    → read_value (suc f) (digits 10 n ++ c ∷ rest) ≡ some (number (pos (to_number n)), c ∷ rest)
read_value-digits f n c rest h =
    let (d, t, e) = digits-cons 10 n in
    let printed = digits-IsDigit n in
    rw e (
      read_value-digit f d (t ++ c ∷ rest) (rw e at printed).0
      ∙ number_body-digits n d c t rest e h)

-- A text up to its closing quote, with as much fuel as is left to read.
string_body-All :
    (s rest : Text)
    → All IsWord s
    → string_body (suc (suc (length (s ++ 34 ∷ rest)))) [] (s ++ 34 ∷ rest) ≡ some (s, rest)
string_body-All s rest h =
    string_body-word (suc (suc (length (s ++ 34 ∷ rest)))) [] s rest h
      (omega (arith, length-append s (34 ∷ rest)))

pub read_value-string :
    (f : ℕ) (s rest : Text)
    → All IsWord s
    → read_value (suc f) (34 ∷ (s ++ 34 ∷ rest)) ≡ some (string s, rest)
unfolding read_value skip_blanks
read_value-string f s rest h = rw (string_body-All s rest h) refl

-- A member, and the members behind its comma.
pub read_members-next :
    (f : ℕ) (first : Bool) (key text rest left : Text) {v : Value} {ms : Members}
    → All IsWord key
    → read_value f text ≡ some (v, b',' ∷ rest)
    → read_members f false rest ≡ some (ms, left)
    → read_members (suc f) first (34 ∷ (key ++ 34 ∷ b':' ∷ text)) ≡ some (member key v ms, left)
unfolding read_members skip_blanks
read_members-next f true key text rest left h k l =
    rw (string_body-All key (b':' ∷ text) h, k, l) refl
read_members-next f false key text rest left h k l =
    rw (string_body-All key (b':' ∷ text) h, k, l) refl

pub read_members-last :
    (f : ℕ) (key text left : Text) {v : Value}
    → All IsWord key
    → read_value f text ≡ some (v, b'}' ∷ left)
    → read_members (suc f) false (34 ∷ (key ++ 34 ∷ b':' ∷ text))
      ≡ some (member key v no_members, left)
unfolding read_members skip_blanks
read_members-last f key text left h k = rw (string_body-All key (b':' ∷ text) h, k) refl

pub json_parse-object :
    (s : Text) {ms : Members}
    → read_members (2 * length (b'{' ∷ s)) true s ≡ some (ms, [])
    → json_parse (b'{' ∷ s) ≡ some (object ms)
unfolding json_parse read_value skip_blanks
json_parse-object s h = cc
