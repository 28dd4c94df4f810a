-- ===== src/Prelude/Numeral.antt =====
-- JavaScript's number texts: `n.toString(r)`, `BigInt(text)` and `parseInt(text, 16)` of digits.
pub mod RoundTrip
pub mod Width
pub mod Trimmed
use lunarys_bridge.Prelude.Tests.{leb, ltb, ◌==◌, if◌then◌else◌}
use lunarys_bridge.Prelude.Int.{ℤ, pos, negsuc, sub_ℕ}
use lunarys_bridge.Prelude.Text.{Text, lit, starts_with, is_empty}
use lunarys_bridge.Prelude.Lists.{drop}
use Prim.Native.Nat.{ℕ, zero, suc, ◌+◌, ◌-◌, ◌*◌, ◌/◌, ◌%◌}
use mathlib.Core.Bool.{Bool, true, false, ◌&&◌, ◌||◌}
use mathlib.Core.Path.{◌≡◌, refl}
use mathlib.Core.Option
use mathlib.Core.Option.{Option, none, some}
use mathlib.Core.List.{List, [], ◌∷◌, reverse}

-- The digit of value `d`, below 36.
unfoldable pub digit_char : ℕ → ℕ
digit_char d = if ltb d 10 then b'0' + d else 87 + d

unfoldable pub digit_value : ℕ → Option ℕ
digit_value c =
    if leb b'0' c && leb c b'9'
    then some (c - b'0')
    else if leb b'a' c && leb c b'z'
    then some (c - 87)
    else if leb b'A' c && leb c b'Z'
    then some (c - 55)
    else none

-- The digits of `n` in front of `out`; more fuel than `n` is enough.
unfoldable pub emit : ℕ → ℕ → ℕ → Text → Text
unfolding digit_char
emit r zero n out = out
emit r (suc f) n out = elim (n / r == 0) [
  | true ↦ digit_char (n % r) ∷ out
  | false ↦ emit r f (n / r) (digit_char (n % r) ∷ out)
]

-- `n.toString(r)` of a number that is not negative.
unfoldable pub digits : ℕ → ℕ → Text
unfolding emit
digits r n = emit r (suc n) n []

-- `z.toString()`
unfoldable pub to_text : ℤ → Text
unfolding digits
to_text (pos n) = digits 10 n
to_text (negsuc n) = b'-' ∷ digits 10 (suc n)

-- Reads digits in radix `r` behind `acc`; any other character refuses the whole text.
unfoldable pub accept : ℕ → ℕ → Option ℕ → Option ℕ
accept r acc none = none
accept r acc (some d) = if ltb d r then some (acc * r + d) else none

unfoldable pub scan : ℕ → Text → ℕ → Option ℕ
unfolding accept digit_value Option.bind
scan r [] acc = some acc
scan r (c ∷ s) acc = Option.bind (accept r acc (digit_value c)) (scan r s)

-- One digit or more.
unfoldable pub number : ℕ → Text → Option ℕ
unfolding scan
number r [] = none
number r (c ∷ s) = scan r (c ∷ s) 0

-- The white space that `BigInt` and `trim` drop.
unfoldable pub is_space : ℕ → Bool
is_space c =
    (leb 9 c && leb c 13)
    || c == 32
    || c == 160
    || c == 0x1680
    || (leb 0x2000 c && leb c 0x200a)
    || c == 0x2028
    || c == 0x2029
    || c == 0x202f
    || c == 0x205f
    || c == 0x3000
    || c == 0xfeff

unfoldable pub trim_start : Text → Text
unfolding is_space
trim_start [] = []
trim_start (c ∷ s) = if is_space c then trim_start s else c ∷ s

unfoldable pub trim : Text → Text
unfolding trim_start
trim s = reverse (trim_start (reverse (trim_start s)))

abbrev negate : ℕ → ℤ
negate n = sub_ℕ 0 n

unfoldable pub signed : Text → Option ℤ
unfolding number
signed [] = some (pos 0)
signed (c ∷ s) =
    if c == b'-'
    then Option.map negate (number 10 s)
    else if c == b'+'
    then Option.map pos (number 10 s)
    else Option.map pos (number 10 (c ∷ s))

abbrev has_prefix : Text → ℕ → ℕ → Bool
has_prefix s small large = starts_with (b'0' ∷ small ∷ []) s || starts_with (b'0' ∷ large ∷ []) s

unfoldable pub unspaced : Text → Option ℤ
unfolding signed starts_with
unspaced s =
    if has_prefix s b'x' b'X'
    then Option.map pos (number 16 (drop 2 s))
    else if has_prefix s b'o' b'O'
    then Option.map pos (number 8 (drop 2 s))
    else if has_prefix s b'b' b'B'
    then Option.map pos (number 2 (drop 2 s))
    else signed s

-- `BigInt(s)`, where `none` is its SyntaxError.
unfoldable pub big_int : Text → Option ℤ
unfolding unspaced trim
big_int s = unspaced (trim s)

tests :
    (big_int (lit " -12 ") ≡ some (negsuc 11))
    × (big_int (lit "0xfF") ≡ some (pos 255))
    × (big_int (lit "1.5") ≡ none)
    × (big_int (lit "") ≡ some (pos 0))
    × (to_text (negsuc 119) ≡ lit "-120")
    × (digits 16 48879 ≡ lit "beef")
unfolding big_int to_text digits lit
tests = (refl, refl, refl, refl, refl, refl)
