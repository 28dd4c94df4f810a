-- ===== src/Prelude/Hex.antt =====
-- `parseInt(s, 16)`, and byte arrays as hexadecimal texts.
use lunarys_bridge.Prelude.Tests.{ltb, ◌==◌, ==_iff, if◌then◌else◌}
use lunarys_bridge.Prelude.Lists.{All, length, take, drop}
use lunarys_bridge.Prelude.Int.{ℤ, pos, negsuc, sub_ℕ}
use lunarys_bridge.Prelude.Text.{Text, starts_with}
use lunarys_bridge.Prelude.Numeral.{digit_char, digit_value, trim_start}
use Prim.Native.Nat.{ℕ, zero, suc, ◌+◌, ◌-◌, ◌*◌, ◌/◌, ◌%◌, ◌<◌}
use mathlib.Core.Path.{◌≡◌, refl}
use mathlib.Core.Bool.{Bool, true, false, ◌||◌}
use mathlib.Core.Option.{Option, none, some}
use mathlib.Core.List.{List, [], ◌∷◌}
use native.Mathlib.Omega.{arith}

-- The longest run of hexadecimal digits, behind what has been read.
unfoldable pub hex_run : Text → Option ℕ → Option ℕ
unfolding digit_value
hex_run [] acc = acc
hex_run (c ∷ s) acc = elim (digit_value c) [
  | none ↦ acc
  | some d ↦ elim (ltb d 16) [
    | true ↦ hex_run s (some (elim acc [ none ↦ d | some n ↦ n * 16 + d ]))
    | false ↦ acc
  ]
]

abbrev unprefixed : Text → Text
unprefixed s =
    if starts_with (b'0' ∷ b'x' ∷ []) s || starts_with (b'0' ∷ b'X' ∷ []) s then drop 2 s else s

abbrev negated : Option ℕ → Option ℤ
negated none = none
negated (some n) = some (sub_ℕ 0 n)

abbrev positive : Option ℕ → Option ℤ
positive none = none
positive (some n) = some (pos n)

unfoldable pub signed_hex : Text → Option ℤ
unfolding hex_run starts_with
signed_hex [] = none
signed_hex (c ∷ s) =
    if c == b'-'
    then negated (hex_run (unprefixed s) none)
    else if c == b'+'
    then positive (hex_run (unprefixed s) none)
    else positive (hex_run (unprefixed (c ∷ s)) none)

-- `parseInt(s, 16)`, where `none` is NaN.
unfoldable pub parse_int16 : Text → Option ℤ
unfolding signed_hex trim_start
parse_int16 s = signed_hex (trim_start s)

-- What a `Uint8Array` stores of a number.
unfoldable pub to_byte : Option ℤ → ℕ
to_byte none = 0
to_byte (some (pos n)) = n % 256
to_byte (some (negsuc n)) = 255 - n % 256

-- `for (i = 0; i < n; i++) out[i] = parseInt(h.slice(i * 2, i * 2 + 2), 16)`
unfoldable pub bytes_of_hex : ℕ → Text → List ℕ
unfolding parse_int16 to_byte
bytes_of_hex zero h = []
bytes_of_hex (suc n) h = to_byte (parse_int16 (take 2 h)) ∷ bytes_of_hex n (drop 2 h)

-- Each byte as two lower-case digits.
unfoldable pub hex_of_bytes : List ℕ → Text
unfolding digit_char
hex_of_bytes [] = []
hex_of_bytes (b ∷ bs) = digit_char (b / 16) ∷ digit_char (b % 16) ∷ hex_of_bytes bs

pub length-bytes_of_hex : (n : ℕ) (h : Text) → length (bytes_of_hex n h) ≡ n
unfolding bytes_of_hex
length-bytes_of_hex zero h = refl
length-bytes_of_hex (suc n) h = omega (arith, length-bytes_of_hex n (drop 2 h))

pub length-hex_of_bytes : (bs : List ℕ) → length (hex_of_bytes bs) ≡ 2 * length bs
unfolding hex_of_bytes
length-hex_of_bytes [] = refl
length-hex_of_bytes (b ∷ bs) = omega (arith, length-hex_of_bytes bs)

all_below : ℕ → (ℕ → Bool) → Bool
all_below zero p = true
all_below (suc n) p = if p n then all_below n p else false

all_below_sound : (n : ℕ) (p : ℕ → Bool) (b : ℕ) → all_below n p ≡ true → b < n → p b ≡ true
unfolding all_below
all_below_sound zero p b h l = absurd (omega arith)
all_below_sound (suc n) p b h l = ground (arith, all_below_sound n p b)

reread : ℕ → ℕ
unfolding to_byte parse_int16 digit_char
reread b = to_byte (parse_int16 (digit_char (b / 16) ∷ digit_char (b % 16) ∷ []))

bytes_table : all_below 256 (λ b. reread b == b) ≡ true
unfolding all_below reread
bytes_table = refl

reread_self : (b : ℕ) → b < 256 → reread b ≡ b
reread_self b h = (==_iff (reread b) b).0 (all_below_sound 256 (λ x. reread x == x) b bytes_table h)

-- A byte array is read back from its hexadecimal text.
pub bytes_of_hex-hex_of_bytes :
    (bs : List ℕ) → All (λ b. b < 256) bs → bytes_of_hex (length bs) (hex_of_bytes bs) ≡ bs
unfolding bytes_of_hex hex_of_bytes reread
bytes_of_hex-hex_of_bytes [] h = refl
bytes_of_hex-hex_of_bytes (b ∷ bs) (p, h) =
    λ i. reread_self b p i ∷ bytes_of_hex-hex_of_bytes bs h i
