-- ===== src/Frontend/Units.antt =====
-- frontend/lib/bridge/utils.ts: amounts as texts and in base units, addresses, bytes.
pub mod RoundTrip
use lunarys_bridge.Prelude.{
  ℕ, ◌+◌, ◌-◌, ◌/◌, ◌%◌, leb, ltb, ◌==◌, Bool, true, false, ◌&&◌, ◌||◌, not, Option, none, some,
  List, [], ◌∷◌, ◌++◌, length, take, drop, if◌then◌else◌,
}
use lunarys_bridge.Prelude.Int.{ℤ, pos}
use lunarys_bridge.Prelude.Text.{
  Text, lit, is_empty, starts_with, pad_start, pad_end, split, first_part, second_part,
}
use lunarys_bridge.Prelude.Numeral.{big_int, to_text, trim}
use lunarys_bridge.Prelude.Hex.{bytes_of_hex}
use lunarys_bridge.Prelude.Effect.{Result, ok, thrown, plain, syntax}

-- `\d`
abbrev pub is_digit : ℕ → Bool
is_digit c = leb b'0' c && leb c b'9'

abbrev pub starts_with_digit : Text → Bool
starts_with_digit [] = false
starts_with_digit (d ∷ s) = is_digit d

-- `s.replace(/^0+(?=\d)/, '')`: leading zeros go while a digit follows.
unfoldable pub strip_zeros : Text → Text
strip_zeros [] = []
strip_zeros (c ∷ s) = if c == b'0' && starts_with_digit s then strip_zeros s else c ∷ s

-- `s.replace(/0+$/, '')`
unfoldable pub strip_end : Text → Text
strip_end [] = []
strip_end (c ∷ s) = let rest = strip_end s in if is_empty rest && c == b'0' then [] else c ∷ rest

abbrev pub or_zero : Text → Text
or_zero s = if is_empty s then lit "0" else s

-- The text that `BigInt` is asked to read.
unfoldable pub base_text : Text → Text → ℕ → Text
base_text i f_raw decimals =
    or_zero (strip_zeros (or_zero i ++ take decimals (pad_end decimals b'0' f_raw)))

-- `toBaseUnits`, where `none` is the SyntaxError of `BigInt`.
unfoldable pub to_base_units : Text → ℕ → Option ℤ
to_base_units human decimals =
    let parts = split b'.' (trim human) in
    big_int (base_text (first_part parts) (second_part parts) decimals)

unfoldable pub joined : Text → Text → Text
joined int frac = if is_empty frac then int else int ++ b'.' ∷ frac

-- `fromBaseUnits` of a bigint.
unfoldable pub from_base_units : ℤ → ℕ → Text
from_base_units amount decimals =
    let s = pad_start (decimals + 1) b'0' (to_text amount) in
    let cut = length s - decimals in joined (strip_zeros (take cut s)) (strip_end (drop cut s))

unfoldable pub without_0x : Text → Text
without_0x hex = if starts_with (b'0' ∷ b'x' ∷ []) hex then drop 2 hex else hex

-- `hexToBytes`
unfoldable pub hex_to_bytes : Text → Result (List ℕ)
hex_to_bytes hex =
    let h = without_0x hex in
    if length h % 2 == 0
    then ok (bytes_of_hex (length h / 2) h)
    else thrown (record { kind = plain; message = lit "hex inválido" })

-- `[1-9A-HJ-NP-Za-km-z]`
unfoldable pub is_base58 : ℕ → Bool
is_base58 c =
    (leb b'1' c && leb c b'9')
    || (leb b'A' c && leb c b'H')
    || (leb b'J' c && leb c b'N')
    || (leb b'P' c && leb c b'Z')
    || (leb b'a' c && leb c b'k')
    || (leb b'm' c && leb c b'z')

-- `[a-fA-F0-9]`
unfoldable pub is_hex : ℕ → Bool
is_hex c = (leb b'a' c && leb c b'f') || (leb b'A' c && leb c b'F') || (leb b'0' c && leb c b'9')

unfoldable pub every : (ℕ → Bool) → Text → Bool
every p [] = true
every p (c ∷ s) = p c && every p s

unfoldable pub is_valid_solana_address : Text → Bool
is_valid_solana_address address =
    let s = trim address in
    not (is_empty s) && leb 32 (length s) && leb (length s) 44 && every is_base58 s

unfoldable pub is_valid_ethereum_address : Text → Bool
is_valid_ethereum_address address =
    let s = trim address in
    starts_with (b'0' ∷ b'x' ∷ []) s && length s == 42 && every is_hex (drop 2 s)
