-- ===== src/Frontend/Tests.antt =====
-- The web page's functions on concrete inputs.
mod Sending
use lunarys_bridge.Prelude.{
  ℕ, ◌*◌, ◌+◌, ◌^◌, ◌<◌, ◌≤◌, ◌≡◌, ◌≢◌, refl, Bool, true, false, ◌&&◌, ◌||◌, not, Option, none,
  some, List, [], ◌∷◌, All, map, take, get_elem?, any, arith, ◌++◌, if◌then◌else◌,
}
use lunarys_bridge.Prelude.Int.{ℤ, pos}
use lunarys_bridge.Prelude.Text.{
  Text, lit, text_eq, starts_with, to_lower, lower, pad_start, pad_end, split,
}
use lunarys_bridge.Prelude.Numeral.{digits, to_text, trim, big_int, scan, is_space}
use lunarys_bridge.Prelude.Hex.{bytes_of_hex}
use lunarys_bridge.Prelude.Bytes.{le_bytes}
use lunarys_bridge.Prelude.Effect.{Result, ok}
use lunarys_bridge.Frontend.Units.{
  strip_zeros, strip_end, base_text, to_base_units, joined, from_base_units, every, without_0x,
  is_base58, is_hex, is_valid_solana_address, is_valid_ethereum_address, hex_to_bytes,
}
use lunarys_bridge.Frontend.Units.RoundTrip.{to_base_units-from_base_units}
use lunarys_bridge.Frontend.Amount.{is_amount, combine, to_u64_from_human}
use lunarys_bridge.Frontend.Amount.Agreement.{to_u64_agrees}
use lunarys_bridge.Frontend.Words.{
  u64_le, be_value, FourWords, word_at, is_lower_hex, buf32, words_of, eth_address_to_4u64,
}
use lunarys_bridge.Frontend.Words.Packing.{eth_address_words}
use lunarys_bridge.Frontend.EvmError.Decode.{
  DecodedEvmError, Ethers, revert_selector, panic_selector, selector_of, decode_data,
  default_selector_map,
}
use lunarys_bridge.Frontend.EvmError.ArgTypes.{name_of, parse_arg_types}
use lunarys_bridge.Frontend.EvmError.Pretty.{specific_message, pretty_bridge_error}
use lunarys_bridge.Frontend.EvmError.Known.{new_relayer_error_sigs, oz_error_sigs, fhe_error_sigs}
use lunarys_bridge.Frontend.EvmError.Signatures.{
  IsPlain, IsTypeName, Closing, done, plain, comma, opens, closes, signature_of,
  parse_arg_types-signature_of,
}
use lunarys_bridge.Frontend.EvmError.Messages.{default_sigs, no_repeats, known_error_has_message}

units_test :
    (to_base_units (lit " 5.25 ") 6 ≡ some (pos 5250000))
    × (to_base_units (lit ".5") 2 ≡ some (pos 50))
    × (to_base_units (lit "1,5") 2 ≡ none)
    × (from_base_units (pos 5250000) 6 ≡ lit "5.25")
    × (from_base_units (pos 7) 0 ≡ lit "7")
unfolding to_base_units from_base_units base_text strip_zeros strip_end joined lit trim big_int
    split pad_end pad_start to_text
units_test = (refl, refl, refl, refl, refl)

addresses_test :
    (is_valid_ethereum_address (lit "0x00000000000000000000000000000000000000aB") ≡ true)
    × (is_valid_ethereum_address (lit "0x00000000000000000000000000000000000000a") ≡ false)
    × (is_valid_solana_address (lit "11111111111111111111111111111111") ≡ true)
    × (is_valid_solana_address (lit "1111111111111111111111111111111O") ≡ false)
    × (hex_to_bytes (lit "0xfF01") ≡ ok (255 ∷ 1 ∷ []))
unfolding is_valid_ethereum_address is_valid_solana_address is_hex is_base58 every hex_to_bytes
    bytes_of_hex without_0x starts_with lit trim
addresses_test = (refl, refl, refl, refl, refl)

to_base_units-from_base_units_example :
    to_base_units (from_base_units (pos 5250000) 6) 6 ≡ some (pos 5250000)
to_base_units-from_base_units_example = to_base_units-from_base_units 5250000 6

read_u64 : to_u64_from_human (lit "5.25") 6 ≡ ok (pos 5250000)
unfolding to_u64_from_human combine is_amount every lit trim big_int split
read_u64 = refl

to_u64_agrees_example : to_base_units (lit "5.25") 6 ≡ some (pos 5250000)
to_u64_agrees_example = to_u64_agrees (lit "5.25") 6 read_u64

abbrev address : Text
address = lit "0x00000000000000000000000000000000000000aB"

abbrev words : FourWords
words = record { p0 = 0; p1 = 0; p2 = 0; p3 = 171 }

address_packs : eth_address_to_4u64 address true ≡ ok words
unfolding eth_address_to_4u64 words_of word_at buf32 be_value is_lower_hex every without_0x to_lower
    lower starts_with lit trim bytes_of_hex
address_packs = refl

eth_address_words_example :
    (words.p0 ≡ 0)
    × (be_value 0 (bytes_of_hex 20 (without_0x (to_lower (trim address))))
        ≡ words.p1 * 2 ^ 128 + words.p2 * 2 ^ 64 + words.p3)
eth_address_words_example = eth_address_words address address_packs

abbrev plain_type : Text
plain_type = lit "uint256"

no_parenthesis : All (λ c. c ≢ b'(') (lit "BondTooLow")
unfolding lit
no_parenthesis = omega arith

letter : {c : ℕ} → 48 ≤ c → c < 123 → IsPlain c
unfolding is_space
letter h k = record {
  no_open = λ e. absurd (omega arith);
  no_close = λ e. absurd (omega arith);
  no_comma = λ e. absurd (omega arith);
  ink = ground arith;
}

uint_closes : {d : ℕ} (t : Text) → Closing d t → Closing d (plain_type ++ t)
unfolding lit
uint_closes t h = plain (letter (omega arith) (omega arith)) (
    plain (letter (omega arith) (omega arith)) (
      plain (letter (omega arith) (omega arith)) (
        plain (letter (omega arith) (omega arith)) (
          plain (letter (omega arith) (omega arith)) (
            plain (letter (omega arith) (omega arith))
              (plain (letter (omega arith) (omega arith)) h))))))

uint_is_type : IsTypeName plain_type
unfolding lit
uint_is_type = record { balanced = uint_closes [] done; something = refl }

-- `(uint256,(uint256))`
abbrev tuple_type : Text
tuple_type = b'(' ∷ plain_type ++ b',' ∷ b'(' ∷ plain_type ++ b')' ∷ b')' ∷ []

tuple_is_type : IsTypeName tuple_type
unfolding lit
tuple_is_type = record {
  balanced = opens (uint_closes _ (comma (opens (uint_closes _ (closes (closes done))))));
  something = refl;
}

parse_arg_types-signature_of_example :
    (parse_arg_types (signature_of (lit "BondTooLow") (tuple_type ∷ plain_type ∷ []))
      ≡ tuple_type ∷ plain_type ∷ [])
    × (name_of (signature_of (lit "BondTooLow") (tuple_type ∷ plain_type ∷ [])) ≡ lit "BondTooLow")
parse_arg_types-signature_of_example =
    parse_arg_types-signature_of (lit "BondTooLow") (tuple_type ∷ plain_type ∷ []) no_parenthesis
      (tuple_is_type, (uint_is_type, tt))

-- A hash that numbers the listed signatures.
unfoldable position : Text → List Text → ℕ
position s [] = 0
position s (t ∷ ts) = if text_eq s t then 0 else 1 + position s ts

abbrev ethers : Ethers
ethers = record {
  id = λ s. lit "0x" ++ pad_start 8 b'0' (digits 10 (position s default_sigs));
  decode_string = λ s. ok [];
  decode_uint = λ s. ok 0;
  decode = λ types s. ok [];
  to_be_hex = λ n. lit "0x" ++ digits 16 n;
}

distinct_selectors : no_repeats (map (selector_of ethers) default_sigs) ≡ true
unfolding no_repeats selector_of default_sigs position new_relayer_error_sigs oz_error_sigs
    fhe_error_sigs text_eq lit to_lower lower pad_start digits
distinct_selectors = refl

abbrev bond_too_low : Text
bond_too_low = lit "BondTooLow()"

abbrev revert_data : Text
revert_data = lit "0x00000011"

at_eleven : get_elem? default_sigs 11 ≡ some bond_too_low
unfolding default_sigs new_relayer_error_sigs oz_error_sigs fhe_error_sigs
at_eleven = refl

its_selector : take 10 revert_data ≡ selector_of ethers bond_too_low
unfolding selector_of default_sigs position new_relayer_error_sigs oz_error_sigs fhe_error_sigs
    text_eq lit to_lower lower pad_start digits
its_selector = refl

no_revert : starts_with revert_selector revert_data ≡ false
unfolding starts_with lit
no_revert = refl

no_panic : starts_with panic_selector revert_data ≡ false
unfolding starts_with lit
no_panic = refl

known_error_has_message_example :
    (d : DecodedEvmError) × (m : Text) × (decode_data ethers
        (default_selector_map ethers)
        revert_data
      ≡ ok d)
    × (d.name ≡ some (name_of bond_too_low))
    × (specific_message (name_of bond_too_low) d.args ≡ some m)
    × (pretty_bridge_error (some d) ≡ m)
known_error_has_message_example =
    known_error_has_message ethers distinct_selectors 11 revert_data at_eleven its_selector
      no_revert no_panic
