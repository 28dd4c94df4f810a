-- ===== src/Frontend/EvmError/Decode.antt =====
-- frontend/lib/bridge/evm/error.ts: revert data, decoded by its selector. AbiCoder, id and toBeHex
-- are ethers'.
use lunarys_bridge.Prelude.{ℕ, Option, none, some, List, [], ◌∷◌, ◌++◌, take, drop, if◌then◌else◌}
use lunarys_bridge.Prelude.Int.{ℤ}
use lunarys_bridge.Prelude.Text.{Text, lit, text_eq, is_empty, starts_with, to_lower}
use lunarys_bridge.Prelude.Effect.{Result, ok, thrown}
use lunarys_bridge.Prelude.Json.{Value, null, string, object, member, no_members, get, json_parse}
use lunarys_bridge.Frontend.EvmError.ArgTypes.{name_of, parse_arg_types}
use lunarys_bridge.Frontend.EvmError.Known.{new_relayer_error_sigs, oz_error_sigs, fhe_error_sigs}

pub data Kind : Type 0 where
  custom revert panic unknown : Kind

-- A decoded argument of the signatures below: an address's text, or a bigint.
pub data Arg : Type 0 where
  word : Text → Arg
  int : ℤ → Arg

pub record DecodedEvmError : Type 0 where
  pub kind : Kind
  pub selector : Option Text
  pub signature : Option Text
  pub name : Option Text
  pub arg_types : Option (List Text)
  pub args : Option (List Arg)
  pub reason : Option Text
  pub panic_code_hex : Option Text
  pub readable : Text
  pub raw_data : Option Text

pub record Ethers : Type 0 where
  pub id : Text → Text
  pub decode_string : Text → Result Text
  pub decode_uint : Text → Result ℕ
  pub decode : List Text → Text → Result (List Arg)
  pub to_be_hex : ℕ → Text

-- A dictionary; of two entries of a key the first one counts.
abbrev pub Dictionary : Type 0
Dictionary = List (Text × Text)

unfoldable pub lookup : Text → Dictionary → Option Text
lookup k [] = none
lookup k ((j, v) ∷ d) = if text_eq j k then some v else lookup k d

abbrev pub revert_selector : Text
revert_selector = lit "0x08c379a0"

abbrev pub panic_selector : Text
panic_selector = lit "0x4e487b71"

unfoldable pub panic_map : Dictionary
panic_map =
    (lit "0x01", lit "assert(false) / unreachable")
    ∷ (lit "0x11", lit "arithmetic overflow/underflow")
    ∷ (lit "0x12", lit "divide by zero")
    ∷ (lit "0x21", lit "invalid enum value")
    ∷ (lit "0x22", lit "out-of-bounds / negative index")
    ∷ (lit "0x31", lit "pop on empty array")
    ∷ (lit "0x32", lit "array out-of-bounds")
    ∷ (lit "0x41", lit "memory overflow")
    ∷ (lit "0x51", lit "invalid internal function call")
    ∷ []

-- The first candidate that is a text with `0x` in front.
unfoldable pub first_data : List Value → Option Text
first_data [] = none
first_data (string s ∷ vs) = if starts_with (b'0' ∷ b'x' ∷ []) s then some s else first_data vs
first_data (v ∷ vs) = first_data vs

abbrev data_of_body : Option Value → Value
data_of_body none = null
data_of_body (some parsed) = get (lit "data") (get (lit "error") parsed)

unfoldable pub body_data : Value → Value
body_data (string s) = data_of_body (json_parse s)
body_data v = null

-- `extractData`
unfoldable pub extract_data : Value → Option Text
extract_data e = first_data (
    get (lit "data") e
    ∷ get (lit "data") (get (lit "error") e)
    ∷ get (lit "data") (get (lit "error") (get (lit "info") e))
    ∷ get (lit "data") (get (lit "cause") e)
    ∷ get (lit "data") (get (lit "error") (get (lit "cause") e))
    ∷ body_data (get (lit "body") e)
    ∷ [])

abbrev no_error : Kind → Text → DecodedEvmError
no_error kind readable = record {
  kind = kind;
  selector = none;
  signature = none;
  name = none;
  arg_types = none;
  args = none;
  reason = none;
  panic_code_hex = none;
  readable = readable;
  raw_data = none;
}

-- `s || t`
abbrev or_else : Text → Text → Text
or_else s t = if is_empty s then t else s

abbrev payload : Text → Text
payload data_text = lit "0x" ++ drop 10 data_text

unfoldable pub reverted : Text → Result Text → Result DecodedEvmError
reverted data_text (thrown e) = thrown e
reverted data_text (ok r) = ok (record (no_error revert (or_else r (lit "Revert(string)"))) {
  selector = some revert_selector;
  reason = some r;
  raw_data = some data_text;
})

abbrev or_unknown : Option Text → Text
or_unknown none = lit "unknown panic"
or_unknown (some s) = s

unfoldable pub panicked : Text → Text → DecodedEvmError
panicked data_text hex =
    record (no_error panic
      (lit "Panic(" ++ hex ++ lit ") — " ++ or_unknown (lookup hex panic_map))) {
        selector = some panic_selector;
        panic_code_hex = some hex;
        raw_data = some data_text;
      }

abbrev decoded : Result (List Arg) → Option (List Arg)
decoded (ok args) = some args
decoded (thrown e) = none

module _ (ethers : Ethers) where
  abbrev on_panic : Text → Result ℕ → Result DecodedEvmError
  on_panic data_text (thrown e) = thrown e
  on_panic data_text (ok code) = ok (panicked data_text (ethers.to_be_hex code))

  -- `id(signature).slice(0, 10).toLowerCase()`
  unfoldable pub selector_of : Text → Text
  selector_of signature = to_lower (take 10 (ethers.id signature))

  -- `buildSelectorMap`: a later signature replaces an earlier one of the same selector.
  unfoldable pub build_selector_map : List Text → Dictionary
  build_selector_map [] = []
  build_selector_map (sig ∷ sigs) = build_selector_map sigs ++ (selector_of sig, sig) ∷ []

  -- `makeSelectorMap`
  unfoldable pub make_selector_map : List (List Text) → Dictionary
  make_selector_map [] = []
  make_selector_map (group ∷ groups) = make_selector_map groups ++ build_selector_map group

  unfoldable pub decode_args : List Text → Text → Option (List Arg)
  decode_args [] data_text = none
  decode_args (t ∷ ts) data_text = decoded (ethers.decode (t ∷ ts) (payload data_text))

  -- By the selector alone.
  unfoldable pub decode_custom : Text → Option Text → DecodedEvmError
  decode_custom data_text none = record (no_error unknown (lit "Revert " ++ take 10 data_text)) {
    selector = some (take 10 data_text);
    raw_data = some data_text;
  }
  decode_custom data_text (some signature) = record (no_error custom (name_of signature)) {
    selector = some (take 10 data_text);
    signature = some signature;
    name = some (name_of signature);
    arg_types = some (parse_arg_types signature);
    args = decode_args (parse_arg_types signature) data_text;
    raw_data = some data_text;
  }

  unfoldable pub decode_data : Dictionary → Text → Result DecodedEvmError
  decode_data map data_text =
      if starts_with revert_selector data_text
      then reverted data_text (ethers.decode_string (payload data_text))
      else if starts_with panic_selector data_text
      then on_panic data_text (ethers.decode_uint (payload data_text))
      else ok (decode_custom data_text (lookup (take 10 data_text) map))

  -- A member that is a text and not empty.
  abbrev text_member : Value → Option Text
  text_member (string s) = if is_empty s then none else some s
  text_member v = none

  abbrev or_message : Option Text → Option Text → Option DecodedEvmError
  or_message (some msg) other = some (no_error unknown msg)
  or_message none (some msg) = some (no_error unknown msg)
  or_message none none = none

  abbrev defined : Result DecodedEvmError → Result (Option DecodedEvmError)
  defined (ok d) = ok (some d)
  defined (thrown e) = thrown e

  -- With the data in lower case, or the error's message where there is no data; a decoder that
  -- throws is not caught.
  unfoldable pub decode_by_selector : Value → Dictionary → Result (Option DecodedEvmError)
  decode_by_selector err map = elim (extract_data err) [
    | none ↦ ok (
        or_message (text_member (get (lit "shortMessage") err))
          (text_member (get (lit "message") err)))
    | some data_text ↦ defined (decode_data map (to_lower data_text))
  ]

  -- `decodeFromData`
  unfoldable pub decode_from_data : Text → Dictionary → Result (Option DecodedEvmError)
  decode_from_data data_text =
      decode_by_selector (object (member (lit "data") (string data_text) no_members))

-- `DEFAULT_SELECTOR_MAP`
unfoldable pub default_selector_map : Ethers → Dictionary
default_selector_map ethers =
    build_selector_map ethers fhe_error_sigs
    ++ build_selector_map ethers oz_error_sigs
    ++ build_selector_map ethers new_relayer_error_sigs
