-- ===== src/Node/SolanaMonitor.antt =====
-- node/src/bridge-sol-to-evm/services/solana-monitor.service.ts: what the node reads from the
-- program's logs. A JSON number with a fraction or an exponent keeps its text, which `BigInt` refuses
-- here even where its value is whole.
pub mod Logged
use lunarys_bridge.Prelude.{
  ℕ, Bool, true, false, Option, none, some, List, [], ◌∷◌, ◌++◌, length, drop, find?, ◌==◌,
  if◌then◌else◌,
}
use lunarys_bridge.Prelude.Int.{ℤ, pos}
use lunarys_bridge.Prelude.Text.{Text, lit, starts_with}
use lunarys_bridge.Prelude.Numeral.{big_int, to_text, trim}
use lunarys_bridge.Prelude.Json.{
  Value, undefined, null, boolean, number, fraction, string, array, object, Values, no_values,
  value, get, json_parse,
}

pub record SolBridgeInitiated : Type 0 where
  pub request_id : ℤ
  pub payer : Text
  pub mint : Text
  pub amount_after_fee : ℤ

-- An element of an array in `String`: `null` leaves nothing.
abbrev element_text : Value → Text → Text
element_text undefined s = []
element_text null s = []
element_text v s = s

-- `String(v)`
unfoldable mutual
  pub text_of : Value → Text
  text_of undefined = lit "undefined"
  text_of null = lit "null"
  text_of (boolean true) = lit "true"
  text_of (boolean false) = lit "false"
  text_of (number z) = to_text z
  text_of (fraction s) = s
  text_of (string s) = s
  text_of (array vs) = text_of_all vs
  text_of (object ms) = lit "[object Object]"

  pub text_of_all : Values → Text
  text_of_all no_values = []
  text_of_all (value v no_values) = element_text v (text_of v)
  text_of_all (value v (value w vs)) = element_text v (text_of v) ++ b',' ∷ text_of_all (value w vs)

-- `BigInt(v)`, where `none` is an error.
unfoldable pub big_int_of : Value → Option ℤ
unfolding text_of text_of_all
big_int_of undefined = none
big_int_of null = none
big_int_of (boolean true) = some (pos 1)
big_int_of (boolean false) = some (pos 0)
big_int_of (number z) = some z
big_int_of (fraction s) = none
big_int_of v = big_int (text_of v)

-- `a ?? b`
abbrev or_else : Value → Value → Value
or_else undefined b = b
or_else null b = b
or_else a b = a

abbrev either : Text → Text → Value → Value
either name other v = or_else (get name v) (get other v)

abbrev with_amount : ℤ → Text → Text → Option ℤ → Option SolBridgeInitiated
with_amount id payer mint none = none
with_amount id payer mint (some amount) =
    some (record { request_id = id; payer = payer; mint = mint; amount_after_fee = amount })

abbrev with_id : Value → Option ℤ → Option SolBridgeInitiated
with_id v none = none
with_id v (some id) =
    with_amount id (text_of (either (lit "sender") (lit "payer") v))
      (text_of (either (lit "token") (lit "mint") v))
      (big_int_of (either (lit "amount_after_fee") (lit "amountAfterFee") v))

-- The event of an object; `none` is an error of the `try`.
unfoldable pub event_of : Value → Option SolBridgeInitiated
event_of v = with_id v (big_int_of (either (lit "request_id") (lit "requestId") v))

abbrev pub event_of_json : Option Value → Option SolBridgeInitiated
event_of_json none = none
event_of_json (some v) = event_of v

-- `s.includes(p)`
unfoldable pub includes : Text → Text → Bool
includes p [] = starts_with p []
includes p (c ∷ s) = if starts_with p (c ∷ s) then true else includes p s

-- `s.split(p)[1]`, of a text that includes `p`: what stands behind the first `p`, up to the next.
unfoldable pub until_next : Text → Text → Text
until_next p [] = []
until_next p (c ∷ s) = let rest = until_next p s in if starts_with p (c ∷ s) then [] else c ∷ rest

unfoldable pub behind_first : Text → Text → Text
behind_first p [] = []
behind_first p (c ∷ s) =
    let rest = behind_first p s in if starts_with p (c ∷ s) then drop (length p) (c ∷ s) else rest

unfoldable pub second_part_at : Text → Text → Text
second_part_at p s = until_next p (behind_first p s)

-- `s.slice(s.indexOf('{'))`, which is the last character where there is no brace.
unfoldable pub last_only : Text → Text
last_only [] = []
last_only (c ∷ []) = c ∷ []
last_only (c ∷ d ∷ s) = last_only (d ∷ s)

unfoldable pub from_brace : Text → Text
from_brace [] = []
from_brace (c ∷ s) = let rest = from_brace s in if c == b'{' then c ∷ s else rest

abbrev slice_from_brace : Text → Text
slice_from_brace s = if includes (b'{' ∷ []) s then from_brace s else last_only s

abbrev pub json_part : Text → Text
json_part s = if starts_with (b'{' ∷ []) s then s else slice_from_brace s

-- `Event: BridgeInitiated { … }`
unfoldable pub first_format : Option Text → Option SolBridgeInitiated
first_format none = none
first_format (some line) =
    event_of_json
      (json_parse (json_part (trim (second_part_at (lit "Event: BridgeInitiated") line))))

-- `BridgeInitiated: { … }`
unfoldable pub second_format : Option Text → Option SolBridgeInitiated
second_format none = none
second_format (some line) =
    event_of_json (json_parse (trim (second_part_at (lit "BridgeInitiated:") line)))

abbrev pub or_then :
    Option SolBridgeInitiated → Option SolBridgeInitiated → Option SolBridgeInitiated
or_then none other = other
or_then (some ev) other = some ev

unfoldable pub try_parse_bridge_initiated : List Text → Option SolBridgeInitiated
try_parse_bridge_initiated logs =
    or_then (first_format (find? (includes (lit "Event: BridgeInitiated")) logs))
      (second_format (find? (includes (lit "BridgeInitiated:")) logs))

-- The listener of `start`: the event that it emits, given whether the transaction failed.
unfoldable pub on_logs : Bool → List Text → Option SolBridgeInitiated
on_logs true logs = none
on_logs false logs = try_parse_bridge_initiated logs
