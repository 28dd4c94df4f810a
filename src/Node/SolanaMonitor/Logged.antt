-- ===== src/Node/SolanaMonitor/Logged.antt =====
-- What the node reads of an event that the program logs as JSON.
use lunarys_bridge.Prelude.{
  ℕ, suc, ◌-◌, ◌*◌, ◌≤◌, ◌≡◌, refl, ap, ◌∙◌, inl, inr, true, false, some, List, [], ◌∷◌, ◌++◌,
  length, find?, All, All-append, arith,
}
use lunarys_bridge.Prelude.Int.{pos}
use lunarys_bridge.Prelude.Text.{Text, lit, starts_with, text_eq}
use lunarys_bridge.Prelude.Double.{to_number}
use lunarys_bridge.Prelude.Numeral.{digits, trim}
use lunarys_bridge.Prelude.Numeral.RoundTrip.{IsDigit, digits-IsDigit}
use lunarys_bridge.Prelude.Numeral.Trimmed.{IsSolid, printed-IsSolid, trim-of-IsSolid}
use lunarys_bridge.Prelude.Json.{
  number, string, object, Members, no_members, member, find, get, read_members, json_parse,
}
use lunarys_bridge.Prelude.Json.Objects.{
  IsWord, all_words-All, read_value-digits, read_value-string, read_members-next, read_members-last,
  json_parse-object,
}
use lunarys_bridge.Node.SolanaMonitor.{
  SolBridgeInitiated, text_of, big_int_of, event_of, includes, until_next, behind_first,
  second_part_at, event_of_json, json_part, or_then, on_logs, second_format, first_format,
  try_parse_bridge_initiated,
}

abbrev marker : Text
marker = lit "Event: BridgeInitiated"

abbrev field : Text → Text → Text
field name rest = 34 ∷ (name ++ 34 ∷ b':' ∷ rest)

abbrev quoted : Text → Text → Text
quoted s rest = 34 ∷ (s ++ 34 ∷ rest)

-- A printed character of ASCII, and no blank.
abbrev IsInk : ℕ → Type 0
IsInk c = (33 ≤ c) × (c ≤ 126)

word-IsInk : (s : Text) → All IsWord s → All IsInk s
word-IsInk [] h = tt
word-IsInk (c ∷ s) (p, h) = ((ground arith, ground arith), word-IsInk s h)

digit-IsInk : (s : Text) → All IsDigit s → All IsInk s
digit-IsInk [] h = tt
digit-IsInk (c ∷ s) (p, h) = ((omega arith, omega arith), digit-IsInk s h)

ink-IsSolid : (s : Text) → All IsInk s → All IsSolid s
ink-IsSolid [] h = tt
ink-IsSolid (c ∷ s) (p, h) = (printed-IsSolid c p.0 p.1, ink-IsSolid s h)

abbrev dense : {c : ℕ} → 33 ≤ c → c ≤ 126 → IsInk c
dense h k = (h, k)

field-IsInk : (name rest : Text) → All IsWord name → All IsInk rest → All IsInk (field name rest)
field-IsInk name rest h k = (
  dense (omega arith) (omega arith),
  All-append IsInk name _ (word-IsInk name h)
      (dense (omega arith) (omega arith), (dense (omega arith) (omega arith), k)),
)

quoted-IsInk : (s rest : Text) → All IsWord s → All IsInk rest → All IsInk (quoted s rest)
quoted-IsInk s rest h k = (
  dense (omega arith) (omega arith),
  All-append IsInk s _ (word-IsInk s h) (dense (omega arith) (omega arith), k),
)

digits-IsInk :
    (n c : ℕ) (rest : Text) → IsInk c → All IsInk rest → All IsInk (digits 10 n ++ c ∷ rest)
digits-IsInk n c rest h k =
    All-append IsInk (digits 10 n) _ (digit-IsInk _ (digits-IsDigit n)) (h, k)

-- A text without blanks does not start with one that has a blank.
starts_with-blank : (p q s : Text) → All IsInk s → starts_with (p ++ 32 ∷ q) s ≡ false
unfolding starts_with
starts_with-blank [] q [] h = refl
starts_with-blank [] q (c ∷ s) (p, h) = ground arith
starts_with-blank (d ∷ p) q [] h = refl
starts_with-blank (d ∷ p) q (c ∷ s) (i, h) = ground (arith, starts_with-blank p q s h)

until_next-ink : (s : Text) → All IsInk s → until_next marker s ≡ s
unfolding until_next starts_with lit
until_next-ink [] h = refl
until_next-ink (c ∷ s) (p, h) =
    rw (until_next, starts_with-blank (lit "Event:") (lit "BridgeInitiated") (c ∷ s) (p, h))
      (ap (λ t. c ∷ t) (until_next-ink s h))

until_next-blank : (s : Text) → until_next marker (32 ∷ s) ≡ 32 ∷ until_next marker s
unfolding until_next starts_with lit
until_next-blank s = refl

trim-blank : (s : Text) → trim (32 ∷ s) ≡ trim s
unfolding trim
trim-blank s = refl

json_part-brace : (s : Text) → json_part (b'{' ∷ s) ≡ b'{' ∷ s
unfolding starts_with
json_part-brace s = refl

find-first :
    (before after : List Text) (line : Text)
    → All (λ l. includes marker l ≡ false) before
    → includes marker line ≡ true
    → find? (includes marker) (before ++ line ∷ after) ≡ some line
find-first [] after line h k = rw k refl
find-first (l ∷ before) after line (p, h) k = rw p (find-first before after line h k)

request_id-IsWord : All IsWord (lit "request_id")
unfolding lit
request_id-IsWord = all_words-All (lit "request_id") refl

sender-IsWord : All IsWord (lit "sender")
unfolding lit
sender-IsWord = all_words-All (lit "sender") refl

token-IsWord : All IsWord (lit "token")
unfolding lit
token-IsWord = all_words-All (lit "token") refl

amount_after_fee-IsWord : All IsWord (lit "amount_after_fee")
unfolding lit
amount_after_fee-IsWord = all_words-All (lit "amount_after_fee") refl

module _ (id amount : ℕ) (payer mint : Text) where
  abbrev amount_field : Text
  amount_field = field (lit "amount_after_fee") (digits 10 amount ++ b'}' ∷ [])

  abbrev token_field : Text
  token_field = field (lit "token") (quoted mint (b',' ∷ amount_field))

  abbrev sender_field : Text
  sender_field = field (lit "sender") (quoted payer (b',' ∷ token_field))

  abbrev members : Text
  members = field (lit "request_id") (digits 10 id ++ b',' ∷ sender_field)

  -- The object without blanks.
  abbrev pub event_json : Text
  event_json = b'{' ∷ members

  abbrev pub event_line : Text
  event_line = lit "Program log: Event: BridgeInitiated " ++ event_json

  abbrev pub read_event : SolBridgeInitiated
  read_event = record {
    request_id = pos (to_number id);
    payer = payer;
    mint = mint;
    amount_after_fee = pos (to_number amount);
  }

  abbrev parsed : Members
  parsed = member (lit "request_id") (number (pos (to_number id))) (
      member (lit "sender") (string payer) (
        member (lit "token") (string mint)
          (member (lit "amount_after_fee") (number (pos (to_number amount))) no_members)))

  module _ (payer_word : All IsWord payer) (mint_word : All IsWord mint) where
    read_fields :
        (f : ℕ) → read_members (suc (suc (suc (suc (suc f))))) true members ≡ some (parsed, [])
    unfolding lit
    read_fields f =
        read_members-next _ true (lit "request_id") _ _ _ request_id-IsWord
          (read_value-digits _ id b',' _ (inl refl))
          (read_members-next _ false (lit "sender") _ _ _ sender-IsWord
            (read_value-string _ payer _ payer_word)
            (read_members-next _ false (lit "token") _ _ _ token-IsWord
              (read_value-string _ mint _ mint_word)
              (read_members-last _ (lit "amount_after_fee") _ _ amount_after_fee-IsWord
                (read_value-digits f amount b'}' [] (inr refl)))))

    event_of-parsed : event_of (object parsed) ≡ some read_event
    unfolding event_of big_int_of text_of find get text_eq lit
    event_of-parsed = refl

    json_parse-event : json_parse event_json ≡ some (object parsed)
    unfolding lit
    json_parse-event =
        let f = 2 * length event_json - 5 in
        let enough : 2 * length event_json ≡ suc (suc (suc (suc (suc f)))) = omega arith in
        json_parse-object members (ap (λ g. read_members g true members) enough ∙ read_fields f)

    event_json-IsInk : All IsInk event_json
    event_json-IsInk =
        let comma = dense {c = b','} (omega arith) (omega arith) in
        let last =
          field-IsInk (lit "amount_after_fee") (digits 10 amount ++ b'}' ∷ [])
            amount_after_fee-IsWord
            (digits-IsInk amount b'}' [] (dense (omega arith) (omega arith)) tt) in
        let token =
          field-IsInk (lit "token") (quoted mint (b',' ∷ amount_field)) token-IsWord
            (quoted-IsInk mint (b',' ∷ amount_field) mint_word (comma, last)) in
        let sender =
          field-IsInk (lit "sender") (quoted payer (b',' ∷ token_field)) sender-IsWord
            (quoted-IsInk payer (b',' ∷ token_field) payer_word (comma, token)) in
        (
          dense (omega arith) (omega arith),
          field-IsInk (lit "request_id") (digits 10 id ++ b',' ∷ sender_field) request_id-IsWord
              (digits-IsInk id b',' sender_field comma sender),
        )

    line-includes : includes marker event_line ≡ true
    unfolding includes starts_with lit
    line-includes = refl

    line-behind : behind_first marker event_line ≡ 32 ∷ event_json
    unfolding behind_first starts_with lit
    line-behind = refl

    line-first_format : first_format (some event_line) ≡ some read_event
    unfolding first_format second_part_at
    line-first_format =
        ap (λ s. event_of_json (json_parse (json_part (trim (until_next marker s))))) line-behind
        ∙ ap (λ s. event_of_json (json_parse (json_part (trim s)))) (until_next-blank event_json)
        ∙ ap (λ s. event_of_json (json_parse (json_part (trim (32 ∷ s)))))
            (until_next-ink event_json event_json-IsInk)
        ∙ ap (λ s. event_of_json (json_parse (json_part s)))
            (trim-blank event_json
              ∙ trim-of-IsSolid event_json (ink-IsSolid event_json event_json-IsInk))
        ∙ ap (λ s. event_of_json (json_parse s)) (json_part-brace members)
        ∙ ap event_of_json json_parse-event
        ∙ event_of-parsed

    -- Of logs with a line `Program log: Event: BridgeInitiated {…}`, an object without blanks whose
    -- payer and mint are letters and digits, and no line before it that has `Event: BridgeInitiated`,
    -- the node emits that event, with the id and the amount as the doubles nearest to them.
    pub reads_logged_event :
        (before after : List Text)
        → All (λ l. includes marker l ≡ false) before
        → on_logs false (before ++ event_line ∷ after) ≡ some read_event
    unfolding on_logs try_parse_bridge_initiated
    reads_logged_event before after h =
        let found = find-first before after event_line h line-includes in
        ap
          (λ o. or_then (first_format o) (
            second_format
              (find? (includes (lit "BridgeInitiated:")) (before ++ event_line ∷ after))))
          found
        ∙ ap
            (λ o. or_then o (
              second_format
                (find? (includes (lit "BridgeInitiated:")) (before ++ event_line ∷ after))))
            line-first_format
