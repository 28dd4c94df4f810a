-- ===== src/Prelude/Json.antt =====
-- JavaScript values that JSON can give, `JSON.parse`, and reading a member. A number is modelled
-- where its text is that of an integer, rounded as a double is; one with a fraction or an exponent
-- keeps its text.
pub mod Objects
use lunarys_bridge.Prelude.Tests.{leb, ltb, ◌==◌, if◌then◌else◌}
use lunarys_bridge.Prelude.Int.{ℤ, pos, sub_ℕ}
use lunarys_bridge.Prelude.Text.{Text, lit, text_eq, starts_with}
use lunarys_bridge.Prelude.Double.{exponent, to_number}
use lunarys_bridge.Prelude.Lists.{drop, length}
use lunarys_bridge.Prelude.Numeral.{digit_value}
use Prim.Native.Nat.{ℕ, zero, suc, ◌+◌, ◌-◌, ◌*◌}
use mathlib.Core.Path.{◌≡◌, refl}
use mathlib.Core.Bool.{Bool, true, false, ◌&&◌, ◌||◌}
use mathlib.Core.Option.{Option, none, some}
use mathlib.Core.List.{[], ◌∷◌, ◌++◌}

mutual
  pub data Value : Type 0 where
    undefined null : Value
    boolean : Bool → Value
    number : ℤ → Value
    fraction : Text → Value
    string : Text → Value
    array : Values → Value
    object : Members → Value

  pub data Values : Type 0 where
    no_values : Values
    value : Value → Values → Values

  pub data Members : Type 0 where
    no_members : Members
    member : Text → Value → Members → Members

abbrev or_value : Value → Value → Value
or_value undefined v = v
or_value w v = w

-- Of two members of a name the later one counts.
unfoldable pub find : Text → Members → Value
find name no_members = undefined
find name (member k v ms) = or_value (find name ms) (if text_eq k name then v else undefined)

-- `v?.name` of a value that is not an array.
unfoldable pub get : Text → Value → Value
unfolding find
get name (object ms) = find name ms
get name v = undefined

-- What a parser reads, and what is left.
abbrev Read : Type 0 → Type 0
Read A = Option (A × Text)

infixl 5 ◌>>=◌
abbrev ◌>>=◌ : {A B : Type 0} → Read A → (A × Text → Read B) → Read B
◌>>=◌ none f = none
◌>>=◌ (some r) f = f r

abbrev is_blank : ℕ → Bool
is_blank c = c == 32 || (c == 9 || (c == 10 || c == 13))

unfoldable pub skip_blanks : Text → Text
skip_blanks [] = []
skip_blanks (c ∷ s) = if is_blank c then skip_blanks s else c ∷ s

abbrev expect : ℕ → Text → Read (Unit {0})
expect c [] = none
expect c (d ∷ s) = if c == d then some (tt, s) else none

unfoldable pub hex_digits : ℕ → ℕ → Text → Read ℕ
hex_digits zero acc s = some (acc, s)
hex_digits (suc k) acc [] = none
hex_digits (suc k) acc (c ∷ s) = elim (digit_value c) [
  | none ↦ none
  | some d ↦ elim (ltb d 16) [ true ↦ hex_digits k (acc * 16 + d) s | false ↦ none ]
]

abbrev simple_escape : ℕ → Option ℕ
simple_escape c =
    if c == b'n'
    then some 10
    else if c == b't'
    then some 9
    else if c == b'r'
    then some 13
    else if c == b'b'
    then some 8
    else if c == b'f'
    then some 12
    else if c == 34 || (c == 92 || c == b'/')
    then some c
    else none

-- Behind a backslash.
unfoldable pub escape : Text → Read ℕ
unfolding hex_digits digit_value
escape [] = none
escape (c ∷ s) =
    if c == b'u'
    then hex_digits 4 0 s
    else elim (simple_escape c) [ none ↦ none | some d ↦ some (d, s) ]

-- The characters up to the closing quote; each costs a unit of fuel.
unfoldable pub string_body : ℕ → Text → Text → Read Text
unfolding escape
string_body zero acc s = none
string_body (suc f) acc [] = none
string_body (suc f) acc (c ∷ s) = elim (c == 34) [
  | true ↦ some (acc, s)
  | false ↦ elim (c == 92) [
    | true ↦ escape s >>= λ r. string_body f (acc ++ r.0 ∷ []) r.1
    | false ↦ elim (ltb c 32) [ true ↦ none | false ↦ string_body f (acc ++ c ∷ []) s ]
  ]
]

-- The longest run of decimal digits, behind what has been read.
unfoldable pub run_of_digits : ℕ → Text → ℕ × Text
run_of_digits acc [] = (acc, [])
run_of_digits acc (c ∷ s) = elim (leb b'0' c && leb c b'9') [
  | true ↦ run_of_digits (acc * 10 + (c - b'0')) s
  | false ↦ (acc, c ∷ s)
]

abbrev pub starts_with_digit : Text → Bool
starts_with_digit [] = false
starts_with_digit (c ∷ s) = leb b'0' c && leb c b'9'

-- The characters that a fraction and an exponent can have; a malformed one is accepted too.
unfoldable pub skip_fraction : Text → Text
skip_fraction [] = []
skip_fraction (c ∷ s) =
    if (leb b'0' c && leb c b'9')
      || (c == b'.' || (c == b'e' || (c == b'E' || (c == b'+' || c == b'-'))))
    then skip_fraction s
    else c ∷ s

-- A fraction or an exponent follows.
abbrev goes_on : Text → Bool
goes_on [] = false
goes_on (c ∷ s) = c == b'.' || (c == b'e' || c == b'E')

unfoldable pub signed_number : Bool → ℕ → ℤ
signed_number true n = sub_ℕ 0 (to_number n)
signed_number false n = pos (to_number n)

abbrev is_digit : ℕ → Bool
is_digit c = leb b'0' c && leb c b'9'

-- The number behind whose digits `rest` is left; a zero with a digit behind it is refused.
abbrev pub after_digits : Bool → ℕ → Text → ℕ × Text → Read Value
after_digits neg c s (n, rest) =
    if c == b'0' && starts_with_digit s
    then none
    else if goes_on rest
    then some (fraction (c ∷ s), skip_fraction rest)
    else some (number (signed_number neg n), rest)

-- A text that has no digit is refused.
unfoldable pub number_body : Bool → Text → Read Value
unfolding run_of_digits signed_number
number_body neg [] = none
number_body neg (c ∷ s) =
    if is_digit c then after_digits neg c s (run_of_digits 0 (c ∷ s)) else none

unfoldable pub read_number : Text → Read Value
unfolding number_body
read_number [] = none
read_number (c ∷ s) = if c == b'-' then number_body true s else number_body false (c ∷ s)

abbrev literal : Text → Value → Text → Read Value
literal word v s = if starts_with word s then some (v, drop (length word) s) else none

-- `null`, `true`, `false` or a number.
unfoldable pub read_scalar : Text → Read Value
unfolding read_number starts_with
read_scalar s =
    if starts_with (lit "null") s
    then some (null, drop 4 s)
    else if starts_with (lit "true") s
    then some (boolean true, drop 4 s)
    else if starts_with (lit "false") s
    then some (boolean false, drop 5 s)
    else read_number s

abbrev pub head_is : ℕ → Text → Bool
head_is c [] = false
head_is c (d ∷ s) = c == d

-- Each call costs a unit of fuel.
unfoldable mutual
  unfolding skip_blanks string_body read_scalar

  pub read_value : ℕ → Text → Read Value
  read_value zero s = none
  read_value (suc f) s =
      let t = skip_blanks s in
      elim (head_is 34 t) [
        | true ↦ string_body (suc (length t)) [] (drop 1 t) >>= λ r. some (string r.0, r.1)
        | false ↦ elim (head_is b'[' t) [
          | true ↦ read_values f true (drop 1 t) >>= λ r. some (array r.0, r.1)
          | false ↦ elim (head_is b'{' t) [
            | true ↦ read_members f true (drop 1 t) >>= λ r. some (object r.0, r.1)
            | false ↦ read_scalar t
          ]
        ]
      ]

  -- The elements up to the closing bracket, the first one or later ones.
  pub read_values : ℕ → Bool → Text → Read Values
  read_values zero first s = none
  read_values (suc f) first s =
      let t = skip_blanks s in
      elim (first && head_is b']' t) [
        | true ↦ some (no_values, drop 1 t)
        | false ↦ read_value f t >>= λ v.
            let u = skip_blanks v.1 in
            elim (head_is b',' u) [
              | true ↦ read_values f false (drop 1 u) >>= λ vs. some (value v.0 vs.0, vs.1)
              | false ↦ expect b']' u >>= λ e. some (value v.0 no_values, e.1)
            ]
      ]

  pub read_members : ℕ → Bool → Text → Read Members
  read_members zero first s = none
  read_members (suc f) first s =
      let t = skip_blanks s in
      elim (first && head_is b'}' t) [
        | true ↦ some (no_members, drop 1 t)
        | false ↦ expect 34 t >>= λ q. string_body (suc (length t)) [] q.1 >>= λ k.
            expect b':' (skip_blanks k.1) >>= λ colon. read_value f colon.1 >>= λ v.
            let u = skip_blanks v.1 in
            elim (head_is b',' u) [
              | true ↦ read_members f false (drop 1 u) >>= λ ms. some (member k.0 v.0 ms.0, ms.1)
              | false ↦ expect b'}' u >>= λ e. some (member k.0 v.0 no_members, e.1)
            ]
      ]

abbrev at_end : Read Value → Option Value
at_end none = none
at_end (some (v, s)) = elim (skip_blanks s) [ [] ↦ some v | c ∷ t ↦ none ]

-- `JSON.parse(s)`, where `none` is its SyntaxError.
unfoldable pub json_parse : Text → Option Value
unfolding read_value read_values read_members skip_blanks
json_parse s = at_end (read_value (suc (2 * length s)) s)

tests :
    (json_parse (lit "{ 'a': [1, -20], 'b': null }") ≡ none)
    × (json_parse (lit "[12,true]")
        ≡ some (array (value (number (pos 12)) (value (boolean true) no_values))))
unfolding json_parse lit to_number exponent read_value read_values read_members skip_blanks
    string_body read_scalar
tests = (refl, refl)
