-- ===== src/Frontend/EvmError/ArgTypes.antt =====
-- frontend/lib/bridge/evm/error.ts: the name and the types in a signature.
use lunarys_bridge.Prelude.{
  ℕ, zero, suc, ◌==◌, Bool, true, false, ◌&&◌, Option, none, some, List, [], ◌∷◌, ◌++◌,
  if◌then◌else◌,
}
use lunarys_bridge.Prelude.Int.{ℤ, pos, negsuc}
use lunarys_bridge.Prelude.Text.{Text, is_empty}
use lunarys_bridge.Prelude.Numeral.{trim}

-- `s.slice(0, s.indexOf('('))`; without a parenthesis that is all but the last character.
unfoldable pub all_but_last : Text → Text
all_but_last [] = []
all_but_last (c ∷ []) = []
all_but_last (c ∷ d ∷ s) = c ∷ all_but_last (d ∷ s)

abbrev pub behind : ℕ → Option (Text × Text) → Option (Text × Text)
behind d none = none
behind d (some (s, t)) = some (d ∷ s, t)

-- What stands in front of the first `c` and behind it.
unfoldable pub cut : ℕ → Text → Option (Text × Text)
cut c [] = none
cut c (d ∷ s) = if d == c then some ([], s) else behind d (cut c s)

-- What stands in front of the last `c`.
abbrev pub last_of : ℕ → ℕ → Option Text → Option Text
last_of c d none = if d == c then some [] else none
last_of c d (some t) = some (d ∷ t)

unfoldable pub before_last : ℕ → Text → Option Text
before_last c [] = none
before_last c (d ∷ s) = last_of c d (before_last c s)

abbrev pub name_before : Text → Option (Text × Text) → Text
name_before signature none = all_but_last signature
name_before signature (some (name, rest)) = name

unfoldable pub name_of : Text → Text
name_of signature = name_before signature (cut b'(' signature)

-- `depth++` and `depth--`
unfoldable pub up : ℤ → ℤ
up (pos n) = pos (suc n)
up (negsuc zero) = pos 0
up (negsuc (suc n)) = negsuc n

unfoldable pub down : ℤ → ℤ
down (pos zero) = negsuc 0
down (pos (suc n)) = pos n
down (negsuc n) = negsuc (suc n)

unfoldable pub is_outside : ℤ → Bool
is_outside (pos zero) = true
is_outside depth = false

unfoldable pub deeper : ℕ → ℤ → ℤ
deeper ch depth = if ch == b'(' then up depth else if ch == b')' then down depth else depth

-- The loop of `parseArgTypes`, with what `cur` holds.
unfoldable pub split_types : Text → ℤ → Text → List Text
split_types [] depth cur = if is_empty (trim cur) then [] else trim cur ∷ []
split_types (ch ∷ s) depth cur =
    let depth' = deeper ch depth in
    elim (ch == b',' && is_outside depth') [
      | true ↦ trim cur ∷ split_types s depth' []
      | false ↦ split_types s depth' (cur ++ ch ∷ [])
    ]

abbrev pub types_inside : Option Text → List Text
types_inside none = []
types_inside (some inside) =
    if is_empty (trim inside) then [] else split_types (trim inside) (pos 0) []

-- The last `)` is behind the first `(` exactly if there is one behind it.
abbrev pub types_behind : Option (Text × Text) → List Text
types_behind none = []
types_behind (some (name, rest)) = types_inside (before_last b')' rest)

unfoldable pub parse_arg_types : Text → List Text
parse_arg_types signature = types_behind (cut b'(' signature)
