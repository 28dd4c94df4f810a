-- ===== src/Frontend/Amount.antt =====
-- `toU64FromHuman` of frontend/app/bridge/page.tsx: the amount that the page sends.
pub mod Agreement
use lunarys_bridge.Prelude.{
  ℕ, ◌+◌, ◌*◌, ◌^◌, Bool, true, false, ◌&&◌, not, Option, none, some, List, [], ◌∷◌, ◌++◌, take,
  replicate, if◌then◌else◌,
}
use lunarys_bridge.Prelude.Int.{ℤ, pos, negsuc}
use lunarys_bridge.Prelude.Text.{Text, lit, is_empty, split, first_part, second_part}
use lunarys_bridge.Prelude.Numeral.{big_int, trim}
use lunarys_bridge.Prelude.Effect.{Result, ok, thrown, plain, syntax}
use lunarys_bridge.Frontend.Units.{is_digit, every, or_zero}

-- `\d+`
abbrev pub is_number : Text → Bool
is_number s = not (is_empty s) && every is_digit s

-- `/^\d+(\.\d+)?$/`: digits, or digits, a point and digits.
unfoldable pub is_amount : List Text → Bool
is_amount (i ∷ []) = is_number i
is_amount (i ∷ f ∷ []) = is_number i && is_number f
is_amount parts = false

-- `BigInt(i) * base + BigInt(f)`; neither part has a sign.
unfoldable pub combine : ℕ → Option ℤ → Option ℤ → Result ℤ
combine base (some (pos i)) (some (pos f)) = ok (pos (i * base + f))
combine base i f = thrown (record { kind = syntax; message = lit "Cannot convert to a BigInt" })

unfoldable pub to_u64_from_human : Text → ℕ → Result ℤ
to_u64_from_human human decimals =
    let parts = split b'.' (trim human) in
    if is_amount parts
    then combine (10 ^ decimals) (big_int (or_zero (first_part parts)))
        (big_int (or_zero (take decimals (second_part parts ++ replicate decimals b'0'))))
    else thrown (record { kind = plain; message = lit "Monto inválido" })
