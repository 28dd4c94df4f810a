-- ===== src/Node/Destination.antt =====
-- node/src/bridge-sol-to-evm/services/destination-decrypt.service.ts: the address on the EVM, from
-- the four words that the cipher decrypts. The cipher and the key agreement are Arcium's.
pub mod Width
use lunarys_bridge.Prelude.{ℕ, ◌+◌, ◌*◌, ◌%◌, ◌^◌, List, [], ◌∷◌, drop}
use lunarys_bridge.Prelude.Text.{Text, lit, pad_start}
use lunarys_bridge.Prelude.Numeral.{digits}
use lunarys_bridge.Prelude.Effect.{Result, ok, thrown, plain}

-- The loop over the first four words; the lanes do not overlap, so that `|=` adds.
unfoldable pub evm_u256 : ℕ → ℕ → ℕ → ℕ → ℕ
evm_u256 w0 w1 w2 w3 =
    w0 % 2 ^ 64 + w1 % 2 ^ 64 * 2 ^ 64 + w2 % 2 ^ 64 * 2 ^ 128 + w3 % 2 ^ 64 * 2 ^ 192

unfoldable pub address_text : ℕ → Text
address_text n = b'0' ∷ b'x' ∷ drop (24 * 2) (pad_start 64 b'0' (digits 16 n))

unfoldable pub evm_destination : List ℕ → Result Text
evm_destination (w0 ∷ w1 ∷ w2 ∷ w3 ∷ ws) = ok (address_text (evm_u256 w0 w1 w2 w3))
evm_destination _ =
    thrown (record { kind = plain; message = lit "Decrypt incomplete (expected 4 u64)" })
