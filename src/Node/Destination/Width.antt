-- ===== src/Node/Destination/Width.antt =====
-- The width of the address that `resolveEvmDestination` gives.
use lunarys_bridge.Prelude.{ℕ, ◌<◌, ◌≡◌, List, [], ◌∷◌, length, arith}
use lunarys_bridge.Prelude.Text.{Text, pad_start}
use lunarys_bridge.Prelude.Numeral.{digits}
use lunarys_bridge.Prelude.Lists.Parts.{length-drop}
use lunarys_bridge.Prelude.Numeral.Width.{hex_bound, length-digits, length-pad_start}
use lunarys_bridge.Prelude.Effect.{ok, thrown-ne-ok, ok-injective}
use lunarys_bridge.Node.Destination.{evm_u256, address_text, evm_destination}

evm_u256-bound : (w0 w1 w2 w3 : ℕ) → evm_u256 w0 w1 w2 w3 < hex_bound 64
unfolding evm_u256 hex_bound
evm_u256-bound w0 w1 w2 w3 = omega arith

length-address_text : (n : ℕ) → n < hex_bound 64 → length (address_text n) ≡ 18
unfolding address_text
length-address_text n h =
    let digits_fit = length-digits 63 n h in
    let width = length-pad_start 64 b'0' (digits 16 n) digits_fit in
    omega (arith, length-drop 48 (pad_start 64 b'0' (digits 16 n)))

-- Whatever the cipher decrypts, the address that comes out has 18 characters: `0x` and 16 digits,
-- which are 8 bytes. An address of the EVM has 42 characters.
pub destination_is_short :
    (words : List ℕ) (address : Text) → evm_destination words ≡ ok address → length address ≡ 18
unfolding evm_destination
destination_is_short [] address h = absurd (thrown-ne-ok h)
destination_is_short (a ∷ []) address h = absurd (thrown-ne-ok h)
destination_is_short (a ∷ b ∷ []) address h = absurd (thrown-ne-ok h)
destination_is_short (a ∷ b ∷ c ∷ []) address h = absurd (thrown-ne-ok h)
destination_is_short (a ∷ b ∷ c ∷ d ∷ ws) address h =
    rw (← ok-injective h) (length-address_text (evm_u256 a b c d) (evm_u256-bound a b c d))
