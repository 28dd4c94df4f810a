-- ===== src/Frontend/Words.antt =====
-- frontend/lib/bridge/solana/evm.ts: numbers and addresses as bytes and 64-bit words.
pub mod Packing
use lunarys_bridge.Prelude.{
  ℕ, zero, suc, ◌+◌, ◌*◌, ◌/◌, ◌%◌, ◌==◌, Bool, true, false, ◌&&◌, ◌||◌, leb, List, [], ◌∷◌, ◌++◌,
  length, take, drop, replicate, if◌then◌else◌,
}
use lunarys_bridge.Prelude.Text.{Text, lit, starts_with, to_lower}
use lunarys_bridge.Prelude.Numeral.{trim}
use lunarys_bridge.Prelude.Bytes.{le_bytes}
use lunarys_bridge.Prelude.Hex.{bytes_of_hex}
use lunarys_bridge.Prelude.Effect.{Result, ok, thrown, plain}
use lunarys_bridge.Frontend.Units.{every, without_0x}

unfoldable pub u64_le : ℕ → List ℕ
unfolding le_bytes
u64_le n = le_bytes 8 n

-- The loop of `bytesToBigBE`.
unfoldable pub be_value : ℕ → List ℕ → ℕ
be_value v [] = v
be_value v (b ∷ bs) = be_value (v * 256 + b) bs

pub record FourWords : Type 0 where
  pub p0 : ℕ
  pub p1 : ℕ
  pub p2 : ℕ
  pub p3 : ℕ

-- `bytesToBigBE(buf32.slice(i * 8, (i + 1) * 8))`
unfoldable pub word_at : ℕ → List ℕ → ℕ
unfolding be_value
word_at i buf = be_value 0 (take 8 (drop (i * 8) buf))

-- `[0-9a-f]`
unfoldable pub is_lower_hex : ℕ → Bool
is_lower_hex c = (leb b'0' c && leb c b'9') || (leb b'a' c && leb c b'f')

-- The buffer of 32 bytes: the address at its end, or at its start for `"le"`.
unfoldable pub buf32 : Bool → List ℕ → List ℕ
buf32 true raw = replicate 12 0 ++ raw
buf32 false raw = raw ++ replicate 12 0

unfoldable pub words_of : List ℕ → FourWords
words_of buf = record {
  p0 = word_at 0 buf;
  p1 = word_at 1 buf;
  p2 = word_at 2 buf;
  p3 = word_at 3 buf;
}

-- `ethAddressTo4U64`; `true` is its `"be"`.
unfoldable pub eth_address_to_4u64 : Text → Bool → Result FourWords
eth_address_to_4u64 addr endian =
    let h = without_0x (to_lower (trim addr)) in
    if length h == 40 && every is_lower_hex h
    then ok (words_of (buf32 endian (bytes_of_hex 20 h)))
    else thrown
        (record { kind = plain; message = lit "Dirección EVM inválida (esperaba 20 bytes hex)" })

unfoldable pub encode_4u64_le : FourWords → List ℕ
encode_4u64_le w = u64_le w.p0 ++ u64_le w.p1 ++ u64_le w.p2 ++ u64_le w.p3
