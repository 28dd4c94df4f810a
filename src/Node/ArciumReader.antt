-- ===== src/Node/ArciumReader.antt =====
-- node/src/bridge-sol-to-evm/services/arcium-reader.service.ts, and solver-key.service.ts: what the
-- node reads from Arcium's accounts, and its keys.
pub mod Layout
use lunarys_bridge.Prelude.{
  ℕ, zero, suc, ◌+◌, ◌*◌, ◌^◌, ltb, ◌==◌, ◌&&◌, Bool, true, false, Option, none, some, List, [],
  ◌∷◌, ◌++◌, length, take, drop, if◌then◌else◌,
}
use lunarys_bridge.Prelude.Text.{Text, lit, is_empty}
use lunarys_bridge.Prelude.Numeral.{digits, trim}
use lunarys_bridge.Prelude.Hex.{bytes_of_hex}
use lunarys_bridge.Prelude.Effect.{Result, ok, thrown, plain, Failure}
use lunarys_bridge.Frontend.Units.{is_hex, every}
use lunarys_bridge.Node.SolToEvm.{ResealOutput}

abbrev failed : {A : Type 0} → Text → Result A
failed message = thrown (record { kind = plain; message = message })

-- `pickComputationOffset`, given the two numbers that it draws, which are below 2^32.
unfoldable pub pick_computation_offset : ℕ → ℕ → ℕ
pick_computation_offset a b = a * 2 ^ 32 + b

-- The loop that cuts `n` words off, from `p` on.
unfoldable pub words_from : ℕ → ℕ → List ℕ → List (List ℕ)
words_from zero p bs = []
words_from (suc n) p bs = take 32 (drop p bs) ∷ words_from n (p + 32) bs

-- The text of an address and the data of its account, if it is there.
unfoldable pub fetch_reseal_output : Text → Option (List ℕ) → Result ResealOutput
fetch_reseal_output address none = failed (lit "Computation account not found / empty: " ++ address)
fetch_reseal_output address (some []) =
    failed (lit "Computation account not found / empty: " ++ address)
fetch_reseal_output address (some (b ∷ bs)) =
    if ltb (length (b ∷ bs)) (16 + 4 * 32)
    then failed (lit "Reseal data too short (" ++ digits 10 (length (b ∷ bs)) ++ lit " bytes)")
    else ok (record { ct_words = some (words_from 4 16 (b ∷ bs)); nonce = take 16 (b ∷ bs) })

module _ (base64 : Text → List ℕ) where
  -- `decodeKey`; `base64` is Node's `Buffer.from(s, 'base64')`.
  unfoldable pub decode_key : Text → List ℕ
  decode_key s = if length s == 64 && every is_hex s then bytes_of_hex 32 s else base64 s

  -- Of the configured text.
  unfoldable pub get_mxe_public_key : Text → Result (List ℕ)
  get_mxe_public_key configured =
      let injected = trim configured in
      if is_empty injected
      then failed (lit "Missing ARCIUM_MXE_X25519_PUBLIC_KEY in .env (32-byte hex or base64)")
      else (let b = decode_key injected in
          if length b == 32
          then ok b
          else failed (lit "ARCIUM_MXE_X25519_PUBLIC_KEY must be exactly 32 bytes"))

  -- The constructor of `SolverKeyService`: the private and the public key, where a fresh key is
  -- drawn if none is configured.
  unfoldable pub solver_keys : (List ℕ → List ℕ) → List ℕ → Text → Result (List ℕ × List ℕ)
  solver_keys public_key_of fresh configured =
      let raw = trim configured in
      if is_empty raw
      then ok (fresh, public_key_of fresh)
      else (let b = decode_key raw in
          if length b == 32
          then ok (b, public_key_of b)
          else failed (lit "SOLVER_X25519_SECRET must be exactly 32 bytes"))
