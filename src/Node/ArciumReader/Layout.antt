-- ===== src/Node/ArciumReader/Layout.antt =====
-- What the node reads of the data that Arcium resealed.
use lunarys_bridge.Prelude.{
  ℕ, zero, suc, ◌+◌, ◌*◌, ltb, ltb-eq-false, ◌≤◌, ◌≡◌, refl, ap, sym, ◌∙◌, Option, none, some, List,
  [], ◌∷◌, ◌++◌, length, take, drop, All, arith, Bool-cases, inl, inr,
}
use lunarys_bridge.Prelude.Lists.Parts.{length-take, length-drop, drop-drop, take-take-drop}
use lunarys_bridge.Prelude.Text.{Text}
use lunarys_bridge.Prelude.Effect.{ok, ok-injective, thrown-ne-ok}
use lunarys_bridge.Node.SolToEvm.{ResealOutput, check_output}
use lunarys_bridge.Node.ArciumReader.{words_from, fetch_reseal_output}

abbrev pub joined : List (List ℕ) → List ℕ
joined [] = []
joined (w ∷ ws) = w ++ joined ws

joined-words_from : (n p : ℕ) (bs : List ℕ) → joined (words_from n p bs) ≡ take (n * 32) (drop p bs)
unfolding words_from
joined-words_from zero p bs = refl
joined-words_from (suc n) p bs =
    ap (λ ws. take 32 (drop p bs) ++ ws)
      (joined-words_from n (p + 32) bs ∙ ap (take (n * 32)) (sym (drop-drop 32 p bs)))
    ∙ take-take-drop 32 (n * 32) (drop p bs)
    ∙ ap (λ k. take k (drop p bs)) (omega arith)

words_from-All :
    (n p : ℕ) (bs : List ℕ) → p + n * 32 ≤ length bs → All (λ w. length w ≡ 32) (words_from n p bs)
unfolding words_from
words_from-All zero p bs h = tt
words_from-All (suc n) p bs h = (
  length-take 32 (drop p bs) (omega (arith, length-drop p bs)),
  words_from-All n (p + 32) bs (omega arith),
)

-- Both tests of the decryptor are passed, with words of 32 bytes; the nonce and the words, one behind
-- the other, are the first 144 bytes.
pub record Passes (bs : List ℕ) (out : ResealOutput) : Type 0 where
  pub words : List (List ℕ)
  pub passed : check_output out ≡ ok words
  pub widths : All (λ w. length w ≡ 32) words
  pub whole : out.nonce ++ joined words ≡ take 144 bs

output_of-Passes :
    (bs : List ℕ)
    → 144 ≤ length bs
    → Passes bs (record { ct_words = some (words_from 4 16 bs); nonce = take 16 bs })
unfolding check_output words_from
output_of-Passes bs h = record {
  words = words_from 4 16 bs;
  passed = rw (length-take 16 bs (omega arith)) refl;
  widths = words_from-All 4 16 bs h;
  whole = ap (λ ws. take 16 bs ++ ws) (joined-words_from 4 16 bs) ∙ take-take-drop 16 128 bs;
}

-- What `fetchResealOutput` returns passes both tests of the decryptor, with words of 32 bytes; the
-- nonce and the words, one behind the other, are the first 144 bytes of the account.
pub reseal_output-Passes :
    (address : Text) (found : Option (List ℕ)) {out : ResealOutput}
    → fetch_reseal_output address found ≡ ok out
    → (bs : List ℕ) × (found ≡ some bs) × Passes bs out
unfolding fetch_reseal_output
reseal_output-Passes address none h = absurd (thrown-ne-ok h)
reseal_output-Passes address (some []) h = absurd (thrown-ne-ok h)
reseal_output-Passes address (some (b ∷ bs)) {out} h =
    elim (Bool-cases (ltb (length (b ∷ bs)) (16 + 4 * 32))) [
      | inl short ↦ absurd (thrown-ne-ok (rw short at h))
      | inr enough ↦ (
        b ∷ bs,
        refl,
        rw (ok-injective (rw enough at h)) at
            (output_of-Passes (b ∷ bs) (omega (arith, ltb-eq-false _ _ enough))),
      )
    ]
