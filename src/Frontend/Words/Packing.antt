-- ===== src/Frontend/Words/Packing.antt =====
-- What the bytes and the words say.
use native.Mathlib.Numerals.{unary_clauses}
use lunarys_bridge.Prelude.{
  ℕ, zero, suc, ◌+◌, ◌-◌, ◌*◌, ◌^◌, ◌==◌, ◌≡◌, refl, sym, ap, ◌∙◌, inl, inr, true, ◌&&◌, List, [],
  ◌∷◌, ◌++◌, length, take, drop, Bool-cases, arith,
}
use lunarys_bridge.Prelude.Lists.Parts.{length-take, take-append-drop, drop-drop}
use lunarys_bridge.Prelude.Text.{Text, to_lower}
use lunarys_bridge.Prelude.Numeral.{trim}
use lunarys_bridge.Prelude.Hex.{bytes_of_hex, length-bytes_of_hex}
use lunarys_bridge.Prelude.Effect.{ok, ok-injective, thrown-ne-ok}
use lunarys_bridge.Frontend.Units.{every, without_0x}
use lunarys_bridge.Frontend.Words.{
  be_value, FourWords, word_at, is_lower_hex, buf32, words_of, eth_address_to_4u64,
}

be_value-append : (s t : List ℕ) (v : ℕ) → be_value v (s ++ t) ≡ be_value (be_value v s) t
unfolding be_value
be_value-append [] t v = refl
be_value-append (b ∷ s) t v = be_value-append s t (v * 256 + b)

pow_byte : (k : ℕ) → 256 ^ k * 256 ≡ 256 ^ suc k
pow_byte k = simp unary_clauses refl

regroup : (v b p r : ℕ) → (v * 256 + b) * p + r ≡ v * (p * 256) + ((0 * 256 + b) * p + r)
regroup v b p r = grind arith

be_value-shift : (s : List ℕ) (v : ℕ) → be_value v s ≡ v * 256 ^ length s + be_value 0 s
unfolding be_value
be_value-shift [] v = omega arith
be_value-shift (b ∷ s) v =
    be_value-shift s (v * 256 + b)
    ∙ regroup v b (256 ^ length s) (be_value 0 s)
    ∙ ap (λ p. v * p + ((0 * 256 + b) * 256 ^ length s + be_value 0 s)) (pow_byte (length s))
    ∙ sym (ap (λ r. v * 256 ^ suc (length s) + r) (be_value-shift s (0 * 256 + b)))

-- A buffer is its first word and what follows.
be_value-word :
    (buf : List ℕ) (v : ℕ)
    → length (take 8 buf) ≡ 8
    → be_value v buf ≡ be_value (v * 2 ^ 64 + be_value 0 (take 8 buf)) (drop 8 buf)
be_value-word buf v h =
    ap (be_value v) (sym (take-append-drop 8 buf))
    ∙ be_value-append (take 8 buf) (drop 8 buf) v
    ∙ ap (λ x. be_value x (drop 8 buf))
        (be_value-shift (take 8 buf) v ∙ ap (λ k. v * 256 ^ k + be_value 0 (take 8 buf)) h)

be_value-last : (s : List ℕ) (v : ℕ) → length s ≡ 0 → be_value v s ≡ v
unfolding be_value
be_value-last [] v h = refl
be_value-last (b ∷ s) v h = absurd (omega arith)

length-drop : (k : ℕ) (s : List ℕ) → length (drop k s) ≡ length s - k
length-drop zero s = omega arith
length-drop (suc k) [] = omega arith
length-drop (suc k) (c ∷ s) = omega (arith, length-drop k s)

-- The first word of twenty bytes behind twelve zeros is zero, and the other three hold the bytes.
three_words :
    (raw : List ℕ)
    → length raw ≡ 20
    → be_value 0 raw
      ≡ word_at 1 (buf32 true raw) * 2 ^ 128
        + word_at 2 (buf32 true raw) * 2 ^ 64
        + word_at 3 (buf32 true raw)
unfolding word_at buf32
three_words raw len =
    let x = drop 4 raw in
    let y = drop 12 raw in
    let a = be_value 0 (take 4 raw) in
    let b = a * 2 ^ 64 + be_value 0 (take 8 x) in
    let long_x : length x ≡ 16 = omega (arith, length-drop 4 raw) in
    let long_y : length y ≡ 8 = omega (arith, length-drop 12 raw) in
    let first = be_value-word (0 ∷ 0 ∷ 0 ∷ 0 ∷ raw) 0 (omega (arith, length-take 4 raw)) in
    let second = be_value-word x a (length-take 8 x (omega arith)) in
    let third = be_value-word y b (length-take 8 y (omega arith)) in
    let last =
      be_value-last (drop 8 y) (b * 2 ^ 64 + be_value 0 (take 8 y))
        (omega (arith, length-drop 8 y)) in
    let none : 0 * 2 ^ 64 + a ≡ a = omega arith in
    first
    ∙ ap (λ v. be_value v x) none
    ∙ second
    ∙ ap (be_value b) (drop-drop 8 4 raw)
    ∙ third
    ∙ last
    ∙ omega arith

first_word : (raw : List ℕ) → word_at 0 (buf32 true raw) ≡ 0
unfolding word_at buf32
first_word raw = refl

-- The words of an address: the first is zero, and the others hold its twenty bytes, the highest
-- first.
pub eth_address_words :
    (addr : Text) {w : FourWords}
    → eth_address_to_4u64 addr true ≡ ok w
    → (w.p0 ≡ 0)
      × (be_value 0 (bytes_of_hex 20 (without_0x (to_lower (trim addr))))
          ≡ w.p1 * 2 ^ 128 + w.p2 * 2 ^ 64 + w.p3)
unfolding eth_address_to_4u64 words_of
eth_address_words addr {w} h =
    let text = without_0x (to_lower (trim addr)) in
    let raw = bytes_of_hex 20 text in
    elim (Bool-cases (length text == 40 && every is_lower_hex text)) [
      | inr invalid ↦ absurd (thrown-ne-ok (rw invalid at h))
      | inl valid ↦
          (let same : words_of (buf32 true raw) ≡ w = ok-injective (rw valid at h) in
            (
              ap (λ (v : FourWords). v.p0) (sym same) ∙ first_word raw,
              three_words raw (length-bytes_of_hex 20 text)
                  ∙ ap (λ (v : FourWords). v.p1 * 2 ^ 128 + v.p2 * 2 ^ 64 + v.p3) same,
            ))
    ]
