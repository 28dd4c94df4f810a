-- ===== src/Frontend/EvmError/Messages.antt =====
-- Every custom error that the page knows has a text of its own.
use mathlib.Core.Path.{subst}
use mathlib.Core.List.{append-nil, append_assoc}
use lunarys_bridge.Prelude.{
  ℕ, zero, suc, ◌≡◌, refl, sym, ap, ◌∙◌, Bool, true, false, not, ◌&&◌, Option, none, some, List, [],
  ◌∷◌, ◌++◌, map, any, take, get_elem?, All, All-append, arith,
}
use lunarys_bridge.Prelude.Text.{Text, lit, text_eq, text_eq_iff, starts_with}
use lunarys_bridge.Prelude.Effect.{ok}
use lunarys_bridge.Frontend.EvmError.Decode.{
  DecodedEvmError, Arg, Ethers, Dictionary, lookup, revert_selector, panic_selector, selector_of,
  build_selector_map, decode_custom, decode_data, default_selector_map,
}
use lunarys_bridge.Frontend.EvmError.ArgTypes.{cut, name_of}
use lunarys_bridge.Frontend.EvmError.Known.{new_relayer_error_sigs, oz_error_sigs, fhe_error_sigs}
use lunarys_bridge.Frontend.EvmError.Pretty.{
  specific_message, plain_messages, pretty_by_kind, pretty_bridge_error,
}

-- The signatures of the default map, in the order of the source.
unfoldable pub default_sigs : List Text
default_sigs = new_relayer_error_sigs ++ oz_error_sigs ++ fhe_error_sigs

unfoldable pub no_repeats : List Text → Bool
no_repeats [] = true
no_repeats (k ∷ ks) = not (any (text_eq k) ks) && no_repeats ks

lookup-append :
    (k : Text) (d e : Dictionary) (v : Text) → lookup k d ≡ some v → lookup k (d ++ e) ≡ some v
unfolding lookup
lookup-append k [] e v h = cc
lookup-append k ((j, w) ∷ d) e v h = ground (arith, lookup-append k d e v)

lookup-append_none :
    (k : Text) (d e : Dictionary) → lookup k d ≡ none → lookup k (d ++ e) ≡ lookup k e
unfolding lookup
lookup-append_none k [] e h = refl
lookup-append_none k ((j, w) ∷ d) e h = ground (arith, lookup-append_none k d e)

some-injective : {a b : Text} → some a ≡ some b → a ≡ b
some-injective h = cc

abbrev HasMessage : Text → Type 0
HasMessage sig =
    (args : Option (List Arg)) → (m : Text) × (specific_message (name_of sig) args ≡ some m)

new_relayer-HasMessage : All HasMessage new_relayer_error_sigs
unfolding new_relayer_error_sigs specific_message name_of cut lookup plain_messages text_eq lit
new_relayer-HasMessage = (
  λ args. (_, refl),
  (
    λ args. (_, refl),
    (
      λ args. (_, refl),
      (
        λ args. (_, refl),
        (
          λ args. (_, refl),
          (
            λ args. (_, refl),
            (
              λ args. (_, refl),
              (
                λ args. (_, refl),
                (
                  λ args. (_, refl),
                  (λ args. (_, refl), (λ args. (_, refl), (λ args. (_, refl), tt))),
                ),
              ),
            ),
          ),
        ),
      ),
    ),
  ),
)

oz-HasMessage : All HasMessage oz_error_sigs
unfolding oz_error_sigs specific_message name_of cut lookup plain_messages text_eq lit
oz-HasMessage = (
  λ args. (_, refl),
  (
    λ args. (_, refl),
    (
      λ args. (_, refl),
      (
        λ args. (_, refl),
        (
          λ args. (_, refl),
          (
            λ args. (_, refl),
            (λ args. (_, refl), (λ args. (_, refl), (λ args. (_, refl), (λ args. (_, refl), tt)))),
          ),
        ),
      ),
    ),
  ),
)

fhe-HasMessage : All HasMessage fhe_error_sigs
unfolding fhe_error_sigs specific_message name_of cut lookup plain_messages text_eq lit
fhe-HasMessage = (
  λ args. (_, refl),
  (
    λ args. (_, refl),
    (
      λ args. (_, refl),
      (λ args. (_, refl), (λ args. (_, refl), (λ args. (_, refl), (λ args. (_, refl), tt)))),
    ),
  ),
)

default-HasMessage : All HasMessage default_sigs
unfolding default_sigs
default-HasMessage =
    All-append HasMessage (new_relayer_error_sigs ++ oz_error_sigs) fhe_error_sigs
      (All-append HasMessage new_relayer_error_sigs oz_error_sigs new_relayer-HasMessage
        oz-HasMessage)
      fhe-HasMessage

All-at :
    (P : Text → Type 0) (xs : List Text) (i : ℕ) {x : Text}
    → All P xs
    → get_elem? xs i ≡ some x
    → P x
All-at P [] i h at = cc
All-at P (y ∷ ys) zero (p, h) at = subst P (some-injective at) p
All-at P (y ∷ ys) (suc i) (p, h) at = All-at P ys i h at

module _ (ethers : Ethers) where
  lookup-none :
      (k : Text) (sigs : List Text)
      → any (text_eq k) (map (selector_of ethers) sigs) ≡ false
      → lookup k (build_selector_map ethers sigs) ≡ none
  unfolding build_selector_map lookup
  lookup-none k [] h = refl
  lookup-none k (sig ∷ sigs) h =
      lookup-append_none k (build_selector_map ethers sigs) _ (lookup-none k sigs (ground arith))
      ∙ ground
          (arith, text_eq_iff k (selector_of ethers sig), text_eq_iff (selector_of ethers sig) k)

  finds_head :
      (sig : Text) (sigs : List Text)
      → any (text_eq (selector_of ethers sig)) (map (selector_of ethers) sigs) ≡ false
      → lookup (selector_of ethers sig) (build_selector_map ethers (sig ∷ sigs)) ≡ some sig
  unfolding build_selector_map lookup
  finds_head sig sigs h =
      lookup-append_none (selector_of ethers sig) (build_selector_map ethers sigs) _
        (lookup-none (selector_of ethers sig) sigs h)
      ∙ rw ((text_eq_iff (selector_of ethers sig) (selector_of ethers sig)).1 refl) refl

  -- With no two signatures of one selector, the map finds each under its own.
  finds :
      (sigs : List Text) (i : ℕ) {sig : Text}
      → no_repeats (map (selector_of ethers) sigs) ≡ true
      → get_elem? sigs i ≡ some sig
      → lookup (selector_of ethers sig) (build_selector_map ethers sigs) ≡ some sig
  unfolding build_selector_map no_repeats
  finds [] i h at = cc
  finds (s ∷ sigs) (suc i) h at =
      lookup-append _ (build_selector_map ethers sigs) _ _ (finds sigs i (ground arith) at)
  finds (s ∷ sigs) zero h at =
      subst (λ x. lookup (selector_of ethers x) (build_selector_map ethers (s ∷ sigs)) ≡ some x)
        (some-injective at) (finds_head s sigs (ground arith))

  build-append :
      (a b : List Text)
      → build_selector_map ethers (a ++ b)
        ≡ build_selector_map ethers b ++ build_selector_map ethers a
  unfolding build_selector_map
  build-append [] b = sym (append-nil (build_selector_map ethers b))
  build-append (s ∷ a) b =
      ap (λ d. d ++ (selector_of ethers s, s) ∷ []) (build-append a b)
      ∙ append_assoc (build_selector_map ethers b) (build_selector_map ethers a) _

  default_map : default_selector_map ethers ≡ build_selector_map ethers default_sigs
  unfolding default_selector_map default_sigs
  default_map = sym (
      build-append (new_relayer_error_sigs ++ oz_error_sigs) fhe_error_sigs
      ∙ ap (λ d. build_selector_map ethers fhe_error_sigs ++ d)
          (build-append new_relayer_error_sigs oz_error_sigs)
      ∙ sym (
          append_assoc (build_selector_map ethers fhe_error_sigs)
            (build_selector_map ethers oz_error_sigs)
            (build_selector_map ethers new_relayer_error_sigs)))

  -- Revert data with the selector of an error that the default map lists is decoded as that error,
  -- and the page shows a text of its own for it, if no two of the listed errors have one selector
  -- and the selector is neither that of `Error(string)` nor that of `Panic(uint256)`.
  pub known_error_has_message :
      no_repeats (map (selector_of ethers) default_sigs) ≡ true
      → (i : ℕ) {sig : Text} (data_text : Text) → get_elem? default_sigs i ≡ some sig
      → take 10 data_text ≡ selector_of ethers sig
      → starts_with revert_selector data_text ≡ false
      → starts_with panic_selector data_text ≡ false
      → (d : DecodedEvmError) × (m : Text) × (decode_data ethers
            (default_selector_map ethers)
            data_text
          ≡ ok d)
        × (d.name ≡ some (name_of sig))
        × (specific_message (name_of sig) d.args ≡ some m)
        × (pretty_bridge_error (some d) ≡ m)
  unfolding decode_data pretty_bridge_error pretty_by_kind decode_custom
  known_error_has_message distinct i {sig} data_text at selector no_revert no_panic =
      let d = decode_custom ethers data_text (some sig) in
      let (m, known) = All-at HasMessage default_sigs i default-HasMessage at d.args in
      let found : lookup (take 10 data_text) (default_selector_map ethers) ≡ some sig =
        ap (λ k. lookup k (default_selector_map ethers)) selector
        ∙ ap (lookup (selector_of ethers sig)) default_map
        ∙ finds default_sigs i distinct at in
      (d, m, rw (no_revert, no_panic, found) refl, refl, known, rw known refl)
