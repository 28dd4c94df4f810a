-- ===== src/Frontend/EvmError/Signatures.antt =====
-- The types that `parseArgTypes` finds in a signature.
use mathlib.Core.List.{append_assoc, append-nil}
use lunarys_bridge.Prelude.{
  ℕ, suc, ◌==◌, ◌&&◌, ◌≡◌, ◌≢◌, refl, sym, ap, ◌∙◌, Bool, false, some, List, [], ◌∷◌, ◌++◌, All,
  All-append, arith,
}
use lunarys_bridge.Prelude.Int.{ℤ, pos}
use lunarys_bridge.Prelude.Text.{Text, is_empty}
use lunarys_bridge.Prelude.Numeral.Trimmed.{IsSolid, trim-of-IsSolid}
use lunarys_bridge.Prelude.Numeral.{is_space, trim}
use lunarys_bridge.Frontend.EvmError.ArgTypes.{
  cut, last_of, before_last, name_before, name_of, up, down, deeper, is_outside, split_types,
  types_inside, types_behind, parse_arg_types,
}

-- Neither a parenthesis, nor a comma, nor white space.
pub record IsPlain (c : ℕ) : Type 0 where
  pub no_open : c ≢ b'('
  pub no_close : c ≢ b')'
  pub no_comma : c ≢ b','
  pub ink : is_space c ≡ false

-- A text that follows this number of open parentheses: it closes them all, and none besides but those
-- that it opens; commas stand between parentheses only.
pub data Closing : ℕ → Text → Type 0 where
  done : Closing 0 []
  plain : {d c : ℕ} {t : Text} → IsPlain c → Closing d t → Closing d (c ∷ t)
  comma : {d : ℕ} {t : Text} → Closing (suc d) t → Closing (suc d) (b',' ∷ t)
  opens : {d : ℕ} {t : Text} → Closing (suc d) t → Closing d (b'(' ∷ t)
  closes : {d : ℕ} {t : Text} → Closing d t → Closing (suc d) (b')' ∷ t)

-- A type's name: a word, or a tuple of types between parentheses, and what follows it, as in
-- `(uint256,(address,bytes))[]`; one character or more.
pub record IsTypeName (t : Text) : Type 0 where
  pub balanced : Closing 0 t
  pub something : is_empty t ≡ false

abbrev pub joined_by_comma : List Text → Text
joined_by_comma [] = []
joined_by_comma (t ∷ []) = t
joined_by_comma (t ∷ u ∷ ts) = t ++ b',' ∷ joined_by_comma (u ∷ ts)

abbrev pub signature_of : Text → List Text → Text
signature_of name types = name ++ b'(' ∷ (joined_by_comma types ++ b')' ∷ [])

Closing-IsSolid : (d : ℕ) (t : Text) → Closing d t → All IsSolid t
unfolding is_space
Closing-IsSolid d [] h = tt
Closing-IsSolid d (c ∷ t) (plain p h) = (p.ink, Closing-IsSolid d t h)
Closing-IsSolid (suc d) (_ ∷ t) (comma h) = (refl, Closing-IsSolid (suc d) t h)
Closing-IsSolid d (_ ∷ t) (opens h) = (refl, Closing-IsSolid (suc d) t h)
Closing-IsSolid (suc d) (_ ∷ t) (closes h) = (refl, Closing-IsSolid d t h)

joined-IsSolid : (types : List Text) → All IsTypeName types → All IsSolid (joined_by_comma types)
unfolding is_space
joined-IsSolid [] h = tt
joined-IsSolid (t ∷ []) (p, h) = Closing-IsSolid 0 t p.balanced
joined-IsSolid (t ∷ u ∷ ts) (p, h) =
    All-append IsSolid _ _ (Closing-IsSolid 0 t p.balanced) (refl, joined-IsSolid (u ∷ ts) h)

cut-name :
    (name rest : Text)
    → All (λ c. c ≢ b'(') name
    → cut b'(' (name ++ b'(' ∷ rest) ≡ some (name, rest)
unfolding cut
cut-name [] rest h = ground arith
cut-name (c ∷ name) rest (p, h) = ground (arith, cut-name name rest h)

before_last-end : (c : ℕ) (s : Text) → before_last c (s ++ c ∷ []) ≡ some s
unfolding before_last
before_last-end c [] = ground arith
before_last-end c (d ∷ s) = ap (last_of c d) (before_last-end c s)

-- A character goes to the current type, unless it is a comma outside of all parentheses.
split-kept :
    (c : ℕ) (s cur : Text) (depth depth' : ℤ)
    → deeper c depth ≡ depth'
    → (c == b',' && is_outside depth') ≡ false
    → split_types (c ∷ s) depth cur ≡ split_types s depth' (cur ++ c ∷ [])
unfolding split_types
split-kept c s cur depth depth' e h =
    keeps (ap (λ k. c == b',' && is_outside k) e ∙ h) ∙ ap (λ k. split_types s k (cur ++ c ∷ [])) e
  where
    keeps :
        (c == b',' && is_outside (deeper c depth)) ≡ false
        → split_types (c ∷ s) depth cur ≡ split_types s (deeper c depth) (cur ++ c ∷ [])
    keeps h = rw (split_types, h) refl

kept_depth : (c : ℕ) (depth : ℤ) → c ≢ b'(' → c ≢ b')' → deeper c depth ≡ depth
unfolding deeper
kept_depth c depth open_ close_ = ground (arith, open_, close_)

no_cut : (c : ℕ) (b : Bool) → c ≢ b',' → (c == b',' && b) ≡ false
no_cut c b comma_ = ground (arith, comma_)

-- So do the characters up to where all parentheses are closed.
split-Closing :
    (d : ℕ) (t s cur : Text)
    → Closing d t
    → split_types (t ++ s) (pos d) cur ≡ split_types s (pos 0) (cur ++ t)
unfolding up down is_outside deeper
split-Closing _ _ s cur done = ap (split_types s (pos 0)) (sym (append-nil cur))
split-Closing d (c ∷ t) s cur (plain p h) =
    let open_ = p.no_open in
    let close_ = p.no_close in
    let comma_ = p.no_comma in
    split-kept c (t ++ s) cur (pos d) (pos d) (kept_depth c (pos d) open_ close_)
      (no_cut c (is_outside (pos d)) comma_)
    ∙ split-Closing d t s (cur ++ c ∷ []) h
    ∙ ap (split_types s (pos 0)) (append_assoc cur (c ∷ []) t)
split-Closing (suc d) (c ∷ t) s cur (comma h) =
    split-kept b',' (t ++ s) cur (pos (suc d)) (pos (suc d)) refl refl
    ∙ split-Closing (suc d) t s (cur ++ b',' ∷ []) h
    ∙ ap (split_types s (pos 0)) (append_assoc cur (b',' ∷ []) t)
split-Closing d (c ∷ t) s cur (opens h) =
    split-kept b'(' (t ++ s) cur (pos d) (pos (suc d)) refl refl
    ∙ split-Closing (suc d) t s (cur ++ b'(' ∷ []) h
    ∙ ap (split_types s (pos 0)) (append_assoc cur (b'(' ∷ []) t)
split-Closing (suc d) (c ∷ t) s cur (closes h) =
    split-kept b')' (t ++ s) cur (pos (suc d)) (pos d) refl refl
    ∙ split-Closing d t s (cur ++ b')' ∷ []) h
    ∙ ap (split_types s (pos 0)) (append_assoc cur (b')' ∷ []) t)

split-comma :
    (s cur : Text) → split_types (b',' ∷ s) (pos 0) cur ≡ trim cur ∷ split_types s (pos 0) []
unfolding split_types is_outside deeper
split-comma s cur = refl

split-end : (t : Text) → IsTypeName t → split_types t (pos 0) [] ≡ t ∷ []
unfolding split_types
split-end t h =
    ap (λ s. split_types s (pos 0) []) (sym (append-nil t))
    ∙ split-Closing 0 t [] [] h.balanced
    ∙ rw (trim-of-IsSolid t (Closing-IsSolid 0 t h.balanced), h.something) refl

split-joined :
    (t : Text) (ts : List Text)
    → All IsTypeName (t ∷ ts)
    → split_types (joined_by_comma (t ∷ ts)) (pos 0) [] ≡ t ∷ ts
split-joined t [] (p, h) = split-end t p
split-joined t (u ∷ ts) (p, h) =
    split-Closing 0 t (b',' ∷ joined_by_comma (u ∷ ts)) [] p.balanced
    ∙ split-comma (joined_by_comma (u ∷ ts)) t
    ∙ ap (λ x. x ∷ split_types (joined_by_comma (u ∷ ts)) (pos 0) [])
        (trim-of-IsSolid t (Closing-IsSolid 0 t p.balanced))
    ∙ ap (λ x. t ∷ x) (split-joined u ts h)

joined-something :
    (t : Text) (ts : List Text) → is_empty t ≡ false → is_empty (joined_by_comma (t ∷ ts)) ≡ false
joined-something [] ts h = cc
joined-something (c ∷ t) [] h = refl
joined-something (c ∷ t) (u ∷ ts) h = refl

inside-joined :
    (types : List Text) → All IsTypeName types → types_inside (some (joined_by_comma types)) ≡ types
unfolding trim
inside-joined [] h = refl
inside-joined (t ∷ ts) h =
    rw
      (
        trim-of-IsSolid (joined_by_comma (t ∷ ts)) (joined-IsSolid (t ∷ ts) h),
        joined-something t ts h.0.something,
      )
      (split-joined t ts h)

-- From a signature of a name without an open parenthesis and types without white space, words or
-- tuples nested to any depth, `parseArgTypes` gives back the types, and the name in front of the
-- parenthesis is the name.
pub parse_arg_types-signature_of :
    (name : Text) (types : List Text)
    → All (λ c. c ≢ b'(') name
    → All IsTypeName types
    → (parse_arg_types (signature_of name types) ≡ types)
      × (name_of (signature_of name types) ≡ name)
unfolding parse_arg_types name_of
parse_arg_types-signature_of name types h k =
    let found = cut-name name (joined_by_comma types ++ b')' ∷ []) h in
    (
      ap types_behind found
          ∙ ap types_inside (before_last-end b')' (joined_by_comma types))
          ∙ inside-joined types k,
      ap (name_before (signature_of name types)) found,
    )
