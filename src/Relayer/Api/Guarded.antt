-- ===== src/Relayer/Api/Guarded.antt =====
-- Whom the guard of the relayer's API lets in, and what it keeps from the others.
use mathlib.Core.Path.{sym}
use lunarys_bridge.Prelude.{
  ℕ, ap, ◌≡◌, ◌≢◌, refl, ◌↔◌, ◌⊎◌, inl, inr, ◌∙◌, ◌++◌, List, drop, Bool-cases, Bool, true, false,
  some, [], ◌∷◌,
}
use lunarys_bridge.Prelude.Prefix.{starts_with-drop, starts_with-append}
use lunarys_bridge.Prelude.Text.{Text, lit, starts_with, text_eq, text_eq_iff}
use lunarys_bridge.Prelude.Effect.{Result, ok, thrown, ok-injective, thrown-ne-ok}
use lunarys_bridge.Relayer.World.{World, Relayer}
use lunarys_bridge.Relayer.Api.{
  Header, absent, single, several, Headers, or_header, token_of, check_header, can_activate,
  Request, guarded, serve,
}

-- `x-api-token` does not count: it is missing, or an empty text.
pub data IsMissing : Header → Type 0 where
  not_sent : IsMissing absent
  blank : IsMissing (single [])

-- The text that a request provides by the headers `x-api-token` and `authorization`, in this order.
-- Of a list the first text counts.
pub data Provided : Header → Header → Text → Type 0 where
  api_token : {s : Text} {a : Header} → s ≢ [] → Provided (single s) a s
  api_tokens : {s : Text} {l : List Text} {a : Header} → Provided (several (s ∷ l)) a s
  bearer : {x : Header} {s : Text} → IsMissing x → s ≢ [] → Provided x (single s) s
  bearers : {x : Header} {s : Text} {l : List Text} → IsMissing x → Provided x (several (s ∷ l)) s

-- A text that bears the token: it is `Bearer ` and the token, or the token itself where the text
-- does not begin with `Bearer `.
unfoldable pub Bears : Text → Text → Type 0
Bears required s =
    (s ≡ lit "Bearer " ++ required) ⊎ ((s ≡ required) × ((t : Text) → s ≢ lit "Bearer " ++ t))

-- A request that bears the token.
unfoldable pub Admitted : Text → Headers → Type 0
Admitted required h = (s : Text) × Provided h.x_api_token h.authorization s × Bears required s

token_of-Bears : (s required : Text) → token_of s ≡ required → Bears required s
unfolding token_of Bears lit
token_of-Bears s required h = elim (Bool-cases (starts_with (lit "Bearer ") s)) [
  | inl led ↦
      inl (starts_with-drop (lit "Bearer ") s led ∙ ap (λ t. lit "Bearer " ++ t) (rw led at h))
  | inr bare ↦ inr (
    rw bare at h,
    λ t e.
        true_ne
          (sym bare ∙ ap (starts_with (lit "Bearer ")) e ∙ starts_with-append (lit "Bearer ") t),
  )
]
  where
    true_ne : false ≡ true → ⊥
    true_ne e = cc

Bears-token_of : (s required : Text) → Bears required s → token_of s ≡ required
unfolding token_of Bears lit
Bears-token_of s required (inl e) = rw (e, starts_with-append (lit "Bearer ") required) refl
Bears-token_of s required (inr (e, bare)) = elim (Bool-cases (starts_with (lit "Bearer ") s)) [
  | inl led ↦ absurd (bare (drop 7 s) (starts_with-drop (lit "Bearer ") s led))
  | inr other ↦ rw other e
]

checked-Bears :
    (s required : Text) → ok (text_eq (token_of s) required) ≡ ok true → Bears required s
checked-Bears s required h =
    token_of-Bears s required ((text_eq_iff (token_of s) required).0 (ok-injective h))

Bears-checked :
    (s required : Text) → Bears required s → ok (text_eq (token_of s) required) ≡ ok true
Bears-checked s required b =
    ap ok ((text_eq_iff (token_of s) required).1 (Bears-token_of s required b))

refused : {A : Type 0} → ok false ≡ ok true → A
refused h = absurd (false_ne (ok-injective h))
  where
    false_ne : false ≡ true → ⊥
    false_ne e = cc

cons_ne : (c : ℕ) (s : Text) → (c ∷ s) ≢ []
cons_ne c s e = cc

abbrev Bearing : Text → Header → Header → Type 0
Bearing required x a = (s : Text) × Provided x a s × Bears required s

authorization-Bearing :
    (required : Text) (x a : Header)
    → IsMissing x
    → check_header required a ≡ ok true
    → Bearing required x a
unfolding check_header
authorization-Bearing required x absent m h = refused h
authorization-Bearing required x (single []) m h = refused h
authorization-Bearing required x (single (c ∷ s)) m h =
    (c ∷ s, bearer m (cons_ne c s), checked-Bears (c ∷ s) required h)
authorization-Bearing required x (several []) m h = absurd (thrown-ne-ok h)
authorization-Bearing required x (several (s ∷ l)) m h = (s, bearers m, checked-Bears s required h)

check_header-Bearing :
    (required : Text) (x a : Header)
    → check_header required (or_header x a) ≡ ok true
    → Bearing required x a
unfolding check_header or_header
check_header-Bearing required absent a h = authorization-Bearing required absent a not_sent h
check_header-Bearing required (single []) a h = authorization-Bearing required (single []) a blank h
check_header-Bearing required (single (c ∷ s)) a h =
    (c ∷ s, api_token (cons_ne c s), checked-Bears (c ∷ s) required h)
check_header-Bearing required (several []) a h = absurd (thrown-ne-ok h)
check_header-Bearing required (several (s ∷ l)) a h = (s, api_tokens, checked-Bears s required h)

text-checked :
    (required s : Text) → s ≢ [] → Bears required s → check_header required (single s) ≡ ok true
unfolding check_header
text-checked required [] ne b = absurd (ne refl)
text-checked required (c ∷ s) ne b = Bears-checked (c ∷ s) required b

list-checked :
    (required s : Text) (l : List Text)
    → Bears required s
    → check_header required (several (s ∷ l)) ≡ ok true
unfolding check_header
list-checked required s l b = Bears-checked s required b

or_header-missing : {x : Header} (a : Header) → IsMissing x → or_header x a ≡ a
unfolding or_header
or_header-missing a not_sent = refl
or_header-missing a blank = refl

or_header-single : (s : Text) (a : Header) → s ≢ [] → or_header (single s) a ≡ single s
unfolding or_header
or_header-single [] a ne = absurd (ne refl)
or_header-single (c ∷ s) a ne = refl

or_header-several : (l : List Text) (a : Header) → or_header (several l) a ≡ several l
unfolding or_header
or_header-several l a = refl

Provided-checked :
    (required : Text) {x a : Header} {s : Text}
    → Provided x a s
    → Bears required s
    → check_header required (or_header x a) ≡ ok true
Provided-checked required (api_token {s} {a} ne) b =
    ap (check_header required) (or_header-single s a ne) ∙ text-checked required s ne b
Provided-checked required (api_tokens {s} {l} {a}) b =
    ap (check_header required) (or_header-several (s ∷ l) a) ∙ list-checked required s l b
Provided-checked required (bearer {x} {s} m ne) b =
    ap (check_header required) (or_header-missing (single s) m) ∙ text-checked required s ne b
Provided-checked required (bearers {x} {s} {l} m) b =
    ap (check_header required) (or_header-missing (several (s ∷ l)) m) ∙ list-checked required s l b

-- With a token set that is not empty, the guard lets a request in if and only if the text that it
-- provides bears the token. The header `x-api-token` provides it, or `authorization` where that is
-- missing or empty; and the text is `Bearer ` and the token, or the token itself where the text does
-- not begin with `Bearer `.
pub can_activate_iff :
    (c : ℕ) (token : Text) (h : Headers)
    → (can_activate (some (c ∷ token)) h ≡ ok true) ↔ Admitted (c ∷ token) h
unfolding can_activate Admitted
can_activate_iff c token h = (
  check_header-Bearing (c ∷ token) h.x_api_token h.authorization,
  λ (s, p, b). Provided-checked (c ∷ token) p b,
)

module _ {D E : Type 0} (r : Relayer D E) where
  guarded-unchanged :
      (q : Request) (b : Result Bool) (w : World D E) → b ≢ ok true → (guarded r q b w).1 ≡ w
  guarded-unchanged q (thrown e) w h = refl
  guarded-unchanged q (ok false) w h = refl
  guarded-unchanged q (ok true) w h = absurd (h refl)

  -- A request that does not bear the token (`Admitted`) reads and writes nothing: neither table and
  -- neither chain.
  pub intruder_changes_nothing :
      (c : ℕ) (token : Text) (h : Headers) (q : Request) (w : World D E)
      → (Admitted (c ∷ token) h → ⊥)
      → (serve r (some (c ∷ token)) h q w).1 ≡ w
  unfolding serve
  intruder_changes_nothing c token h q w no_token =
      guarded-unchanged q (can_activate (some (c ∷ token)) h) w
        (λ e. no_token ((can_activate_iff c token h).0 e))
