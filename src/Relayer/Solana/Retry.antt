-- ===== src/Relayer/Solana/Retry.antt =====
-- `getTxWithRetry` of relayer/src/sol/sol.service.ts.
pub mod Bound
use lunarys_bridge.Prelude.{
  ℕ, zero, suc, ◌+◌, ◌*◌, ◌≡◌, refl, Option, none, some, ◌++◌, ◌∷◌, inl, inr, arith, Option-cases,
}
use lunarys_bridge.Prelude.Text.{Text, lit}
use lunarys_bridge.Prelude.Effect.{ok, Eff, pure, raise, bad_request, ◌>>=◌, ◌>>◌, bind-ok}
use lunarys_bridge.Relayer.Chain.{Meta, Tx, Chain, Trace, ask, get_parsed_transaction, sleep}

abbrev pub meta_of : Option Tx → Option Meta
meta_of none = none
meta_of (some tx) = tx.meta

-- The two tests behind the loop.
unfoldable pub after_loop : Option Tx → Eff Trace Tx
after_loop none = raise bad_request (lit "Solana tx not found")
after_loop (some tx) = elim tx.meta [
  | none ↦ raise bad_request (lit "Solana tx meta not available yet")
  | some _ ↦ pure tx
]

-- What one round does with the transaction that it read: `again` is the sleep and the next round.
unfoldable pub judge_meta : (Option Tx → Eff Trace Tx) → Tx → Option Meta → Eff Trace Tx
judge_meta again tx none = again (some tx)
judge_meta again tx (some m) = elim m.err [
  | some e ↦ raise bad_request (lit "Solana tx failed: " ++ e)
  | none ↦ pure tx
]

unfoldable pub judge : (Option Tx → Eff Trace Tx) → Option Tx → Eff Trace Tx
judge again none = again none
judge again (some tx) = judge_meta again tx tx.meta

-- The rounds that are left; `i` counts those done, and `last` is what the last one read.
unfoldable pub attempts : Chain → Text → ℕ → ℕ → Option Tx → Eff Trace Tx
attempts chain sig zero i last = after_loop last
attempts chain sig (suc left) i last = do
  tx ← ask (get_parsed_transaction sig) (λ t. chain.parsed_transaction t sig)
  judge (λ read. ask (sleep (400 * (i + 1))) (λ _. ok tt) >> attempts chain sig left (i + 1) read)
      tx

unfoldable pub get_tx_with_retry : Chain → Text → ℕ → Eff Trace Tx
get_tx_with_retry chain sig tries = attempts chain sig tries 0 none

-- The transaction was executed without an error.
abbrev pub Landed : Option Meta → Type 0
Landed none = ⊥
Landed (some m) = m.err ≡ none

-- An answer of the chain about this very signature, of a transaction that was executed.
pub record Fetched (chain : Chain) (sig : Text) (tx : Tx) : Type 0 where
  pub at : Trace
  pub answered : chain.parsed_transaction at sig ≡ ok (some tx)
  pub landed : Landed tx.meta

meta-eq-Landed : (o : Option Meta) (m : Meta) → o ≡ some m → m.err ≡ none → Landed o
meta-eq-Landed o m e h = rw e h

module _ (chain : Chain) (sig : Text) (tx : Tx) where
  -- The rounds that follow keep the promise, from any state.
  abbrev Keeps : (Option Tx → Eff Trace Tx) → Type 0
  Keeps again =
      (last : Option Tx) (t : Trace)
      → meta_of last ≡ none
      → (again last t).0 ≡ ok tx
      → Fetched chain sig tx

  judge_meta-Fetched :
      (again : Option Tx → Eff Trace Tx) (found : Tx) (m : Option Meta) (at t : Trace)
      → Keeps again
      → chain.parsed_transaction at sig ≡ ok (some found)
      → found.meta ≡ m
      → (judge_meta again found m t).0 ≡ ok tx
      → Fetched chain sig tx
  unfolding judge_meta
  judge_meta-Fetched again found none at t keep read e h = keep (some found) t e h
  judge_meta-Fetched again found (some m) at t keep read e h = elim (Option-cases m.err) [
    | inl fine ↦
        (let same : found ≡ tx = ground arith in
          record {
            at = at;
            answered = rw same at read;
            landed = rw same at (meta-eq-Landed found.meta m e fine);
          })
    | inr (err, failed) ↦ absurd (ground arith)
  ]

  judge-Fetched :
      (again : Option Tx → Eff Trace Tx) (found : Option Tx) (at t : Trace)
      → Keeps again
      → chain.parsed_transaction at sig ≡ ok found
      → (judge again found t).0 ≡ ok tx
      → Fetched chain sig tx
  unfolding judge
  judge-Fetched again none at t keep read h = keep none t refl h
  judge-Fetched again (some found) at t keep read h =
      judge_meta-Fetched again found found.meta at t keep read refl h

  attempts-Fetched :
      (tries i : ℕ) (last : Option Tx) (t : Trace)
      → meta_of last ≡ none
      → (attempts chain sig tries i last t).0 ≡ ok tx
      → Fetched chain sig tx
  unfolding attempts after_loop
  attempts-Fetched zero i none t m h = cc
  attempts-Fetched zero i (some last) t m h = absurd (ground arith)
  attempts-Fetched (suc left) i last t m h =
      let again : Option Tx → Eff Trace Tx = λ last'.
        ask (sleep (400 * (i + 1))) (λ _. ok tt) >> attempts chain sig left (i + 1) last' in
      let (found, read, rest, _) = bind-ok _ _ h in
      judge-Fetched again found t (get_parsed_transaction sig ∷ t)
        (λ l u e k.
          attempts-Fetched left (i + 1) l (sleep (400 * (i + 1)) ∷ u) e
            (bind-ok _ (λ _. attempts chain sig left (i + 1) l) k).2)
        read rest

  -- What `getTxWithRetry` returns is an answer of the chain about the signature that was asked for,
  -- and the transaction was executed without an error.
  pub get_tx_with_retry-Fetched :
      (tries : ℕ) (t : Trace)
      → (get_tx_with_retry chain sig tries t).0 ≡ ok tx
      → Fetched chain sig tx
  unfolding get_tx_with_retry
  get_tx_with_retry-Fetched tries t h = attempts-Fetched tries 0 none t refl h
