-- ===== src/Relayer/Solana/Retry/Bound.antt =====
-- How often `getTxWithRetry` of relayer/src/sol/sol.service.ts asks, and how long it sleeps.
use lunarys_bridge.Prelude.{
  ℕ, zero, suc, ◌+◌, ◌*◌, ◌≤◌, ◌≡◌, Option, none, some, [], ◌∷◌, ◌++◌, arith,
}
use lunarys_bridge.Prelude.Text.{Text, lit}
use lunarys_bridge.Prelude.Effect.{Result, ok, Eff, pure, raise, bad_request}
use lunarys_bridge.Prelude.Effect.Ends.{Ends-pure, Keeps-raise}
use lunarys_bridge.Prelude.Effect.Leads.{Leads, Leads-seq, Leads-map, Leads-Keeps}
use lunarys_bridge.Relayer.Chain.{Meta, Tx, Chain, Trace, ask, get_parsed_transaction, sleep}
use lunarys_bridge.Relayer.Solana.Retry.{after_loop, judge_meta, judge, attempts, get_tx_with_retry}

-- The reads of a transaction, and the milliseconds slept, that a trace holds.
abbrev pub reads : Trace → ℕ
reads [] = 0
reads (get_parsed_transaction sig ∷ t) = suc (reads t)
reads (_ ∷ t) = reads t

abbrev pub slept : Trace → ℕ
slept [] = 0
slept (sleep ms ∷ t) = ms + slept t
slept (_ ∷ t) = slept t

abbrev Within : ℕ → ℕ → Trace → Type 0
Within n ms t = (reads t ≤ n) × (slept t ≤ ms)

-- The sleeps of the rounds that are left, after `i` rounds.
sleeps : ℕ → ℕ → ℕ
sleeps zero i = 0
sleeps (suc left) i = 400 * (i + 1) + sleeps left (i + 1)

module _ (chain : Chain) (sig : Text) where
  after_loop-Within :
      (n ms : ℕ) (last : Option Tx) → Leads (Within n ms) (Within n ms) (after_loop last)
  unfolding after_loop
  after_loop-Within n ms none = Leads-Keeps _ (Keeps-raise _ _)
  after_loop-Within n ms (some tx) = go tx.meta
    where
      go :
          (m : Option Meta)
          → Leads {A = Tx} (Within n ms) (Within n ms) (elim m [
            | none ↦ raise bad_request (lit "Solana tx meta not available yet")
            | some _ ↦ pure tx
          ])
      go none = Leads-Keeps _ (Keeps-raise _ _)
      go (some m) = Leads-Keeps _ (Ends-pure tx)

  judge-Within :
      {P R : Trace → Type 0} (again : Option Tx → Eff Trace Tx) (read : Option Tx)
      → ((t : Trace) → P t → R t)
      → ((last : Option Tx) → Leads P R (again last))
      → Leads P R (judge again read)
  unfolding judge judge_meta
  judge-Within again none weaken h = h none
  judge-Within {P = P} {R = R} again (some tx) weaken h = go tx.meta
    where
      fate :
          (o : Option Text)
          → Leads {A = Tx} P R (elim o [
            | some e ↦ raise bad_request (lit "Solana tx failed: " ++ e)
            | none ↦ pure tx
          ])
      fate none = Leads-map _ (Leads-Keeps _ (Ends-pure tx)) weaken
      fate (some e) = Leads-map _ (Leads-Keeps _ (Keeps-raise _ _)) weaken

      go : (m : Option Meta) → Leads P R (judge_meta again tx m)
      go none = h (some tx)
      go (some m) = fate m.err

  read-Within :
      (n ms : ℕ) (answer : Trace → Result (Option Tx))
      → Leads (Within n ms) (Within (suc n) ms) (ask (get_parsed_transaction sig) answer)
  read-Within n ms answer = record { at = λ t (r, s). (omega arith, s) }

  sleep-Within :
      (n ms d : ℕ)
      → Leads {A = Unit {0}} (Within n ms) (Within n (d + ms)) (ask (sleep d) (λ _. ok tt))
  sleep-Within n ms d = record { at = λ t (r, s). (r, omega arith) }

  attempts-Within :
      (tries i n ms : ℕ) (last : Option Tx)
      → Leads
          (Within n ms)
          (Within (n + tries) (ms + sleeps tries i))
          (attempts chain sig tries i last)
  unfolding attempts sleeps
  attempts-Within zero i n ms last =
      Leads-map _ (after_loop-Within n ms last) (λ t (r, s). (omega arith, omega arith))
  attempts-Within (suc left) i n ms last =
      Leads-seq (λ t (r, s). (omega arith, omega arith)) _ _ (read-Within n ms _)
        λ read.
          judge-Within _ read (λ t (r, s). (omega arith, omega arith))
            λ l.
              Leads-seq (λ t (r, s). (omega arith, omega arith)) _ _
                (sleep-Within (suc n) ms (400 * (i + 1)))
                λ _.
                  Leads-map _ (attempts-Within left (i + 1) (suc n) (400 * (i + 1) + ms) l)
                    (λ t (r, s). (omega arith, omega arith))

  sleeps-sum : (left i : ℕ) → sleeps left i ≡ 200 * (left * (2 * i + left + 1))
  unfolding sleeps
  sleeps-sum zero i = omega arith
  sleeps-sum (suc left) i = grind (arith, sleeps-sum left (i + 1))

  -- `getTxWithRetry` always ends: it reads the transaction at most once for each try, whatever the
  -- chain answers, and `n` tries sleep at most 200 * n * (n + 1) milliseconds together.
  pub get_tx_with_retry_bound :
      (tries : ℕ) (t : Trace)
      → (reads (get_tx_with_retry chain sig tries t).1 ≤ reads t + tries)
        × (slept (get_tx_with_retry chain sig tries t).1 ≤ slept t + 200 * (tries * (tries + 1)))
  unfolding get_tx_with_retry
  get_tx_with_retry_bound tries t =
      let (r, s) =
        (attempts-Within tries 0 (reads t) (slept t) none).at t (omega arith, omega arith) in
      (r, omega (arith, s, sleeps-sum tries 0))
