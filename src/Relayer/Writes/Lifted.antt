-- ===== src/Relayer/Writes/Lifted.antt =====
-- The same of what works on the whole world: a read of the chains, and a change of a table.
use lunarys_bridge.Prelude.{◌≡◌, refl, ◌∷◌, true}
use lunarys_bridge.Prelude.Effect.{Result, ok, thrown, Eff}
use lunarys_bridge.Prelude.Effect.Ends.{After, Keeps}
use lunarys_bridge.Relayer.Chain.{Call, Trace, ask}
use lunarys_bridge.Relayer.World.{World, on_e2s, on_s2e, on_chain}
use lunarys_bridge.Relayer.Writes.{is_write, Wrote}
use lunarys_bridge.Prelude.Effect.Leads.{Leads}

-- A request that is a write adds itself.
pub ask-Writes :
    {A : Type 0} (ws : Trace) (c : Call) (answer : Trace → Result A)
    → is_write c ≡ true
    → Leads (Wrote ws) (Wrote (c ∷ ws)) (ask c answer)
ask-Writes ws c answer h = record { at = λ t p. rw (h, p) refl }

module _ {D E : Type 0} (P : Trace → Type 0) where
  -- A change of a table is seen by nothing that looks at the chains only.
  pub on_e2s-Keeps : {A : Type 0} (m : Eff D A) → Keeps {S = World D E} (λ w. P w.calls) (on_e2s m)
  unfolding on_e2s
  on_e2s-Keeps m = record { at = λ w p. go w (m w.e2s) p }
    where
      go :
          {A : Type 0} (w : World D E) (x : Result A × D)
          → P w.calls
          → After {S = World D E} (λ v. P v.calls) (λ _ v. P v.calls) (x.0, record w { e2s = x.1 })
      go w (ok a, t) q = q
      go w (thrown e, t) q = q

  -- A change of a table is seen by nothing that looks at the chains only.
  pub on_s2e-Keeps : {A : Type 0} (m : Eff E A) → Keeps {S = World D E} (λ w. P w.calls) (on_s2e m)
  unfolding on_s2e
  on_s2e-Keeps m = record { at = λ w p. go w (m w.s2e) p }
    where
      go :
          {A : Type 0} (w : World D E) (x : Result A × E)
          → P w.calls
          → After {S = World D E} (λ v. P v.calls) (λ _ v. P v.calls) (x.0, record w { s2e = x.1 })
      go w (ok a, t) q = q
      go w (thrown e, t) q = q

module _ {D E : Type 0} (ws : Trace) where
  abbrev pub WroteAll : World D E → Type 0
  WroteAll w = Wrote ws w.calls

  pub on_chain-Reads :
      {A : Type 0} (m : Eff Trace A) → Keeps (Wrote ws) m → Keeps WroteAll (on_chain m)
  unfolding on_chain
  on_chain-Reads m h = record { at = λ w p. go w (m w.calls) (h.at w.calls p) }
    where
      go :
          {A : Type 0} (w : World D E) (x : Result A × Trace)
          → After (Wrote ws) (λ _. Wrote ws) x
          → After WroteAll (λ _. WroteAll) (x.0, record w { calls = x.1 })
      go w (ok a, t) q = q
      go w (thrown e, t) q = q

  pub on_e2s-Reads : {A : Type 0} (m : Eff D A) → Keeps WroteAll (on_e2s m)
  on_e2s-Reads m = on_e2s-Keeps (Wrote ws) m

  pub on_s2e-Reads : {A : Type 0} (m : Eff E A) → Keeps WroteAll (on_s2e m)
  on_s2e-Reads m = on_s2e-Keeps (Wrote ws) m

module _ {D E A : Type 0} {P R : Trace → Type 0} where
  pub on_chain-Leads :
      (m : Eff Trace A)
      → Leads P R m
      → Leads {S = World D E} (λ w. P w.calls) (λ w. R w.calls) (on_chain m)
  unfolding on_chain
  on_chain-Leads m h = record { at = λ w p. h.at w.calls p }
