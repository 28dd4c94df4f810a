-- ===== src/EvmNode/Process/Exclusion.antt =====
-- Handlers that wait: between two waits of one, other events start theirs.
use lunarys_bridge.Prelude.{
  ℕ, zero, suc, ◌+◌, ◌≡◌, false, some, List, [], ◌∷◌, if◌then◌else◌, get_elem?,
}
use lunarys_bridge.Prelude.Text.{Text, text_eq}
use lunarys_bridge.EvmNode.Services.{NodeState}
use lunarys_bridge.EvmNode.Process.{has, start_processing, stop_processing}

abbrev pub count : Text → List Text → ℕ
count id [] = 0
count id (k ∷ ids) = (if text_eq id k then 1 else 0) + count id ids

abbrev pub remove_at : ℕ → List Text → List Text
remove_at i [] = []
remove_at zero (k ∷ ids) = ids
remove_at (suc i) (k ∷ ids) = k ∷ remove_at i ids

-- The node, and the ids of the handlers that are past the guard and not yet at their end.
pub record System : Type 0 where
  pub node : NodeState
  pub running : List Text

-- An event that the guard refuses leaves all as it is, and is no step.
pub data Step : System → System → Type 0 where
  enter :
      (s : System) (id : Text)
      → has id s.node.processing ≡ false
      → Step s (record s { node = (start_processing id s.node).1; running = id ∷ s.running })
  work :
      (s : System) (n : NodeState)
      → n.processing ≡ s.node.processing
      → Step s (record s { node = n })
  leave :
      (s : System) (i : ℕ) (id : Text)
      → get_elem? s.running i ≡ some id
      → Step s (record s { node = (stop_processing id s.node).1; running = remove_at i s.running })

pub data Reach (n : NodeState) : System → Type 0 where
  idle : n.processing ≡ [] → Reach n (record { node = n; running = [] })
  next : {s t : System} → Reach n s → Step s t → Reach n t

abbrev InStep : System → Type 0
InStep s = (id : Text) → count id s.running ≡ (if has id s.node.processing then 1 else 0)
