-- ===== src/EvmNode/Process/Sets.antt =====
-- The set of request ids that are being processed.
use lunarys_bridge.Prelude.{
  ◌≡◌, refl, false, not, ◌&&◌, ◌||◌, List, [], ◌∷◌, ◌++◌, arith, Bool-cases, inl, inr,
}
use lunarys_bridge.Prelude.Text.{Text, text_eq, text_eq_iff}
use lunarys_bridge.EvmNode.Process.{has, add, delete}

has-append : (j i : Text) (ids : List Text) → has j (ids ++ i ∷ []) ≡ (has j ids || text_eq j i)
unfolding has
has-append j i [] = ground arith
has-append j i (k ∷ ids) = ground (arith, has-append j i ids)

pub has-add : (j i : Text) (ids : List Text) → has j (add i ids) ≡ (has j ids || text_eq j i)
unfolding add
has-add j i ids = elim (Bool-cases (has i ids)) [
  | inl there ↦ rw there (ground (arith, text_eq_iff j i, there))
  | inr new ↦ rw new (has-append j i ids)
]

pub has-delete :
    (j i : Text) (ids : List Text) → has j (delete i ids) ≡ (has j ids && not (text_eq i j))
unfolding has delete
has-delete j i [] = refl
has-delete j i (k ∷ ids) =
    ground (arith, has-delete j i ids, text_eq_iff j k, text_eq_iff i k, text_eq_iff i j)

delete-append : (i : Text) (ids : List Text) → has i ids ≡ false → delete i (ids ++ i ∷ []) ≡ ids
unfolding has delete
delete-append i [] h = ground (arith, text_eq_iff i i)
delete-append i (k ∷ ids) h = ground (arith, delete-append i ids)

pub delete-add : (i : Text) (ids : List Text) → has i ids ≡ false → delete i (add i ids) ≡ ids
unfolding add
delete-add i ids h = rw h (delete-append i ids h)
