-- ===== src/Relayer/Repository/Isolation.antt =====
-- A change of a table of relayer/src/common/repositories is a change of one row.
pub mod EvmToSol
pub mod SolToEvm
use lunarys_bridge.Prelude.{
  ◌≡◌, ◌≢◌, refl, ◌∙◌, inl, inr, false, true, Option, Bool-cases, if◌then◌else◌,
}
use lunarys_bridge.Prelude.Text.{Text, text_eq, text_eq_iff}
use lunarys_bridge.Relayer.Repository.Core.{
  Repository, IsRepository, update, update_if_found, upsert,
}
use lunarys_bridge.Relayer.Repository.Laws.{
  over, update-lookup, update_if_found-lookup, upsert-lookup,
}

text_ne : {s t : Text} → s ≢ t → text_eq s t ≡ false
text_ne {s} {t} h = elim (Bool-cases (text_eq s t)) [
  | inl same ↦ absurd (h ((text_eq_iff s t).0 same))
  | inr other ↦ other
]

-- The row of `j` is what it was.
module _ {Row Db : Type 0} (repo : Repository Row Db) where
  abbrev pub SameRow : Text → Db → Db → Type 0
  SameRow j before after = repo.find_one j after ≡ repo.find_one j before

module _ {Row Db : Type 0} {key : Row → Text} {repo : Repository Row Db}
    (laws : IsRepository key repo) (id j : Text) (other : id ≢ j) (db : Db) where
  pub update-SameRow :
      (message : Text) (f : Row → Row)
      → ((row : Row) → key row ≡ id → key (f row) ≡ id)
      → SameRow repo j db (update repo id message f db).1
  update-SameRow message f keeps =
      update-lookup laws id f keeps message j db ∙ (rw (text_ne other) refl)

  pub update_if_found-SameRow :
      (f : Row → Row)
      → ((row : Row) → key row ≡ id → key (f row) ≡ id)
      → SameRow repo j db (update_if_found repo id f db).1
  update_if_found-SameRow f keeps =
      update_if_found-lookup laws id f keeps j db ∙ (rw (text_ne other) refl)

  pub upsert-SameRow :
      (f : Row → Row) (fresh : Row)
      → ((row : Row) → key row ≡ id → key (f row) ≡ id)
      → key fresh ≡ id
      → SameRow repo j db (upsert repo id f fresh db).1
  upsert-SameRow f fresh keeps e =
      upsert-lookup laws id f keeps fresh j db e ∙ (rw (text_ne other) refl)
