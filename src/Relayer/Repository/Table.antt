-- ===== src/Relayer/Repository/Table.antt =====
-- A table as a list of rows, which shows that the interface can be met.
use lunarys_bridge.Prelude.{◌≡◌, ◌≢◌, List, [], ◌∷◌, Option, none, some, arith, if◌then◌else◌}
use lunarys_bridge.Prelude.Text.{Text, text_eq, text_eq_iff}
use lunarys_bridge.Relayer.Repository.Core.{Repository, IsRepository}

module _ {Row : Type 0} (key : Row → Text) where
  unfoldable pub find_row : Text → List Row → Option Row
  find_row k [] = none
  find_row k (r ∷ rs) = if text_eq (key r) k then some r else find_row k rs

  unfoldable pub save_row : Row → List Row → List Row
  save_row row [] = row ∷ []
  save_row row (r ∷ rs) = if text_eq (key r) (key row) then row ∷ rs else r ∷ save_row row rs

  abbrev pub table : Repository Row (List Row)
  table = record { find_one = find_row; save = save_row }

  find_row-save_row : (row : Row) (db : List Row) → find_row (key row) (save_row row db) ≡ some row
  unfolding find_row save_row
  find_row-save_row row [] = ground (arith, text_eq_iff (key row) (key row))
  find_row-save_row row (r ∷ rs) = ground (
    arith,
    text_eq_iff (key row) (key row),
    text_eq_iff (key r) (key row),
    find_row-save_row row rs,
  )

  find_row-save_row_ne :
      (k : Text) (row : Row) (db : List Row)
      → key row ≢ k
      → find_row k (save_row row db) ≡ find_row k db
  unfolding find_row save_row
  find_row-save_row_ne k row [] h = ground (arith, text_eq_iff (key row) k)
  find_row-save_row_ne k row (r ∷ rs) h = ground (
    arith,
    text_eq_iff (key row) k,
    text_eq_iff (key r) (key row),
    text_eq_iff (key r) k,
    find_row-save_row_ne k row rs h,
  )

  key-find_row : (k : Text) (row : Row) (db : List Row) → find_row k db ≡ some row → key row ≡ k
  unfolding find_row
  key-find_row k row [] h = cc
  key-find_row k row (r ∷ rs) h = ground (arith, text_eq_iff (key r) k, key-find_row k row rs)

  pub table-IsRepository : IsRepository key table
  table-IsRepository = record {
    find_one-save = find_row-save_row;
    find_one-save_ne = find_row-save_row_ne;
    key-find_one = key-find_row;
  }
