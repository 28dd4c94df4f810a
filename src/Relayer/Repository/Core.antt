-- ===== src/Relayer/Repository/Core.antt =====
-- The interface of a table, and the two shapes of a change that the repository classes of
-- relayer/src/common/repositories make: one that throws if the row is missing, and one that does
-- nothing then.
use lunarys_bridge.Prelude.{◌≡◌, ◌≢◌, Option, none, some}
use lunarys_bridge.Prelude.Text.{Text}
use lunarys_bridge.Prelude.Effect.{ok, Eff, raise, plain}

-- `BridgeStatus`
pub data BridgeStatus : Type 0 where
  received verified settled failed : BridgeStatus

-- `findOne({ where: { requestId } })` and `save(row)`, on the state of the database.
pub record Repository (Row Db : Type 0) : Type 0 where
  pub find_one : Text → Db → Option Row
  pub save : Row → Db → Db

pub record IsRepository {Row Db : Type 0} (key : Row → Text) (repo : Repository Row Db)
    : Type 0 where
  pub find_one-save : (row : Row) (db : Db) → repo.find_one (key row) (repo.save row db) ≡ some row
  pub find_one-save_ne :
      (k : Text) (row : Row) (db : Db)
      → key row ≢ k
      → repo.find_one k (repo.save row db) ≡ repo.find_one k db
  pub key-find_one : (k : Text) (row : Row) (db : Db) → repo.find_one k db ≡ some row → key row ≡ k

module _ {Row Db : Type 0} (repo : Repository Row Db) where
  abbrev pub change : (Row → Row) → Text → Option Row → Eff Db Row
  change f message none db = raise plain message db
  change f message (some row) db = (ok (f row), repo.save (f row) db)

  -- `if (!rec) throw new Error(message); …; return this.repo.save(rec);`
  unfoldable pub update : Text → Text → (Row → Row) → Eff Db Row
  update id message f db = change f message (repo.find_one id db) db

  abbrev pub change_if_found : (Row → Row) → Option Row → Eff Db (Option Row)
  change_if_found f none db = (ok none, db)
  change_if_found f (some row) db = (ok (some (f row)), repo.save (f row) db)

  -- `if (!rec) return; …; return this.repo.save(rec);`
  unfoldable pub update_if_found : Text → (Row → Row) → Eff Db (Option Row)
  update_if_found id f db = change_if_found f (repo.find_one id db) db

  abbrev pub assigned : (Row → Row) → Row → Option Row → Row
  assigned f fresh none = fresh
  assigned f fresh (some row) = f row

  -- The row that exists is assigned to, or a fresh one is made; either is saved.
  unfoldable pub upsert : Text → (Row → Row) → Row → Eff Db Row
  upsert id f fresh db =
      let row = assigned f fresh (repo.find_one id db) in (ok row, repo.save row db)
