-- ===== src/Relayer/Repository/Laws.antt =====
-- A table of relayer/src/common/repositories is a map from request ids to rows, and each change
-- of it is a change at one id.
use lunarys_bridge.Prelude.{
  ◌≡◌, refl, ap, sym, ◌∙◌, inl, inr, true, false, [], Option, none, some, Bool-cases, if◌then◌else◌,
}
use lunarys_bridge.Prelude.Text.{Text, text_eq, text_eq_iff}
use lunarys_bridge.Prelude.Effect.{ok}
use lunarys_bridge.Relayer.Repository.Core.{
  Repository, IsRepository, change, change_if_found, update, update_if_found, assigned, upsert,
}

-- The map: each id has a row or none.
abbrev pub over : {A : Type 0} → (A → A) → Option A → Option A
over f none = none
over f (some a) = some (f a)

module _ {Row Db : Type 0} {key : Row → Text} {repo : Repository Row Db}
    (laws : IsRepository key repo) where
  save-lookup :
      (id j : Text) (row : Row) (db : Db)
      → key row ≡ id
      → repo.find_one j (repo.save row db) ≡ (if text_eq id j then some row else repo.find_one j db)
  save-lookup id j row db e = elim (Bool-cases (text_eq id j)) [
    | inl same ↦ rw same (
        ap (λ k. repo.find_one k (repo.save row db)) (sym (e ∙ (text_eq_iff id j).0 same))
        ∙ laws.find_one-save row db)
    | inr other ↦
        rw other (laws.find_one-save_ne j row db (λ k. ne other ((text_eq_iff id j).1 (sym e ∙ k))))
  ]
    where
      ne : text_eq id j ≡ false → text_eq id j ≡ true → ⊥
      ne p q = cc

  module _ (id : Text) (f : Row → Row) (keeps : (row : Row) → key row ≡ id → key (f row) ≡ id) where
    change-lookup :
        (message j : Text) (o : Option Row) (db : Db)
        → repo.find_one id db ≡ o
        → repo.find_one j (change repo f message o db).1
          ≡ (if text_eq id j then over f (repo.find_one j db) else repo.find_one j db)
    change-lookup message j none db e = elim (Bool-cases (text_eq id j)) [
      | inl same ↦ rw (same, ← (text_eq_iff id j).0 same, e) refl
      | inr other ↦ rw other refl
    ]
    change-lookup message j (some row) db e = elim (Bool-cases (text_eq id j)) [
      | inl same ↦
          save-lookup id j (f row) db (keeps row (laws.key-find_one id row db e))
          ∙ (rw (same, ← (text_eq_iff id j).0 same, e) refl)
      | inr other ↦
          save-lookup id j (f row) db (keeps row (laws.key-find_one id row db e)) ∙ (rw other refl)
    ]

    pub update-lookup :
        (message j : Text) (db : Db)
        → repo.find_one j (update repo id message f db).1
          ≡ (if text_eq id j then over f (repo.find_one j db) else repo.find_one j db)
    unfolding update
    update-lookup message j db = change-lookup message j (repo.find_one id db) db refl

    change_if_found-lookup :
        (j : Text) (o : Option Row) (db : Db)
        → repo.find_one id db ≡ o
        → repo.find_one j (change_if_found repo f o db).1
          ≡ (if text_eq id j then over f (repo.find_one j db) else repo.find_one j db)
    change_if_found-lookup j none db e = change-lookup [] j none db e
    change_if_found-lookup j (some row) db e = change-lookup [] j (some row) db e

    pub update_if_found-lookup :
        (j : Text) (db : Db)
        → repo.find_one j (update_if_found repo id f db).1
          ≡ (if text_eq id j then over f (repo.find_one j db) else repo.find_one j db)
    unfolding update_if_found
    update_if_found-lookup j db = change_if_found-lookup j (repo.find_one id db) db refl

    pub upsert-lookup :
        (fresh : Row) (j : Text) (db : Db)
        → key fresh ≡ id
        → repo.find_one j (upsert repo id f fresh db).1 ≡ (
            if text_eq id j
            then some (assigned repo f fresh (repo.find_one id db))
            else repo.find_one j db)
    unfolding upsert
    upsert-lookup fresh j db e = save-lookup id j _ db (go (repo.find_one id db) refl)
      where
        go : (o : Option Row) → repo.find_one id db ≡ o → key (assigned repo f fresh o) ≡ id
        go none p = e
        go (some row) p = keeps row (laws.key-find_one id row db p)

  pub key-assigned :
      (id : Text) (f : Row → Row) (fresh : Row) (o : Option Row)
      → ((row : Row) → key (f row) ≡ id)
      → key fresh ≡ id
      → key (assigned repo f fresh o) ≡ id
  key-assigned id f fresh none h e = e
  key-assigned id f fresh (some row) h e = h row

  -- A row that is there is changed, and the call returns it.
  pub update-found :
      (id message : Text) (f : Row → Row) (row : Row) (db : Db)
      → repo.find_one id db ≡ some row
      → update repo id message f db ≡ (ok (f row), repo.save (f row) db)
  unfolding update
  update-found id message f row db e = rw e refl

  pub update-missing :
      (id message : Text) (f : Row → Row) (db : Db)
      → repo.find_one id db ≡ none
      → (update repo id message f db).1 ≡ db
  unfolding update
  update-missing id message f db e = rw e refl
