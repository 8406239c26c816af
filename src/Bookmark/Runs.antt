-- ===== src/Bookmark/Runs.antt =====
-- What the operations of BookmarkPostgreSQLDataSource.ts give and leave behind, by what the table
-- answers.
use qa_api.Common.{
  String, Bool, false, ◌≡◌, refl, ◌===◌, ◌⊎◌, Option, none, some, List, map, select, find, arith,
  eq_iff, Bool-cases, Option-cases, inl, inr,
}
use qa_api.Effect.{ok, err, Outcome-cases}
use qa_api.Error.Handler.{Thrown, application}
use qa_api.Error.Application.{not_found_error}
use qa_api.Bookmark.Model.{Bookmark, UpdateBookmark, NewBookmark}
use qa_api.Bookmark.Table.{BookmarkRow, RowPatch, Table, IsTable, has_id, meets, changed, patched}
use qa_api.Bookmark.Source
use qa_api.Bookmark.Source.{
  Dates, to_entity, row_data, row_patch, has_columns, where_field, anything, write_row,
}
use qa_api.Bookmark.Repository.{patch_of}

module _ {Db : Type 0} (dates : Dates) (t : Table Db) (rows : Db → List BookmarkRow)
    (table : IsTable t rows) where
  abbrev pub entity_of : Option BookmarkRow → Option Bookmark
  entity_of none = none
  entity_of (some r) = some (to_entity dates t r)

  -- The bookmark of an id and the list of a user, read off the rows.
  abbrev pub row : Db → String → Option Bookmark
  row db id = entity_of (find (has_id id) (rows db))

  abbrev pub of_user : String → BookmarkRow → Bool
  of_user u = meets (record anything { user_id = some u })

  abbrev pub list : Db → String → List Bookmark
  list db u = map (to_entity dates t) (select (of_user u) (rows db))

  pub not_of_user : (u : String) (r : BookmarkRow) → (r.user_id === u) ≡ false → of_user u r ≡ false
  not_of_user u r h = ground (arith, eq_iff r.user_id u, eq_iff u r.user_id)

  -- A row behind a bookmark.
  pub row_behind :
      (db : Db) (id : String) (b : Bookmark)
      → row db id ≡ some b
      → (r : BookmarkRow) × (find (has_id id) (rows db) ≡ some r) × (r.user_id ≡ b.user_id)
  unfolding to_entity
  row_behind db id b h = elim (Option-cases (find (has_id id) (rows db))) [
    | inl gone ↦ absurd (ground arith)
    | inr (r, e) ↦ (r, e, ground arith)
  ]

  -- The outcome of the three writes, by the outcome of the table's.
  pub find_by_id-run :
      (id : String) (db : Db)
      → ((find (has_id id) (rows db) ≡ none)
          × (e : Thrown) × (Source.find_by_id dates t id db ≡ (err e, db)))
        ⊎ ((r : BookmarkRow) × (find (has_id id) (rows db) ≡ some r)
            × (Source.find_by_id dates t id db ≡ (ok (to_entity dates t r), db)))
  unfolding Source.find_by_id
  find_by_id-run id db = elim (Option-cases (find (has_id id) (rows db))) [
    | inl gone ↦ inl (
      gone,
      application (not_found_error "Database error in BaseRepository.findById"),
      ground (arith, table.one db id),
    )
    | inr (r, e) ↦ inr (r, e, ground (arith, table.one db id))
  ]

  pub create-run :
      (d : NewBookmark) (db : Db)
      → ((e : Thrown) × (Source.create dates t d db ≡ (err e, db)))
        ⊎ ((r : BookmarkRow) × ((t.create_row (row_data dates t d) db).0 ≡ ok r)
            × (Source.create dates t d db
                ≡ (ok (to_entity dates t r), (t.create_row (row_data dates t d) db).1)))
  unfolding Source.create
  create-run d db = elim (Outcome-cases (t.create_row (row_data dates t d) db).0) [
    | inl (r, e) ↦ inr (r, e, ground arith)
    | inr (x, e) ↦ inl (x, ground (arith, table.create_failed (row_data dates t d) db x e))
  ]

  pub delete-run :
      (id : String) (db : Db)
      → ((e : Thrown) × (Source.delete_by_id dates t id db ≡ (err e, db)))
        ⊎ ((r : BookmarkRow) × (find (has_id id) (rows db) ≡ some r)
            × ((t.delete_row id db).0 ≡ ok tt)
            × (Source.delete_by_id dates t id db
                ≡ (ok (to_entity dates t r), (t.delete_row id db).1)))
  unfolding Source.delete_by_id
  delete-run id db = elim (find_by_id-run id db) [
    | inl (gone, e, run) ↦ inl (e, ground arith)
    | inr (r, found, run) ↦ elim (Outcome-cases (t.delete_row id db).0) [
      | inl (_, done) ↦ inr (r, found, done, ground arith)
      | inr (x, failed) ↦ inl (x, ground (arith, table.delete_failed id db x failed))
    ]
  ]

  abbrev pub patch : UpdateBookmark → RowPatch
  patch d = row_patch dates t (patch_of d)

  pub update-run :
      (id : String) (d : UpdateBookmark) (db : Db)
      → ((e : Thrown) × (Source.update_by_id dates t id (patch_of d) db ≡ (err e, db)))
        ⊎ ((b : Bookmark) × (Source.update_by_id dates t id (patch_of d) db ≡ (ok b, db)))
        ⊎ ((b : Bookmark) × (rows (t.update_row id (patch d) db).1
              ≡ map (changed id (patch d)) (rows db))
            × (Source.update_by_id dates t id (patch_of d) db
                ≡ (ok b, (t.update_row id (patch d) db).1)))
  unfolding Source.update_by_id
  update-run id d db = elim (Bool-cases (has_columns (patch d))) [
    | inr none_given ↦ elim (find_by_id-run id db) [
      | inl (_, e, run) ↦ inl (e, ground arith)
      | inr (r, _, run) ↦ inr (inl (to_entity dates t r, ground arith))
    ]
    | inl given ↦ elim (Outcome-cases (t.update_row id (patch d) db).0) [
      | inl (r, e) ↦
          inr (inr (to_entity dates t r, (table.updated id (patch d) db r e).0, ground arith))
      | inr (x, e) ↦ inl (x, ground (arith, table.update_failed id (patch d) db x e))
    ]
  ]

  -- An update of a bookmark's tags and notes keeps its id and its user.
  pub patch-id : (d : UpdateBookmark) (x : BookmarkRow) → (patched (patch d) x).id ≡ x.id
  unfolding row_patch
  patch-id d x = refl

  pub patch-user :
      (d : UpdateBookmark) (u : String) (x : BookmarkRow)
      → of_user u (patched (patch d) x) ≡ of_user u x
  unfolding row_patch
  patch-user d u x = refl
