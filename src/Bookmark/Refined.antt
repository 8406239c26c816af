-- ===== src/Bookmark/Refined.antt =====
-- repositories/BookmarkRepository.ts over the PostgreSQL data source as an implementation of what
-- the manager relies on.
use qa_api.Common.{
  String, Bool, false, ◌≡◌, refl, ◌===◌, some, List, map, find, arith, eq_iff, sym, Bool-cases, inl,
  inr, ap, ◌∙◌,
}
use qa_api.Effect.{Action, ok, Outcome-cases}
use qa_api.Bookmark.Model.{Bookmark, UpdateBookmark, NewBookmark}
use qa_api.Bookmark.Table.{BookmarkRow, Table, IsTable, has_id}
use qa_api.Bookmark.Rows.{
  select_put, find_put, select_removed, find_removed, select-changed, find-changed,
}
use qa_api.Bookmark.Source
use qa_api.Bookmark.Source.{
  Dates, to_entity, row_data, row_patch, has_columns, where_field, anything, write_row,
}
use qa_api.Bookmark.Repository.{
  CollectionSource, patch_of, repository, maybe, find_by_user, find_by_user_and_target,
  get_bookmark_stats,
}
use qa_api.Bookmark.Laws.{IsLawful}
use qa_api.Bookmark.Runs.{
  row, list, entity_of, of_user, not_of_user, row_behind, find_by_id-run, create-run, delete-run,
  update-run, patch, patch-id, patch-user,
}

module _ {Db : Type 0} (dates : Dates) (t : Table Db) (rows : Db → List BookmarkRow)
    (table : IsTable t rows) (cs : CollectionSource Db) (contains : String → String → Bool) where
  list-create :
      (d : NewBookmark) (db : Db) (u : String)
      → (d.user_id === u) ≡ false
      → list dates t rows table (Source.create dates t d db).1 u ≡ list dates t rows table db u
  unfolding row_data
  list-create d db u ne = elim (create-run dates t rows table d db) [
    | inl (e, run) ↦ rw run refl
    | inr (r, made, run) ↦
        let (front, back, before, after, same, _) = table.created (row_data dates t d) db r made in
        let user : r.user_id ≡ d.user_id = ap (λ x. x.user_id) same in
        rw
          (
            run,
            after,
            before,
            select_put (of_user dates t rows table u) front back r
                (not_of_user dates t rows table u r (rw user ne)),
          )
          refl
  ]

  row-create :
      (d : NewBookmark) (db : Db) (j : String) (b : Bookmark)
      → row dates t rows table db j ≡ some b
      → row dates t rows table (Source.create dates t d db).1 j ≡ some b
  row-create d db j b h = elim (create-run dates t rows table d db) [
    | inl (e, run) ↦ rw run h
    | inr (r, made, run) ↦
        let (front, back, before, after, same, fresh) =
          table.created (row_data dates t d) db r made in
        let other : (r.id === j) ≡ false = elim (Bool-cases (r.id === j)) [
          | inl same_id ↦ absurd (ground (arith, eq_iff r.id j))
          | inr different ↦ different
        ] in
        let put = find_put (has_id j) front back r other in
        ap (λ s. row dates t rows table s j) (ap (λ o. o.1) run)
        ∙ ap (entity_of dates t rows table)
            (ap (find (has_id j)) after ∙ put ∙ ap (find (has_id j)) (sym before))
        ∙ h
  ]

  list-delete :
      (id : String) (db : Db) (b : Bookmark) (u : String)
      → row dates t rows table db id ≡ some b
      → (b.user_id === u) ≡ false
      → list dates t rows table (Source.delete_by_id dates t id db).1 u
        ≡ list dates t rows table db u
  list-delete id db b u h ne = elim (delete-run dates t rows table id db) [
    | inl (e, run) ↦ rw run refl
    | inr (r, found, done, run) ↦
        let (r', found', user) = row_behind dates t rows table db id b h in
        rw (run, table.deleted id db done)
          (ap (map (to_entity dates t)) (
            select_removed (of_user dates t rows table u) id (rows db) r' (table.keyed db) found'
              (not_of_user dates t rows table u r' (rw user ne))))
  ]

  row-delete :
      (id : String) (db : Db) (j : String)
      → (id === j) ≡ false
      → row dates t rows table (Source.delete_by_id dates t id db).1 j ≡ row dates t rows table db j
  row-delete id db j ne = elim (delete-run dates t rows table id db) [
    | inl (e, run) ↦ rw run refl
    | inr (r, found, done, run) ↦
        rw (run, table.deleted id db done, find_removed id j (rows db) ne) refl
  ]

  list-update :
      (id : String) (d : UpdateBookmark) (db : Db) (b : Bookmark) (u : String)
      → row dates t rows table db id ≡ some b
      → (b.user_id === u) ≡ false
      → list dates t rows table (Source.update_by_id dates t id (patch_of d) db).1 u
        ≡ list dates t rows table db u
  list-update id d db b u h ne = elim (update-run dates t rows table id d db) [
    | inl (e, run) ↦ rw run refl
    | inr (inl (c, run)) ↦ rw run refl
    | inr (inr (c, after, run)) ↦
        let (r, found, user) = row_behind dates t rows table db id b h in
        rw (run, after)
          (select-changed (to_entity dates t) (of_user dates t rows table u) id
            (patch dates t rows table d) (rows db) r (patch-user dates t rows table d u)
            (table.keyed db) found (not_of_user dates t rows table u r (rw user ne)))
  ]

  row-update :
      (id : String) (d : UpdateBookmark) (db : Db) (j : String)
      → (id === j) ≡ false
      → row dates t rows table (Source.update_by_id dates t id (patch_of d) db).1 j
        ≡ row dates t rows table db j
  row-update id d db j ne = elim (update-run dates t rows table id d db) [
    | inl (e, run) ↦ rw run refl
    | inr (inl (c, run)) ↦ rw run refl
    | inr (inr (c, after, run)) ↦
        rw
          (
            run,
            after,
            find-changed id j (patch dates t rows table d) (rows db) (patch-id dates t rows table d)
                ne,
          )
          refl
  ]

  maybe-state :
      {A : Type 0} (m : Action Db A) (db : Db) → (maybe dates t cs contains m db).1 ≡ (m db).1
  maybe-state m db = elim (Outcome-cases (m db).0) [
    | inl (a, h) ↦ ground arith
    | inr (e, h) ↦ ground arith
  ]

  reads-state : (id : String) (db : Db) → (Source.find_by_id dates t id db).1 ≡ db
  reads-state id db = elim (find_by_id-run dates t rows table id db) [
    | inl (_, e, run) ↦ rw run refl
    | inr (r, _, run) ↦ rw run refl
  ]

  find-finds :
      (id : String) (db : Db) (b : Bookmark)
      → (maybe dates t cs contains (Source.find_by_id dates t id) db).0 ≡ ok (some b)
      → row dates t rows table db id ≡ some b
  find-finds id db b h = elim (find_by_id-run dates t rows table id db) [
    | inl (_, e, run) ↦ absurd (ground arith)
    | inr (r, found, run) ↦ ground arith
  ]

  create-refused :
      (d : NewBookmark) (db : Db)
      → ((b : Bookmark) → (Source.create dates t d db).0 ≡ ok b → ⊥)
      → (Source.create dates t d db).1 ≡ db
  create-refused d db none_made = elim (create-run dates t rows table d db) [
    | inl (e, run) ↦ rw run refl
    | inr (r, _, run) ↦ absurd (none_made (to_entity dates t r) (ap (λ o. o.0) run))
  ]

  delete-refused :
      (id : String) (db : Db)
      → ((b : Bookmark)
          → (maybe dates t cs contains (Source.delete_by_id dates t id) db).0 ≡ ok (some b)
          → ⊥)
      → (Source.delete_by_id dates t id db).1 ≡ db
  delete-refused id db none_gone = elim (delete-run dates t rows table id db) [
    | inl (e, run) ↦ rw run refl
    | inr (r, _, _, run) ↦ absurd (none_gone (to_entity dates t r) (ground arith))
  ]

  update-refused :
      (id : String) (d : UpdateBookmark) (db : Db)
      → ((b : Bookmark)
          → (maybe dates t cs contains (Source.update_by_id dates t id (patch_of d)) db).0
            ≡ ok (some b)
          → ⊥)
      → (Source.update_by_id dates t id (patch_of d) db).1 ≡ db
  update-refused id d db none_back = elim (update-run dates t rows table id d db) [
    | inl (e, run) ↦ rw run refl
    | inr (inl (c, run)) ↦ rw run refl
    | inr (inr (c, _, run)) ↦ absurd (none_back c (ground arith))
  ]

  -- The repository over the PostgreSQL data source keeps what the manager of bookmarks relies on,
  -- where the table is served as its client documents.
  pub repository-IsLawful :
      IsLawful (repository dates t cs contains) (row dates t rows table) (list dates t rows table)
  unfolding Source.find_by_field Source.find_by_fields find_by_user find_by_user_and_target
      get_bookmark_stats
  repository-IsLawful = record {
    find_reads = λ id db. maybe-state (Source.find_by_id dates t id) db ∙ reads-state id db;
    find_finds = λ id db b h. find-finds id db b h;
    target_reads = λ u type id db. refl;
    user_reads = λ u db. refl;
    user_lists = λ u db l h. ground (arith, table.many db (record anything { user_id = some u }));
    stats_reads = λ u db. refl;
    create_list = λ d db u h. list-create d db u h;
    create_refused = λ d db no. create-refused d db no;
    create_row = λ d db j b h. row-create d db j b h;
    delete_list = λ id db b u h k.
        ap (λ s. list dates t rows table s u) (maybe-state (Source.delete_by_id dates t id) db)
        ∙ list-delete id db b u h k;
    delete_refused =
        λ id db no. maybe-state (Source.delete_by_id dates t id) db ∙ delete-refused id db no;
    delete_row = λ id db j h.
        ap (λ s. row dates t rows table s j) (maybe-state (Source.delete_by_id dates t id) db)
        ∙ row-delete id db j h;
    update_list = λ id d db b u h k.
        ap (λ s. list dates t rows table s u)
          (maybe-state (Source.update_by_id dates t id (patch_of d)) db)
        ∙ list-update id d db b u h k;
    update_refused = λ id d db no.
        maybe-state (Source.update_by_id dates t id (patch_of d)) db ∙ update-refused id d db no;
    update_row = λ id d db j h.
        ap (λ s. row dates t rows table s j)
          (maybe-state (Source.update_by_id dates t id (patch_of d)) db)
        ∙ row-update id d db j h;
  }
