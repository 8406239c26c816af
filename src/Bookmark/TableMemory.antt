-- ===== src/Bookmark/TableMemory.antt =====
-- A table of bookmarks in memory that meets the laws of Bookmark/Table.antt: the parameter of the
-- witnesses, not a model of any code. A new row takes the id of its target.
use qa_api.Common.{
  String, Bool, true, false, not, ◌≡◌, refl, ◌===◌, ◌⊎◌, inl, inr, Option, none, some, List, [],
  ◌∷◌, map, select, find, any, arith, Bool-cases, ap, ◌∙◌, sym,
}
use qa_api.Effect.{Outcome, ok, err}
use qa_api.Error.Handler.{Thrown, application}
use qa_api.Error.Application.{not_found_error}
use qa_api.Bookmark.Table.{
  BookmarkRow, RowData, RowPatch, TargetColumns, Table, IsTable, IsKeyed, has_id, meets, changed,
  data_of, with_target,
}

abbrev pub Db : Type 0
Db = (rs : List BookmarkRow) × IsKeyed rs

abbrev pub rows : Db → List BookmarkRow
rows db = db.0

abbrev refused : Thrown
refused = application (not_found_error "No such row, or one too many")

abbrev made : RowData → BookmarkRow
made d = record {
  id = d.target_id;
  user_id = d.user_id;
  target_type = d.target_type;
  target_id = d.target_id;
  target_title = d.target_title;
  target_content = d.target_content;
  target_author = d.target_author;
  target_author_id = d.target_author_id;
  target_created_at = d.target_created_at;
  target_url = d.target_url;
  tags = d.tags;
  notes = d.notes;
  is_public = d.is_public;
  created_at = 0;
}

target-id : (c : Option TargetColumns) (r : BookmarkRow) → (with_target c r).id ≡ r.id
target-id none r = refl
target-id (some c) r = refl

changed-id : (id : String) (p : RowPatch) (r : BookmarkRow) → (changed id p r).id ≡ r.id
changed-id id p r = elim (Bool-cases (r.id === id)) [
  | inl same ↦ rw same (target-id p.target _)
  | inr other ↦ rw other refl
]

any-changed :
    (a id : String) (p : RowPatch) (rs : List BookmarkRow)
    → any (has_id a) (map (changed id p) rs) ≡ any (has_id a) rs
any-changed a id p [] = refl
any-changed a id p (r ∷ rs) = rw (changed-id id p r, any-changed a id p rs) refl

pub changed-IsKeyed :
    (id : String) (p : RowPatch) (rs : List BookmarkRow)
    → IsKeyed rs
    → IsKeyed (map (changed id p) rs)
changed-IsKeyed id p [] k = tt
changed-IsKeyed id p (r ∷ rs) k =
    (rw (changed-id id p r, any-changed r.id id p rs) k.0, changed-IsKeyed id p rs k.1)

any-select :
    (a : String) (q : BookmarkRow → Bool) (rs : List BookmarkRow)
    → any (has_id a) rs ≡ false
    → any (has_id a) (select q rs) ≡ false
any-select a q [] h = refl
any-select a q (r ∷ rs) h = ground (arith, any-select a q rs)

pub select-IsKeyed :
    (q : BookmarkRow → Bool) (rs : List BookmarkRow) → IsKeyed rs → IsKeyed (select q rs)
select-IsKeyed q [] k = tt
select-IsKeyed q (r ∷ rs) k = ground (arith, select-IsKeyed q rs k.1, any-select r.id q rs k.0)

find-none :
    (id : String) (rs : List BookmarkRow) → any (has_id id) rs ≡ false → find (has_id id) rs ≡ none
find-none id [] h = refl
find-none id (r ∷ rs) h = ground (arith, find-none id rs)

abbrev put_at :
    (d : RowData) (db : Db)
    → (any (has_id d.target_id) db.0 ≡ true) ⊎ (any (has_id d.target_id) db.0 ≡ false)
    → Outcome BookmarkRow × Db
put_at d db (inl taken) = (err refused, db)
put_at d db (inr fresh) = (ok (made d), (made d ∷ db.0, (fresh, db.1)))

abbrev change_at :
    (id : String) (p : RowPatch) (db : Db) → Option BookmarkRow → Outcome BookmarkRow × Db
change_at id p db none = (err refused, db)
change_at id p db (some r) = (ok r, (map (changed id p) db.0, changed-IsKeyed id p db.0 db.1))

abbrev pub table : Table Db
table = record {
  find_unique = λ db id. find (has_id id) db.0;
  find_many = λ db w. select (meets w) db.0;
  create_row = λ d db. put_at d db (Bool-cases (any (has_id d.target_id) db.0));
  update_row = λ id p db. change_at id p db (find (has_id id) (map (changed id p) db.0));
  delete_row = λ id db. (
    ok tt,
    (select (λ r. not (has_id id r)) db.0, select-IsKeyed (λ r. not (has_id id r)) db.0 db.1),
  );
}

put_at-failed :
    (d : RowData) (db : Db)
    (c : (any (has_id d.target_id) db.0 ≡ true) ⊎ (any (has_id d.target_id) db.0 ≡ false))
    (e : Thrown)
    → (put_at d db c).0 ≡ err e
    → (put_at d db c).1 ≡ db
put_at-failed d db (inl taken) e h = refl
put_at-failed d db (inr fresh) e h = absurd (ground arith)

put_at-made :
    (d : RowData) (db : Db)
    (c : (any (has_id d.target_id) db.0 ≡ true) ⊎ (any (has_id d.target_id) db.0 ≡ false))
    (r : BookmarkRow)
    → (put_at d db c).0 ≡ ok r
    → ((put_at d db c).1.0 ≡ r ∷ db.0) × (data_of r ≡ d) × (find (has_id r.id) db.0 ≡ none)
put_at-made d db (inl taken) r h = absurd (ground arith)
put_at-made d db (inr fresh) r h =
    let same : made d ≡ r = ground arith in
    (
      ap (λ x. x ∷ db.0) same,
      ap data_of (sym same),
      ap (λ (x : BookmarkRow). find (has_id x.id) db.0) (sym same)
          ∙ find-none d.target_id db.0 fresh,
    )

change_at-failed :
    (id : String) (p : RowPatch) (db : Db) (o : Option BookmarkRow) (e : Thrown)
    → (change_at id p db o).0 ≡ err e
    → (change_at id p db o).1 ≡ db
change_at-failed id p db none e h = refl
change_at-failed id p db (some r) e h = absurd (ground arith)

change_at-done :
    (id : String) (p : RowPatch) (db : Db) (o : Option BookmarkRow) (r : BookmarkRow)
    → (change_at id p db o).0 ≡ ok r
    → (o ≡ some r) × ((change_at id p db o).1.0 ≡ map (changed id p) db.0)
change_at-done id p db none r h = absurd (ground arith)
change_at-done id p db (some x) r h = (ground arith, refl)

pub table-IsTable : IsTable table rows
table-IsTable = record {
  keyed = λ db. db.1;
  one = λ db id. refl;
  many = λ db w. refl;
  create_failed = λ d db e h. put_at-failed d db (Bool-cases (any (has_id d.target_id) db.0)) e h;
  update_failed =
      λ id p db e h. change_at-failed id p db (find (has_id id) (map (changed id p) db.0)) e h;
  delete_failed = λ id db e h. absurd (ground arith);
  created = λ d db r h.
      let (after, same, fresh) =
        put_at-made d db (Bool-cases (any (has_id d.target_id) db.0)) r h in
      ([], db.0, refl, after, same, fresh);
  updated = λ id p db r h.
      let (found, after) =
        change_at-done id p db (find (has_id id) (map (changed id p) db.0)) r h in
      (after, ap (find (has_id id)) after ∙ found);
  deleted = λ id db h. refl;
}
