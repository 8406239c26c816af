-- ===== src/Bookmark/Source.antt =====
-- repositories/postgresql/BookmarkPostgreSQLDataSource.ts over the table of bookmarks. Reading a
-- date from a text and writing it as one (`new Date(…)`, `toISOString()`) and the time of the call
-- are parameters.
use qa_api.Common.{
  ℕ, String, Bool, true, false, ◌||◌, ◌===◌, if◌then◌else◌, Option, none, some, List, map,
}
use qa_api.Effect.{Action, pure, ◌>>=◌, ◌>>◌, gets, or_throw}
use qa_api.Error.Application.{not_found_error}
use qa_api.Bookmark.Model.{TargetType, TargetData, Bookmark, NewBookmark}
use qa_api.Bookmark.Table.{BookmarkRow, RowData, TargetColumns, RowPatch, Where, Table}

pub record Dates : Type 0 where
  pub parse : String → ℕ
  pub iso : ℕ → String
  pub now : ℕ

-- `Partial<IBookmarkModel>`: a field that is `none` is absent.
pub record BookmarkPatch : Type 0 where
  pub user_id : Option String
  pub target_type : Option TargetType
  pub target_id : Option String
  pub target_data : Option TargetData
  pub tags : Option (List String)
  pub notes : Option String
  pub is_public : Option Bool

-- A field and its value, as `findByField` is given them; it filters by no other field.
pub data FieldValue : Type 0 where
  id : String → FieldValue
  user_id : String → FieldValue
  target_type : TargetType → FieldValue
  target_id : String → FieldValue
  is_public : Bool → FieldValue
  other : FieldValue

abbrev pub anything : Where
anything = record {
  id = none;
  user_id = none;
  target_type = none;
  target_id = none;
  is_public = none;
}

unfoldable pub where_field : FieldValue → Where
where_field (id s) = record anything { id = some s }
where_field (user_id s) = record anything { user_id = some s }
where_field (target_type t) = record anything { target_type = some t }
where_field (target_id s) = record anything { target_id = some s }
where_field (is_public b) = record anything { is_public = some b }
where_field other = anything

abbrev is_some {ℓ} : {A : Type ℓ} → Option A → Bool
is_some none = false
is_some (some _) = true

-- `Object.keys(updateData).length > 0`
abbrev pub has_columns : RowPatch → Bool
has_columns p =
    is_some p.user_id
    || is_some p.target_type
    || is_some p.target_id
    || is_some p.is_public
    || is_some p.tags
    || is_some p.notes
    || is_some p.target

module _ {Db : Type 0} (dates : Dates) (t : Table Db) where
  unfoldable pub to_entity : BookmarkRow → Bookmark
  to_entity row = record {
    id = row.id;
    user_id = row.user_id;
    target_type = row.target_type;
    target_id = row.target_id;
    target_data = record {
      title = row.target_title;
      content = row.target_content;
      author = row.target_author;
      author_id = row.target_author_id;
      created_at = dates.iso row.target_created_at;
      url = row.target_url;
    };
    tags = row.tags;
    notes = row.notes;
    is_public = row.is_public;
    created_at = row.created_at;
  }

  unfoldable pub row_data : NewBookmark → RowData
  row_data d = record {
    user_id = d.user_id;
    target_type = d.target_type;
    target_id = d.target_id;
    target_title = d.target_data.title;
    target_content = d.target_data.content;
    target_author = d.target_data.author;
    target_author_id = d.target_data.author_id;
    target_created_at =
        if d.target_data.created_at === "" then dates.now else dates.parse d.target_data.created_at;
    target_url = d.target_data.url;
    tags = d.tags;
    notes = some d.notes;
    is_public = d.is_public;
  }

  unfoldable pub create : NewBookmark → Action Db Bookmark
  unfolding to_entity row_data
  create d = do row ← t.create_row (row_data d); pure (to_entity row)

  unfoldable pub find_by_id : String → Action Db Bookmark
  unfolding to_entity
  find_by_id i = do
    found ← gets (λ db. t.find_unique db i)
    row ← or_throw found (not_found_error "Database error in BaseRepository.findById")
    pure (to_entity row)

  unfoldable pub find_all : Action Db (List Bookmark)
  find_all = gets (λ db. map to_entity (t.find_many db anything))

  abbrev target_columns : Option TargetData → Option TargetColumns
  target_columns none = none
  target_columns (some d) = some (record {
    title = d.title;
    content = d.content;
    author = d.author;
    author_id = d.author_id;
    created_at = if d.created_at === "" then none else some (dates.parse d.created_at);
    url = d.url;
  })

  unfoldable pub row_patch : BookmarkPatch → RowPatch
  row_patch d = record {
    user_id = d.user_id;
    target_type = d.target_type;
    target_id = d.target_id;
    is_public = d.is_public;
    tags = d.tags;
    notes = d.notes;
    target = target_columns d.target_data;
  }

  abbrev pub write_row : String → RowPatch → Action Db Bookmark
  write_row i p = do row ← t.update_row i p; pure (to_entity row)

  unfoldable pub update_by_id : String → BookmarkPatch → Action Db Bookmark
  unfolding find_by_id to_entity row_patch
  update_by_id i d db =
      if has_columns (row_patch d) then write_row i (row_patch d) db else find_by_id i db

  unfoldable pub delete_by_id : String → Action Db Bookmark
  unfolding find_by_id
  delete_by_id i = do row ← find_by_id i; t.delete_row i; pure row

  unfoldable pub find_by_field : FieldValue → Action Db (List Bookmark)
  unfolding where_field
  find_by_field f = gets (λ db. map to_entity (t.find_many db (where_field f)))

  -- The id, the user, and the type and id of the target are the fields it filters by.
  unfoldable pub find_by_fields :
      Option String → Option String → Option TargetType → Option String → Action Db (List Bookmark)
  find_by_fields i u type target = gets (λ db. map to_entity (
      t.find_many db
        (record anything { id = i; user_id = u; target_type = type; target_id = target })))
