-- ===== src/Bookmark/Table.antt =====
-- The table of bookmarks as the Prisma client serves it: a parameter, with the documented behaviour
-- of findUnique, findMany, create, update and delete as laws.
use qa_api.Common.{
  ℕ, String, Bool, true, false, not, ◌≡◌, ◌&&◌, ◌===◌, if◌then◌else◌, Option, none, some, List, [],
  ◌∷◌, ◌++◌, map, select, find, any,
}
use qa_api.Error.Handler.{Thrown}
use qa_api.Effect.{ok, err, Action}
use qa_api.Bookmark.Model.{TargetType, question, answer, note, article, comment}

pub record BookmarkRow : Type 0 where
  pub id : String
  pub user_id : String
  pub target_type : TargetType
  pub target_id : String
  pub target_title : String
  pub target_content : String
  pub target_author : Option String
  pub target_author_id : Option String
  pub target_created_at : ℕ
  pub target_url : Option String
  pub tags : List String
  pub notes : Option String
  pub is_public : Bool
  pub created_at : ℕ

-- `data` of `bookmark.create`; the id and the time are the database's.
pub record RowData : Type 0 where
  pub user_id : String
  pub target_type : TargetType
  pub target_id : String
  pub target_title : String
  pub target_content : String
  pub target_author : Option String
  pub target_author_id : Option String
  pub target_created_at : ℕ
  pub target_url : Option String
  pub tags : List String
  pub notes : Option String
  pub is_public : Bool

-- The target's columns in `data` of `bookmark.update`.
pub record TargetColumns : Type 0 where
  pub title : String
  pub content : String
  pub author : Option String
  pub author_id : Option String
  pub created_at : Option ℕ
  pub url : Option String

-- `data` of `bookmark.update`: a column that is `none` is left alone.
pub record RowPatch : Type 0 where
  pub user_id : Option String
  pub target_type : Option TargetType
  pub target_id : Option String
  pub is_public : Option Bool
  pub tags : Option (List String)
  pub notes : Option String
  pub target : Option TargetColumns

-- `where`: a column that is `none` may hold anything.
pub record Where : Type 0 where
  pub id : Option String
  pub user_id : Option String
  pub target_type : Option TargetType
  pub target_id : Option String
  pub is_public : Option Bool

abbrev pub same_type : TargetType → TargetType → Bool
same_type question question = true
same_type answer answer = true
same_type note note = true
same_type article article = true
same_type comment comment = true
same_type _ _ = false

abbrev is : Bool → Bool → Bool
is true b = b
is false b = not b

abbrev pub holds {ℓ} : {A : Type ℓ} → (A → A → Bool) → Option A → A → Bool
holds same none a = true
holds same (some x) a = same x a

abbrev pub meets : Where → BookmarkRow → Bool
meets w r =
    holds ◌===◌ w.id r.id
    && holds ◌===◌ w.user_id r.user_id
    && holds same_type w.target_type r.target_type
    && holds ◌===◌ w.target_id r.target_id
    && holds is w.is_public r.is_public

abbrev pub has_id : String → BookmarkRow → Bool
has_id id r = r.id === id

abbrev pub or_old {ℓ} : {A : Type ℓ} → Option A → A → A
or_old none a = a
or_old (some b) a = b

abbrev pub with_target : Option TargetColumns → BookmarkRow → BookmarkRow
with_target none r = r
with_target (some t) r = record r {
  target_title = t.title;
  target_content = t.content;
  target_author = t.author;
  target_author_id = t.author_id;
  target_created_at = or_old t.created_at r.target_created_at;
  target_url = t.url;
}

abbrev or_old_text : Option String → Option String → Option String
or_old_text none b = b
or_old_text (some a) b = some a

abbrev pub patched : RowPatch → BookmarkRow → BookmarkRow
patched p r = with_target p.target (record r {
  user_id = or_old p.user_id r.user_id;
  target_type = or_old p.target_type r.target_type;
  target_id = or_old p.target_id r.target_id;
  is_public = or_old p.is_public r.is_public;
  tags = or_old p.tags r.tags;
  notes = or_old_text p.notes r.notes;
})

abbrev pub changed : String → RowPatch → BookmarkRow → BookmarkRow
changed id p r = if r.id === id then patched p r else r

abbrev pub data_of : BookmarkRow → RowData
data_of r = record {
  user_id = r.user_id;
  target_type = r.target_type;
  target_id = r.target_id;
  target_title = r.target_title;
  target_content = r.target_content;
  target_author = r.target_author;
  target_author_id = r.target_author_id;
  target_created_at = r.target_created_at;
  target_url = r.target_url;
  tags = r.tags;
  notes = r.notes;
  is_public = r.is_public;
}

-- The primary key: no two rows have one id.
abbrev pub IsKeyed : List BookmarkRow → Type 0
IsKeyed [] = Unit
IsKeyed (r ∷ rs) = (any (has_id r.id) rs ≡ false) × IsKeyed rs

pub record Table (Db : Type 0) : Type 0 where
  pub find_unique : Db → String → Option BookmarkRow
  pub find_many : Db → Where → List BookmarkRow
  pub create_row : RowData → Action Db BookmarkRow
  pub update_row : String → RowPatch → Action Db BookmarkRow
  pub delete_row : String → Action Db (Unit {0})

-- `rows db` are all rows, newest first, as `findMany` orders them.
pub record IsTable {Db : Type 0} (t : Table Db) (rows : Db → List BookmarkRow) : Type 0 where
  pub keyed : (db : Db) → IsKeyed (rows db)
  pub one : (db : Db) (id : String) → t.find_unique db id ≡ find (has_id id) (rows db)
  pub many : (db : Db) (w : Where) → t.find_many db w ≡ select (meets w) (rows db)
  -- A write that throws has written nothing.
  pub create_failed :
      (d : RowData) (db : Db) (e : Thrown)
      → (t.create_row d db).0 ≡ err e
      → (t.create_row d db).1 ≡ db
  pub update_failed :
      (id : String) (p : RowPatch) (db : Db) (e : Thrown)
      → (t.update_row id p db).0 ≡ err e
      → (t.update_row id p db).1 ≡ db
  pub delete_failed :
      (id : String) (db : Db) (e : Thrown)
      → (t.delete_row id db).0 ≡ err e
      → (t.delete_row id db).1 ≡ db
  pub created :
      (d : RowData) (db : Db) (r : BookmarkRow)
      → (t.create_row d db).0 ≡ ok r
      → (front back : List BookmarkRow) × (rows db ≡ front ++ back)
        × (rows (t.create_row d db).1 ≡ front ++ r ∷ back)
        × (data_of r ≡ d)
        × (find (has_id r.id) (rows db) ≡ none)
  pub updated :
      (id : String) (p : RowPatch) (db : Db) (r : BookmarkRow)
      → (t.update_row id p db).0 ≡ ok r
      → (rows (t.update_row id p db).1 ≡ map (changed id p) (rows db))
        × (find (has_id id) (rows (t.update_row id p db).1) ≡ some r)
  pub deleted :
      (id : String) (db : Db)
      → (t.delete_row id db).0 ≡ ok tt
      → rows (t.delete_row id db).1 ≡ select (λ r. not (has_id id r)) (rows db)
