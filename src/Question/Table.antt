-- ===== src/Question/Table.antt =====
-- The tables of questions, their reactions and tags, as the Prisma client serves them: a
-- parameter, with the documented behaviour of the calls on questions as laws. Reads do not fail.
use qa_api.Common.{
  ℕ, String, Bool, true, not, ◌≡◌, ◌===◌, if◌then◌else◌, Option, none, some, List, map, select,
  find, any,
}
use qa_api.Content.{ContentType, ParentReference, AncestorReference, Answer}
use qa_api.Effect.{ok, Action}
use qa_api.Answer.Prisma.{Reaction}

pub record QuestionRow : Type 0 where
  pub id : String
  pub title : String
  pub content : String
  pub slug : Option String
  pub category : String
  pub created_at : ℕ
  pub user_id : String
  pub parent_id : Option String
  pub parent_type : Option ContentType
  pub ancestors : Option (List AncestorReference)
  pub related_contents : List String
  pub thumbnail_key : Option String
  pub thumbnail_url : Option String

-- `data` of `question.update`: a column that is `none` is left alone.
pub record Columns : Type 0 where
  pub title : Option String
  pub content : Option String
  pub slug : Option String
  pub category : Option String
  pub user_id : Option String
  pub parent : Option ParentReference
  pub ancestors : Option (List AncestorReference)
  pub related_contents : Option (List String)
  pub thumbnail_key : Option String
  pub thumbnail_url : Option String

abbrev or_old {ℓ} : {A : Type ℓ} → Option A → A → A
or_old none a = a
or_old (some b) a = b

abbrev or_kept {ℓ} : {A : Type ℓ} → Option A → Option A → Option A
or_kept none b = b
or_kept (some a) b = some a

abbrev id_of_parent : Option ParentReference → Option String
id_of_parent none = none
id_of_parent (some p) = some p.id

abbrev type_of_parent : Option ParentReference → Option ContentType
type_of_parent none = none
type_of_parent (some p) = some p.type

abbrev pub written : Columns → QuestionRow → QuestionRow
written c r = record {
  id = r.id;
  title = or_old c.title r.title;
  content = or_old c.content r.content;
  slug = or_kept c.slug r.slug;
  category = or_old c.category r.category;
  created_at = r.created_at;
  user_id = or_old c.user_id r.user_id;
  parent_id = or_kept (id_of_parent c.parent) r.parent_id;
  parent_type = or_kept (type_of_parent c.parent) r.parent_type;
  ancestors = or_kept c.ancestors r.ancestors;
  related_contents = or_old c.related_contents r.related_contents;
  thumbnail_key = or_kept c.thumbnail_key r.thumbnail_key;
  thumbnail_url = or_kept c.thumbnail_url r.thumbnail_url;
}

abbrev pub has_id : String → QuestionRow → Bool
has_id id r = r.id === id

abbrev pub changed : String → Columns → QuestionRow → QuestionRow
changed id c r = if r.id === id then written c r else r

pub record Table (Db : Type 0) : Type 0 where
  pub find_unique : Db → String → Option QuestionRow
  pub find_many : Db → List QuestionRow
  pub update_row : String → Columns → Action Db (Unit {0})
  pub delete_row : String → Action Db (Unit {0})
  pub find_reactions : Db → String → List Reaction
  pub delete_reactions : String → Db → Db
  pub create_reactions : List Reaction → Db → Db
  pub find_tags : Db → String → List String
  pub delete_tags : String → Db → Db
  pub create_tags : String → List String → Db → Db
  pub find_answer_ids : Db → String → List String

-- `rows db` are the questions and `answers db` the answers. Deleting a question deletes the answers
-- to it (onDelete: Cascade).
pub record IsTable {Db : Type 0} (t : Table Db) (rows : Db → List QuestionRow)
    (answers : Db → List Answer) : Type 0 where
  pub found : (db : Db) (id : String) → t.find_unique db id ≡ find (has_id id) (rows db)
  pub listed : (db : Db) → t.find_many db ≡ rows db
  pub updated :
      (id : String) (c : Columns) (db : Db)
      → any (has_id id) (rows db) ≡ true
      → (db' : Db) × (t.update_row id c db ≡ (ok tt, db'))
        × (rows db' ≡ map (changed id c) (rows db))
        × (answers db' ≡ answers db)
  pub deleted :
      (id : String) (db : Db)
      → any (has_id id) (rows db) ≡ true
      → (db' : Db) × (t.delete_row id db ≡ (ok tt, db'))
        × (rows db' ≡ select (λ r. not (has_id id r)) (rows db))
        × (answers db' ≡ select (λ a. not (a.question === id)) (answers db))
