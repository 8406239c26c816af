-- ===== src/Question/Source.antt =====
-- repositories/postgresql/QuestionPostgreSQLDataSource.ts and repositories/QuestionRepository.ts:
-- the reads, the update and the deletion. The user that is joined in for display is left out.
use qa_api.Common.{
  ℕ, String, Bool, true, false, not, ◌||◌, ◌===◌, if◌then◌else◌, Option, none, some, List, [], ◌∷◌,
  ◌++◌, map, select,
}
use qa_api.Content.{ContentType, question, ParentReference, AncestorReference}
use qa_api.Effect.{ok, Action, pure, ◌>>=◌, ◌>>◌, gets, modify, or_throw}
use qa_api.Error.Application.{not_found_error}
use qa_api.Account.Source.{Field, undefined, value}
use qa_api.Answer.Prisma.{Kind, like, dislike, Reaction}
use qa_api.Answer.Source.{users_of, is_like, or_nil}
use qa_api.Question.Table.{QuestionRow, Columns, Table}

pub record Thumbnail : Type 0 where
  pub key : String
  pub url : Option String

-- `IQuestionModel`
pub record QuestionModel : Type 0 where
  pub id : String
  pub title : String
  pub content : String
  pub slug : String
  pub category : String
  pub tags : List String
  pub created_at : ℕ
  pub user : String
  pub likes : List String
  pub dislikes : List String
  pub answers : List String
  pub parent : Option ParentReference
  pub ancestors : Option (List AncestorReference)
  pub related_contents : List String
  pub thumbnail : Option Thumbnail

-- `Partial<IQuestionModel>`: a field that is `none` is absent.
pub record QuestionPatch : Type 0 where
  pub title : Option String
  pub content : Option String
  pub slug : Option String
  pub category : Option String
  pub user : Option String
  pub likes : Option (List String)
  pub dislikes : Option (List String)
  pub tags : Option (List String)
  pub parent : Option ParentReference
  pub ancestors : Option (List AncestorReference)
  pub related_contents : Option (List String)
  pub thumbnail : Field Thumbnail

abbrev pub no_change : QuestionPatch
no_change = record {
  title = none;
  content = none;
  slug = none;
  category = none;
  user = none;
  likes = none;
  dislikes = none;
  tags = none;
  parent = none;
  ancestors = none;
  related_contents = none;
  thumbnail = undefined;
}

abbrev or_empty : Option String → String
or_empty none = ""
or_empty (some s) = s

-- A text as a condition.
abbrev pub truthy : Option String → Bool
truthy none = false
truthy (some s) = not (s === "")

abbrev parent_of : Option String → Option ContentType → Option ParentReference
parent_of (some id) (some type) = if id === "" then none else some (record { id = id; type = type })
parent_of _ _ = none

unfoldable pub to_entity : QuestionRow → List Reaction → List String → List String → QuestionModel
to_entity row rows tags answers = record {
  id = row.id;
  title = row.title;
  content = row.content;
  slug = or_empty row.slug;
  category = row.category;
  tags = tags;
  created_at = row.created_at;
  user = row.user_id;
  likes = users_of is_like rows;
  dislikes = users_of (λ k. not (is_like k)) rows;
  answers = answers;
  parent = parent_of row.parent_id row.parent_type;
  ancestors = row.ancestors;
  related_contents = row.related_contents;
  thumbnail =
      if truthy row.thumbnail_key || truthy row.thumbnail_url
      then some (record { key = or_empty row.thumbnail_key; url = row.thumbnail_url })
      else none;
}

abbrev reaction_rows : Kind → String → List String → List Reaction
reaction_rows k id [] = []
reaction_rows k id (u ∷ us) =
    record { content_type = question; content_id = id; user_id = u; kind = k }
    ∷ reaction_rows k id us

abbrev key_of : Field Thumbnail → Option String
key_of (value t) = some t.key
key_of _ = none

abbrev url_of : Field Thumbnail → Option String
url_of (value t) = t.url
url_of _ = none

-- `updateData`
unfoldable pub columns_of : QuestionPatch → Columns
columns_of d = record {
  title = d.title;
  content = d.content;
  slug = d.slug;
  category = d.category;
  user_id = d.user;
  parent = d.parent;
  ancestors = d.ancestors;
  related_contents = d.related_contents;
  thumbnail_key = key_of d.thumbnail;
  thumbnail_url = url_of d.thumbnail;
}

abbrev is_some {ℓ} : {A : Type ℓ} → Option A → Bool
is_some none = false
is_some (some _) = true

abbrev is_value {ℓ} : {A : Type ℓ} → Field A → Bool
is_value (value _) = true
is_value _ = false

-- `Object.keys(updateData).length > 0`
abbrev has_columns : QuestionPatch → Bool
has_columns d =
    is_some d.title
    || is_some d.content
    || is_some d.slug
    || is_some d.category
    || is_some d.user
    || is_some d.parent
    || is_some d.ancestors
    || is_some d.related_contents
    || is_value d.thumbnail

module _ {Db : Type 0} (t : Table Db) where
  abbrev pub entity : Db → QuestionRow → QuestionModel
  unfolding to_entity
  entity db row =
      to_entity row (t.find_reactions db row.id) (t.find_tags db row.id)
        (t.find_answer_ids db row.id)

  unfoldable pub find_by_id : String → Action Db QuestionModel
  unfolding to_entity
  find_by_id id = do
    found ← gets (λ db. t.find_unique db id)
    row ← or_throw found (not_found_error "Question not found")
    gets (λ db. entity db row)

  unfoldable pub find_all : Action Db (List QuestionModel)
  unfolding to_entity
  find_all = gets (λ db. map (entity db) (t.find_many db))

  abbrev add_reactions : List Reaction → Db → Db
  add_reactions [] db = db
  add_reactions (r ∷ rs) db = t.create_reactions (r ∷ rs) db

  unfoldable pub write_reactions : String → Option (List String) → Option (List String) → Db → Db
  write_reactions id none none db = db
  write_reactions id likes dislikes db =
      add_reactions
        (reaction_rows like id (or_nil likes) ++ reaction_rows dislike id (or_nil dislikes))
        (t.delete_reactions id db)

  unfoldable pub write_tags : String → Option (List String) → Db → Db
  write_tags id none db = db
  write_tags id (some []) db = t.delete_tags id db
  write_tags id (some (x ∷ xs)) db = t.create_tags id (x ∷ xs) (t.delete_tags id db)

  abbrev pub update_columns : String → QuestionPatch → Action Db (Unit {0})
  unfolding columns_of
  update_columns id d db = elim (has_columns d) [
    | true ↦ t.update_row id (columns_of d) db
    | false ↦ (ok tt, db)
  ]

  unfoldable pub update_by_id : String → QuestionPatch → Action Db QuestionModel
  unfolding find_by_id write_reactions write_tags columns_of
  update_by_id id d = do
    modify (write_reactions id d.likes d.dislikes)
    modify (write_tags id d.tags)
    update_columns id d
    find_by_id id

  unfoldable pub delete_by_id : String → Action Db QuestionModel
  unfolding find_by_id
  delete_by_id id = do row ← find_by_id id; t.delete_row id; pure row

  -- QuestionRepository.findByParent
  abbrev pub is_child_of : String → QuestionModel → Bool
  is_child_of id q = elim q.parent [ none ↦ false | some p ↦ p.id === id ]

  unfoldable pub find_by_parent : String → Action Db (List QuestionModel)
  unfolding find_all
  find_by_parent id = do all ← find_all; pure (select (is_child_of id) all)
