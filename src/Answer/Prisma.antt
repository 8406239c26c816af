-- ===== src/Answer/Prisma.antt =====
-- The part of the Prisma client that the data source of answers calls: a parameter, with the
-- documented behaviour of the table `ContentReaction` of prisma/schema.prisma as laws. `Db` is
-- what the database holds. That calls on reactions do not fail (the connection holds) is assumed
-- by their types; calls on answers may throw.
use qa_api.Common.{
  ℕ, String, Bool, true, false, ◌≡◌, ◌&&◌, ◌||◌, ◌===◌, if◌then◌else◌, Option, none, some, List, [],
  ◌∷◌, select,
}
use qa_api.Content.{ContentType, question, answer, ParentReference, AncestorReference}
use qa_api.Effect.{Action}

-- The column `type` of a reaction.
pub data Kind : Type 0 where
  like dislike : Kind

pub record Reaction : Type 0 where
  pub content_type : ContentType
  pub content_id : String
  pub user_id : String
  pub kind : Kind

pub record AnswerRow : Type 0 where
  pub id : String
  pub content : String
  pub user_id : String
  pub question_id : String
  pub is_accepted : Bool
  pub created_at : ℕ
  pub parent_id : Option String
  pub parent_type : Option ContentType
  pub ancestors : Option (List AncestorReference)

-- The argument `data` of `answer.update` and `answer.create`: a column that is `none` is left
-- alone, or takes its default.
pub record RowPatch : Type 0 where
  pub content : Option String
  pub user_id : Option String
  pub question_id : Option String
  pub is_accepted : Option Bool
  pub parent : Option ParentReference
  pub ancestors : Option (List AncestorReference)

abbrev pub same_type : ContentType → ContentType → Bool
same_type question question = true
same_type answer answer = true
same_type question answer = false
same_type answer question = false

abbrev pub is_about : ContentType → String → Reaction → Bool
is_about t c r = same_type r.content_type t && r.content_id === c

-- The reaction of one user in a list of rows: the first row of that user.
abbrev pub kind_of : String → List Reaction → Option Kind
kind_of u [] = none
kind_of u (r ∷ rs) = if r.user_id === u then some r.kind else kind_of u rs

abbrev pub has_row_of : String → List Reaction → Bool
has_row_of u [] = false
has_row_of u (r ∷ rs) = r.user_id === u || has_row_of u rs

-- The unique constraint: no user has two rows.
abbrev pub IsOnce : List Reaction → Type 0
IsOnce [] = Unit
IsOnce (r ∷ rs) = (has_row_of r.user_id rs ≡ false) × IsOnce rs

abbrev pub or_else : Option Kind → Option Kind → Option Kind
or_else (some k) d = some k
or_else none d = d

pub record Prisma : Type 1 where
  pub Db : Type 0
  -- answer.findUnique, answer.findMany, answer.create, answer.update, answer.delete
  pub find_unique : Db → String → Option AnswerRow
  pub find_many : Db → List AnswerRow
  pub create_row : RowPatch → Action Db AnswerRow
  pub update_row : String → RowPatch → Action Db (Unit {0})
  pub delete_row : String → Action Db (Unit {0})
  -- contentReaction.findMany, .deleteMany, and .createMany with `skipDuplicates`
  pub find_reactions : Db → ContentType → String → List Reaction
  pub delete_reactions : ContentType → String → Db → Db
  pub create_reactions : List Reaction → Db → Db

-- The behaviour that the theorems rely on.
pub record IsLawful (p : Prisma) : Type 0 where
  pub once : (db : p.Db) (t : ContentType) (c : String) → IsOnce (p.find_reactions db t c)
  pub deleted :
      (db : p.Db) (t : ContentType) (c : String)
      → p.find_reactions (p.delete_reactions t c db) t c ≡ []
  pub deleted_elsewhere :
      (db : p.Db) (t t' : ContentType) (c c' : String)
      → (same_type t t' && c === c') ≡ false
      → p.find_reactions (p.delete_reactions t c db) t' c' ≡ p.find_reactions db t' c'
  -- A new row is skipped where the user has one on the same content.
  pub created :
      (db : p.Db) (rows : List Reaction) (t : ContentType) (c u : String)
      → kind_of u (p.find_reactions (p.create_reactions rows db) t c)
        ≡ or_else (kind_of u (p.find_reactions db t c)) (kind_of u (select (is_about t c) rows))
  pub row_after_delete :
      (db : p.Db) (t : ContentType) (c id : String)
      → p.find_unique (p.delete_reactions t c db) id ≡ p.find_unique db id
  pub row_after_create :
      (db : p.Db) (rows : List Reaction) (id : String)
      → p.find_unique (p.create_reactions rows db) id ≡ p.find_unique db id
