-- ===== src/Answer/Manager.antt =====
-- services/managers/AnswerManager.ts: the operations that change answers, each of which brings the
-- search index up to date. The repository of questions and the index are the interfaces
-- IQuestionRepository and IIndexClient; `project_answer` and `project_question` are the projectors.
-- The checks for a missing question or answer are left out: `findById` and the operations on
-- reactions throw by themselves where there is none, so those branches are not reached.
use qa_api.Common.{String, ◌===◌, Option, none, some, List, without}
use qa_api.Content.{question, answer, ParentReference, Answer, Question}
use qa_api.Effect.{ok, Action, pure, throw_if, ◌>>=◌, ◌>>◌}
use qa_api.Error.Application.{validation_error_of}
use qa_api.Ancestry.Chain.{Lineage, under_question, under_answer, inherited}
use qa_api.Answer.Source.{DataSource, AnswerPatch, no_change}
use qa_api.Answer.Repository

-- The calls of `IQuestionRepository`: `findById`, which throws where there is no question, and
-- `updateById` of the field `answers`.
pub record QuestionRepository (Db : Type 0) : Type 0 where
  pub find_by_id : String → Action Db Question
  pub update_answers : String → List String → Action Db Question

-- `sync(indexName, operation, document)`: a delete carries the id alone.
pub data Sync (Doc : Type 0) : Type 0 where
  index update : Doc → Sync Doc
  delete : String → Sync Doc

-- A call may throw here, which the program's ElasticsearchSyncService.sync never does.
pub record IndexClient (Index Doc : Type 0) : Type 0 where
  pub sync : String → Sync Doc → Action Index (Unit {0})
  pub answer_index : String
  pub question_index : String
  pub project_answer : Answer → Doc
  pub project_question : Question → Doc

-- What the caller sends for a new answer; further fields of it are left out.
pub record AnswerData : Type 0 where
  pub content : String
  pub parent : Option ParentReference

-- The parent and the ancestors of a new answer to `q`: under the given parent, or inherited.
unfoldable pub lineage_of :
    {Db : Type 0}
    → DataSource Db
    → QuestionRepository Db
    → Question
    → Option ParentReference
    → Action Db Lineage
lineage_of source questions q none = pure (inherited q)
lineage_of source questions q (some p) = elim p.type [
  | question ↦ do found ← questions.find_by_id p.id; pure (under_question found)
  | answer ↦ do
    found ← Repository.find_by_id source p.id
    its_question ← questions.find_by_id found.question
    pure (under_answer found its_question)
]

abbrev pub new_answer : AnswerData → Question → String → Lineage → AnswerPatch
new_answer d q user_id l = record no_change {
  content = some d.content;
  user = some user_id;
  question = some q.id;
  parent = l.parent;
  ancestors = some l.ancestors;
}

module _ {Db Index Doc : Type 0} (source : DataSource Db) (questions : QuestionRepository Db)
    (client : IndexClient Index Doc) where
  abbrev pub on_db : {A : Type 0} → Action Db A → Action (Db × Index) A
  on_db m (db, i) = let (r, db') = m db in (r, (db', i))

  abbrev pub on_index : {A : Type 0} → Action Index A → Action (Db × Index) A
  on_index m (db, i) = let (r, i') = m i in (r, (db, i'))

  abbrev pub sync_answer : Answer → Action (Db × Index) (Unit {0})
  sync_answer a = on_index (client.sync client.answer_index (update (client.project_answer a)))

  -- `try { … } catch { }`
  abbrev pub quietly : Action (Db × Index) (Unit {0}) → Action (Db × Index) (Unit {0})
  quietly m s = let (r, s') = m s in (ok tt, s')

  unfoldable pub create_answer : AnswerData → String → String → Action (Db × Index) Answer
  create_answer d question_id user_id = do
    q ← on_db (questions.find_by_id question_id)
    l ← on_db (lineage_of source questions q d.parent)
    a ← on_db (source.create (new_answer d q user_id l))
    on_index (client.sync client.answer_index (index (client.project_answer a)))
    updated ← on_db (questions.find_by_id question_id)
    on_index (client.sync client.question_index (index (client.project_question updated)))
    pure a

  unfoldable pub update_answer : String → String → Action (Db × Index) Answer
  update_answer id content = do
    throw_if (content === "") (validation_error_of "Content is required")
    a ← on_db (Repository.update_by_id source id (record no_change { content = some content }))
    sync_answer a
    pure a

  unfoldable pub delete_answer : String → String → Action (Db × Index) (Unit {0})
  delete_answer id question_id = do
    on_db (Repository.delete_by_id source id)
    on_index (client.sync client.answer_index (delete id))
    q ← on_db (questions.find_by_id question_id)
    on_db (questions.update_answers question_id (without id q.answers))
    updated ← on_db (questions.find_by_id question_id)
    on_index (client.sync client.question_index (update (client.project_question updated)))

  unfoldable pub like_answer : String → String → Action (Db × Index) Answer
  like_answer id user_id = do
    a ← on_db (Repository.like_answer source id user_id)
    quietly (sync_answer a)
    pure a

  -- The other three operations do not catch what the index throws.
  abbrev pub then_sync : Action Db Answer → Action (Db × Index) Answer
  then_sync m = do a ← on_db m; sync_answer a; pure a

  unfoldable pub undo_like_answer : String → String → Action (Db × Index) Answer
  undo_like_answer id user_id = then_sync (Repository.unlike_answer source id user_id)

  unfoldable pub dislike_answer : String → String → Action (Db × Index) Answer
  dislike_answer id user_id = then_sync (Repository.dislike_answer source id user_id)

  unfoldable pub undo_dislike_answer : String → String → Action (Db × Index) Answer
  undo_dislike_answer id user_id = then_sync (Repository.undo_dislike_answer source id user_id)
