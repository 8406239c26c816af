-- ===== src/Question/Store.antt =====
-- The repository of questions as AnswerManager uses it: findById and the update of the field
-- `answers`, over repositories/postgresql/QuestionPostgreSQLDataSource.ts, in the database that
-- holds the answers too.
use qa_api.Common.{String, List}
use qa_api.Content.{Question}
use qa_api.Effect.{Action, pure, ◌>>=◌}
use qa_api.Answer.Manager.{QuestionRepository}
use qa_api.Question.Table.{Table}
use qa_api.Question.Source.{QuestionModel, no_change, find_by_id, update_by_id}

abbrev pub as_question : QuestionModel → Question
as_question q = record {
  id = q.id;
  parent = q.parent;
  ancestors = q.ancestors;
  answers = q.answers;
}

module _ {Db : Type 0} (t : Table Db) where
  unfoldable pub find_question : String → Action Db Question
  unfolding find_by_id
  find_question id = do q ← find_by_id t id; pure (as_question q)

  -- `updateById` takes `answers` out of the update and writes no column for it.
  unfoldable pub update_answers : String → List String → Action Db Question
  unfolding update_by_id
  update_answers id answers = do q ← update_by_id t id no_change; pure (as_question q)

  abbrev pub question_repository : QuestionRepository Db
  question_repository = record { find_by_id = find_question; update_answers = update_answers }
