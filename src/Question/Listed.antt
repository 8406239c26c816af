-- ===== src/Question/Listed.antt =====
-- Which answers a question lists after AnswerManager.deleteAnswer.
use qa_api.Common.{
  String, false, not, ◌≡◌, ap, sym, ◌∙◌, ◌===◌, if◌then◌else◌, some, List, [], ◌∷◌, map, select,
  includes, without, arith, eq_iff,
}
use qa_api.Content.{Answer, Question, answer}
use qa_api.Effect.{ok}
use qa_api.Answer.Prisma.{AnswerRow, Prisma}
use qa_api.Answer.Source
use qa_api.Answer.Source.{postgres}
use qa_api.Answer.Repository
use qa_api.Answer.Manager.{Sync, update, delete, IndexClient, delete_answer}
use qa_api.Question.Table.{QuestionRow, Table}
use qa_api.Question.Source.{
  entity, to_entity, find_by_id, update_by_id, write_reactions, write_tags,
}
use qa_api.Question.Store.{as_question, find_question, update_answers, question_repository}

-- One database with both tables: deleting an answer that is there takes its row away and leaves the
-- questions; a question is found by its id; the answers to a question are read off their rows.
pub record AreShared (p : Prisma) (t : Table p.Db) : Type 0 where
  pub deleted :
      (id : String) (row : AnswerRow) (db : p.Db)
      → p.find_unique db id ≡ some row
      → (db' : p.Db) × (p.delete_row id db ≡ (ok tt, db'))
        × (p.find_many db' ≡ select (λ r. not (r.id === id)) (p.find_many db))
        × ((q : String) → t.find_unique db' q ≡ t.find_unique db q)
  pub keyed :
      (id : String) (row : QuestionRow) (db : p.Db) → t.find_unique db id ≡ some row → row.id ≡ id
  pub listed :
      (id : String) (db : p.Db)
      → t.find_answer_ids db id
        ≡ map (λ r. r.id) (select (λ r. r.question_id === id) (p.find_many db))

includes-left :
    (id q j : String) (rows : List AnswerRow)
    → includes
        (map (λ r. r.id) (select (λ r. r.question_id === q) (select (λ r. not (r.id === id)) rows)))
        j
      ≡ (if id === j
          then false
          else includes (map (λ r. r.id) (select (λ r. r.question_id === q) rows)) j)
includes-left id q j [] = ground arith
includes-left id q j (r ∷ rows) =
    ground (arith, includes-left id q j rows, eq_iff r.id id, eq_iff r.id j, eq_iff id j)

module _ {Index Doc : Type 0} (p : Prisma) (t : Table p.Db) (shared : AreShared p t)
    (client : IndexClient Index Doc) where
  found_question :
      (id : String) (row : QuestionRow) (db : p.Db)
      → t.find_unique db id ≡ some row
      → find_question t id db ≡ (ok (as_question (entity t db row)), db)
  unfolding find_question find_by_id to_entity
  found_question id row db h = ground arith

  written_question :
      (id : String) (answers : List String) (row : QuestionRow) (db : p.Db)
      → t.find_unique db id ≡ some row
      → update_answers t id answers db ≡ (ok (as_question (entity t db row)), db)
  unfolding update_answers update_by_id find_by_id write_reactions write_tags to_entity
  written_question id answers row db h = ground arith

  deleted_answer :
      (id : String) (row : AnswerRow) (db db' : p.Db)
      → p.find_unique db id ≡ some row
      → p.delete_row id db ≡ (ok tt, db')
      → Repository.delete_by_id (postgres p) id db
        ≡ (ok (Source.to_entity row (p.find_reactions db answer id)), db')
  unfolding Repository.delete_by_id Source.delete_by_id Source.find_by_id
  deleted_answer id row db db' h l = ground arith

  delete_answer-run :
      (id question_id : String) (a : Answer) (q q' : Question) (db db' : p.Db) (i : Index)
      → Repository.delete_by_id (postgres p) id db ≡ (ok a, db')
      → find_question t question_id db' ≡ (ok q, db')
      → update_answers t question_id (without id q.answers) db' ≡ (ok q', db')
      → ((name : String) (call : Sync Doc) (j : Index) → (client.sync name call j).0 ≡ ok tt)
      → let (r, s) =
          delete_answer (postgres p) (question_repository t) client id question_id (db, i) in
        (r ≡ ok tt) × (s.0 ≡ db')
  unfolding delete_answer
  delete_answer-run id question_id a q q' db db' i gone read written works =
      let i' : Index = (client.sync client.answer_index (delete id) i).1 in
      let first = works client.answer_index (delete id) i in
      let last = works client.question_index (update (client.project_question q)) i' in
      (ground arith, ground arith)

  -- Deleting an answer that is stored, of a question that is stored, with an index that does not
  -- fail, as the program's does not: the call ends well, and the question, read again, lists the
  -- answers that it listed before, without the one that was deleted.
  pub deleted_answer_is_unlisted :
      (id question_id : String) (row : AnswerRow) (question_row : QuestionRow) (db : p.Db)
      (i : Index)
      → p.find_unique db id ≡ some row
      → t.find_unique db question_id ≡ some question_row
      → ((name : String) (call : Sync Doc) (j : Index) → (client.sync name call j).0 ≡ ok tt)
      → let (r, s) =
          delete_answer (postgres p) (question_repository t) client id question_id (db, i) in
        (r ≡ ok tt)
        × (q : Question) × (find_question t question_id s.0 ≡ (ok q, s.0))
        × ((j : String)
            → includes q.answers j
              ≡ (if id === j then false else includes (t.find_answer_ids db question_id) j))
  unfolding to_entity
  deleted_answer_is_unlisted id question_id row question_row db i stored asked works =
      let (db', gone, rows, questions) = shared.deleted id row db stored in
      let still : t.find_unique db' question_id ≡ some question_row =
        questions question_id ∙ asked in
      let q : Question = as_question (entity t db' question_row) in
      let read = found_question question_id question_row db' still in
      let (done, after) =
        delete_answer-run id question_id (Source.to_entity row (p.find_reactions db answer id)) q q
          db db' i (deleted_answer id row db db' stored gone) read
          (written_question question_id (without id q.answers) question_row db' still) works in
      let its_id : question_row.id ≡ question_id = shared.keyed question_id question_row db asked in
      (
        done,
        q,
        rw after read,
        λ j.
            ap (λ x. includes (t.find_answer_ids db' x) j) its_id
            ∙ ap (λ xs. includes xs j) (shared.listed question_id db')
            ∙ ap
                (λ rs.
                  includes (map (λ r. r.id) (select (λ r. r.question_id === question_id) rs)) j)
                rows
            ∙ includes-left id question_id j (p.find_many db)
            ∙ ap (λ xs. if id === j then false else includes xs j)
                (sym (shared.listed question_id db)),
      )
