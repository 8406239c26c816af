-- ===== src/Question/Writes.antt =====
-- The services around questions as parameters with laws, and what one update of the ancestors of a
-- question or an answer does.
use qa_api.Common.{
  String, Bool, true, ◌≡◌, refl, ◌===◌, if◌then◌else◌, some, List, [], ◌∷◌, map, select, find, any,
  arith, ap, ◌∙◌, Bool-cases, inl, inr,
}
use qa_api.Content.{AncestorReference, Answer}
use qa_api.Effect.{ok}
use qa_api.Answer.Manager.{Sync, update}
use qa_api.Question.Table.{QuestionRow, Columns, Table, IsTable, has_id, changed}
use qa_api.Question.Source.{
  QuestionModel, no_change, columns_of, entity, to_entity, find_by_id, update_by_id,
  write_reactions, write_tags,
}
use qa_api.Question.Manager.{
  AnswerRepository, Services, stripped, reindexed, detach, forget_in_question, forget_in_answer,
}

abbrev pub answer_has_id : String → Answer → Bool
answer_has_id id a = a.id === id

abbrev pub with_ancestors : String → List AncestorReference → Answer → Answer
with_ancestors id xs a = if a.id === id then record a { ancestors = some xs } else a

-- The repository of answers reads and writes the answers; its calls on answers that are there
-- succeed.
pub record IsAnswers {Db : Type 0} (repo : AnswerRepository Db) (rows : Db → List QuestionRow)
    (answers : Db → List Answer) : Type 0 where
  pub of_question :
      (id : String) (db : Db)
      → repo.find_by_question id db ≡ (ok (select (λ a. a.question === id) (answers db)), db)
  pub listed : (db : Db) → repo.find_all db ≡ (ok (answers db), db)
  pub found :
      (id : String) (db : Db)
      → any (answer_has_id id) (answers db) ≡ true
      → (a : Answer) × (repo.find_by_id id db ≡ (ok a, db))
  pub updated :
      (id : String) (xs : List AncestorReference) (db : Db)
      → any (answer_has_id id) (answers db) ≡ true
      → (a : Answer) × (db' : Db) × (repo.update_ancestors id xs db ≡ (ok a, db'))
        × (rows db' ≡ rows db)
        × (answers db' ≡ map (with_ancestors id xs) (answers db))

-- Index and cache succeed; they and the store of files, which may fail, leave the database alone.
pub record IsApart {Db Doc : Type 0} (services : Services Db Doc) (rows : Db → List QuestionRow)
    (answers : Db → List Answer) : Type 0 where
  pub question_synced :
      (s : Sync Doc) (db : Db)
      → (db' : Db) × (services.sync_question s db ≡ (ok tt, db'))
        × (rows db' ≡ rows db)
        × (answers db' ≡ answers db)
  pub answer_synced :
      (s : Sync Doc) (db : Db)
      → (db' : Db) × (services.sync_answer s db ≡ (ok tt, db'))
        × (rows db' ≡ rows db)
        × (answers db' ≡ answers db)
  pub forgotten :
      (key : String) (db : Db)
      → (db' : Db) × (services.forget_key key db ≡ (ok tt, db'))
        × (rows db' ≡ rows db)
        × (answers db' ≡ answers db)
  pub asset_deleted :
      (key owner id : String) (db : Db)
      → (rows (services.delete_asset key owner id db).1 ≡ rows db)
        × (answers (services.delete_asset key owner id db).1 ≡ answers db)

pub find-there :
    (id : String) (rs : List QuestionRow)
    → any (has_id id) rs ≡ true
    → (r : QuestionRow) × (find (has_id id) rs ≡ some r)
find-there id [] h = absurd (ground arith)
find-there id (r ∷ rs) h = elim (Bool-cases (r.id === id)) [
  | inl same ↦ (r, rw same refl)
  | inr other ↦ let (x, found) = find-there id rs (ground arith) in (x, rw other found)
]

pub any-changed :
    (x id : String) (c : Columns) (rs : List QuestionRow)
    → any (has_id x) (map (changed id c) rs) ≡ any (has_id x) rs
any-changed x id c [] = refl
any-changed x id c (r ∷ rs) = elim (Bool-cases (r.id === id)) [
  | inl same ↦ rw (same, any-changed x id c rs) refl
  | inr other ↦ rw (other, any-changed x id c rs) refl
]

abbrev pub ancestors_to : List AncestorReference → Columns
unfolding columns_of
ancestors_to xs = columns_of (record no_change { ancestors = some xs })

any-answer :
    (x id : String) (xs : List AncestorReference) (rs : List Answer)
    → any (answer_has_id x) (map (with_ancestors id xs) rs) ≡ any (answer_has_id x) rs
any-answer x id xs [] = refl
any-answer x id xs (r ∷ rs) = elim (Bool-cases (r.id === id)) [
  | inl same ↦ rw (same, any-answer x id xs rs) refl
  | inr other ↦ rw (other, any-answer x id xs rs) refl
]

module _ {Db Doc : Type 0} (t : Table Db) (repo : AnswerRepository Db) (services : Services Db Doc)
    (rows : Db → List QuestionRow) (answers : Db → List Answer) (table : IsTable t rows answers)
    (is_answers : IsAnswers repo rows answers) (apart : IsApart services rows answers) where
  pub find_by_id-there :
      (id : String) (db : Db)
      → any (has_id id) (rows db) ≡ true
      → (r : QuestionRow) × (find_by_id t id db ≡ (ok (entity t db r), db))
  unfolding find_by_id to_entity
  find_by_id-there id db h =
      let (r, found) = find-there id (rows db) h in
      let there : t.find_unique db id ≡ some r = table.found db id ∙ found in (r, ground arith)

  ancestors-run :
      (id : String) (xs : List AncestorReference) (q : QuestionModel) (db db1 : Db)
      → t.update_row id (ancestors_to xs) db ≡ (ok tt, db1)
      → find_by_id t id db1 ≡ (ok q, db1)
      → update_by_id t id (record no_change { ancestors = some xs }) db ≡ (ok q, db1)
  unfolding update_by_id write_reactions write_tags columns_of
  ancestors-run id xs q db db1 h l = ground arith

  write_ancestors :
      (id : String) (xs : List AncestorReference) (db : Db)
      → any (has_id id) (rows db) ≡ true
      → (q : QuestionModel) × (db' : Db) × (update_by_id t id
            (record no_change { ancestors = some xs })
            db
          ≡ (ok q, db'))
        × (find_by_id t id db' ≡ (ok q, db'))
        × (rows db' ≡ map (changed id (ancestors_to xs)) (rows db))
        × (answers db' ≡ answers db)
  unfolding columns_of
  write_ancestors id xs db h =
      let (db1, done, after, same) = table.updated id (ancestors_to xs) db h in
      let (r, found) =
        find_by_id-there id db1
          (ap (any (has_id id)) after ∙ any-changed id id (ancestors_to xs) (rows db) ∙ h) in
      (
        entity t db1 r,
        db1,
        ancestors-run id xs (entity t db1 r) db db1 done found,
        found,
        after,
        same,
      )

  pub detach-done :
      (id : String) (q : QuestionModel) (db : Db)
      → any (has_id q.id) (rows db) ≡ true
      → (db' : Db) × (detach t repo services id q db ≡ (ok tt, db'))
        × (rows db' ≡ map (changed q.id (ancestors_to (stripped id q.ancestors))) (rows db))
        × (answers db' ≡ answers db)
  unfolding detach
  detach-done id q db h =
      let (x, db1, done, found, after, same) =
        write_ancestors q.id (stripped id q.ancestors) db h in
      let (db2, synced, after2, same2) =
        apart.question_synced (update (services.project_question x)) db1 in
      (db2, ground arith, after2 ∙ after, same2 ∙ same)

  pub forget_in_question-done :
      (id : String) (q : QuestionModel) (db : Db)
      → any (has_id q.id) (rows db) ≡ true
      → (db' : Db) × (forget_in_question t repo services id q db ≡ (ok tt, db'))
        × (rows db'
            ≡ map (changed q.id (ancestors_to (reindexed 0 (stripped id q.ancestors)))) (rows db))
        × (answers db' ≡ answers db)
  unfolding forget_in_question
  forget_in_question-done id q db h =
      let (x, db1, done, found, after, same) =
        write_ancestors q.id (reindexed 0 (stripped id q.ancestors)) db h in
      let (db2, synced, after2, same2) =
        apart.question_synced (update (services.project_question x)) db1 in
      (db2, ground arith, after2 ∙ after, same2 ∙ same)

  pub forget_in_answer-done :
      (id : String) (a : Answer) (db : Db)
      → any (answer_has_id a.id) (answers db) ≡ true
      → (db' : Db) × (forget_in_answer t repo services id a db ≡ (ok tt, db'))
        × (rows db' ≡ rows db)
        × (answers db'
            ≡ map (with_ancestors a.id (reindexed 0 (stripped id a.ancestors))) (answers db))
  unfolding forget_in_answer
  forget_in_answer-done id a db h =
      let xs : List AncestorReference = reindexed 0 (stripped id a.ancestors) in
      let (y, db1, done, same, after) = is_answers.updated a.id xs db h in
      let (x, found) =
        is_answers.found a.id db1
          (ap (any (answer_has_id a.id)) after ∙ any-answer a.id a.id xs (answers db) ∙ h) in
      let (db2, synced, same2, after2) =
        apart.answer_synced (update (services.project_answer x)) db1 in
      (db2, ground arith, same2 ∙ same, after2 ∙ after)
