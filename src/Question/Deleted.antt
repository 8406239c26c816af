-- ===== src/Question/Deleted.antt =====
-- What deleteQuestion leaves behind.
use qa_api.Common.{
  String, Bool, true, false, not, ◌≡◌, refl, ◌===◌, ◌+++◌, Option, List, [], ◌∷◌, map, select, any,
  arith, ap, ◌∙◌, Bool-cases, Option-cases, inl, inr,
}
use qa_api.Content.{Answer}
use qa_api.Effect.{ok}
use qa_api.Answer.Manager.{delete}
use qa_api.Question.Table.{QuestionRow, Table, IsTable, has_id}
use qa_api.Question.Source.{
  QuestionModel, entity, to_entity, find_by_id, find_all, find_by_parent, delete_by_id, is_child_of,
}
use qa_api.Question.Manager.{
  AnswerRepository, Services, each, names, detach, forget_in_question, forget_in_answer,
  unlist_and_detach, forget_everywhere, remove, delete_question, delete_thumbnail_if_exists,
  safe_delete_asset, key_of,
}
use qa_api.Question.Loops.{Covered-select}
use qa_api.Question.Writes.{IsAnswers, IsApart, find_by_id-there}
use qa_api.Question.Cleaned.{
  head, answer_head, Known, Known-heads, Known-answer_heads, Known-select, names_in,
  named_by_answer, answers_unlisted, children_detached, questions_forgotten, answers_forgotten,
  still_there, any-head,
}

heads-select :
    (id : String) (rs : List QuestionRow)
    → map head (select (λ r. not (has_id id r)) rs) ≡ select (λ h. not (h.0 === id)) (map head rs)
heads-select id [] = refl
heads-select id (r ∷ rs) = elim (Bool-cases (r.id === id)) [
  | inl same ↦ rw same (heads-select id rs)
  | inr other ↦ rw other (ap (λ hs. head r ∷ hs) (heads-select id rs))
]

answer_heads-select :
    (id : String) (rs : List Answer)
    → map answer_head (select (λ a. not (a.question === id)) rs)
      ≡ select (λ h. not (h.1 === id)) (map answer_head rs)
answer_heads-select id [] = refl
answer_heads-select id (r ∷ rs) = elim (Bool-cases (r.question === id)) [
  | inl same ↦ rw same (answer_heads-select id rs)
  | inr other ↦ rw other (ap (λ hs. answer_head r ∷ hs) (answer_heads-select id rs))
]

any-select {ℓ} :
    {A : Type ℓ} (p q : A → Bool) (xs : List A) → any p xs ≡ false → any p (select q xs) ≡ false
any-select p q [] h = refl
any-select p q (x ∷ xs) h = ground (arith, any-select p q xs)

module _ {Db Doc : Type 0} (t : Table Db) (repo : AnswerRepository Db) (services : Services Db Doc)
    (rows : Db → List QuestionRow) (answers : Db → List Answer) (table : IsTable t rows answers)
    (is_answers : IsAnswers repo rows answers) (apart : IsApart services rows answers) where
  abbrev pub all_of : Db → List QuestionModel
  all_of db = map (entity t db) (rows db)

  Known-entities :
      (db : Db) (hs : List (String × Option String)) (rs : List QuestionRow)
      → Known (λ r. r.id) hs rs
      → Known (λ q. q.id) hs (map (entity t db) rs)
  unfolding to_entity
  Known-entities db hs [] k = refl
  Known-entities db hs (r ∷ rs) k = ground (arith, Known-entities db hs rs)

  known : (db : Db) → Known (λ q. q.id) (map head (rows db)) (all_of db)
  known db = Known-entities db (map head (rows db)) (rows db) (Known-heads (rows db))

  ids-select :
      (id : String) (db : Db) (rs : List QuestionRow)
      → map (λ q. q.id) (select (λ q. names id q.ancestors) (map (entity t db) rs))
        ≡ map (λ r. r.id) (select (names_in id) rs)
  unfolding to_entity
  ids-select id db [] = refl
  ids-select id db (r ∷ rs) = elim (Bool-cases (names id r.ancestors)) [
    | inl bad ↦ rw bad (ap (λ xs. r.id ∷ xs) (ids-select id db rs))
    | inr good ↦ rw good (ids-select id db rs)
  ]

  pub find_all-run : (db : Db) → find_all t db ≡ (ok (all_of db), db)
  unfolding find_all to_entity
  find_all-run db = ap (λ rs. (ok (map (entity t db) rs), db)) (table.listed db)

  find_by_parent-run :
      (id : String) (db : Db)
      → find_by_parent t id db ≡ (ok (select (is_child_of t id) (all_of db)), db)
  unfolding find_by_parent find_all to_entity
  find_by_parent-run id db =
      ap (λ rs. (ok (select (is_child_of t id) (map (entity t db) rs)), db)) (table.listed db)

  pub thumbnail_deleted :
      (q : QuestionModel) (db : Db)
      → (db' : Db) × (delete_thumbnail_if_exists t repo services q db ≡ (ok tt, db'))
        × (rows db' ≡ rows db)
        × (answers db' ≡ answers db)
  unfolding delete_thumbnail_if_exists safe_delete_asset
  thumbnail_deleted q db = elim (Option-cases (key_of t repo services q.thumbnail)) [
    | inl absent ↦ (db, ground arith, refl, refl)
    | inr (key, here) ↦
        let kept = apart.asset_deleted key q.user q.id db in
        ((services.delete_asset key q.user q.id db).1, ground arith, kept.0, kept.1)
  ]

  unlist_and_detach-run :
      (id : String) (its : List Answer) (children : List QuestionModel) (db db1 db2 : Db)
      → repo.find_by_question id db ≡ (ok its, db)
      → each (λ (a : Answer). services.sync_answer (delete a.id)) its db ≡ (ok tt, db1)
      → find_by_parent t id db1 ≡ (ok children, db1)
      → each (detach t repo services id) children db1 ≡ (ok tt, db2)
      → unlist_and_detach t repo services id db ≡ (ok tt, db2)
  unfolding unlist_and_detach
  unlist_and_detach-run id its children db db1 db2 read first read2 second = ground arith

  forget_everywhere-run :
      (id : String) (found : List QuestionModel) (of_all : List Answer) (db db1 db2 : Db)
      → find_all t db ≡ (ok found, db)
      → repo.find_all db ≡ (ok of_all, db)
      → each (forget_in_question t repo services id) (select (λ q. names id q.ancestors) found) db
        ≡ (ok tt, db1)
      → each (forget_in_answer t repo services id) (select (λ a. names id a.ancestors) of_all) db1
        ≡ (ok tt, db2)
      → forget_everywhere t repo services id db ≡ (ok tt, db2)
  unfolding forget_everywhere
  forget_everywhere-run id found of_all db db1 db2 read read2 first second = ground arith

  remove-run :
      (id : String) (q deleted : QuestionModel) (db db1 db2 db3 db4 db5 db6 : Db)
      → delete_by_id t id db ≡ (ok deleted, db1)
      → delete_thumbnail_if_exists t repo services deleted db1 ≡ (ok tt, db2)
      → services.forget_key "questions:all" db2 ≡ (ok tt, db3)
      → services.forget_key ("question:" +++ id) db3 ≡ (ok tt, db4)
      → services.forget_key ("questions:user:" +++ q.user) db4 ≡ (ok tt, db5)
      → services.sync_question (delete id) db5 ≡ (ok tt, db6)
      → remove t repo services id q db ≡ (ok deleted, db6)
  unfolding remove
  remove-run id q deleted db db1 db2 db3 db4 db5 db6 gone file key key2 key3 synced = ground arith

  delete_question-run :
      (id : String) (q deleted : QuestionModel) (db db1 db2 db3 : Db)
      → find_by_id t id db ≡ (ok q, db)
      → unlist_and_detach t repo services id db ≡ (ok tt, db1)
      → forget_everywhere t repo services id db1 ≡ (ok tt, db2)
      → remove t repo services id q db2 ≡ (ok deleted, db3)
      → delete_question t repo services id db ≡ (ok deleted, db3)
  unfolding delete_question
  delete_question-run id q deleted db db1 db2 db3 read first second third = ground arith

  delete_by_id-run :
      (id : String) (r : QuestionRow) (db db' : Db)
      → find_by_id t id db ≡ (ok (entity t db r), db)
      → t.delete_row id db ≡ (ok tt, db')
      → delete_by_id t id db ≡ (ok (entity t db r), db')
  unfolding delete_by_id
  delete_by_id-run id r db db' h l = ground arith

  references_forgotten :
      (id : String) (db : Db)
      → (db1 db2 : Db) × (unlist_and_detach t repo services id db ≡ (ok tt, db1))
        × (forget_everywhere t repo services id db1 ≡ (ok tt, db2))
        × (map head (rows db2) ≡ map head (rows db))
        × (map answer_head (answers db2) ≡ map answer_head (answers db))
        × (any (names_in id) (rows db2) ≡ false)
        × (any (named_by_answer id) (answers db2) ≡ false)
  references_forgotten id db =
      let its : List Answer = select (λ a. a.question === id) (answers db) in
      let (db1, e3, rows1, answers1) =
        answers_unlisted t repo services rows answers table is_answers apart its db in
      let (db2, e5, heads2, answers2) =
        children_detached t repo services rows answers table is_answers apart id
          (select (is_child_of t id) (all_of db1)) db1
          (Known-select (λ q. q.id) (map head (rows db1)) (is_child_of t id) (all_of db1)
            (known db1)) in
      let (db3, e8, heads3, answers3, clean3) =
        questions_forgotten t repo services rows answers table is_answers apart id
          (select (λ q. names id q.ancestors) (all_of db2)) db2
          (Known-select (λ q. q.id) (map head (rows db2)) (λ q. names id q.ancestors) (all_of db2)
            (known db2))
          (rw (ids-select id db2 (rows db2))
            (Covered-select (names_in id) (λ x. x.id) (rows db2))) in
      let bad : List Answer = select (λ a. names id a.ancestors) (answers db2) in
      let (db4, e9, rows4, heads4, clean4) =
        answers_forgotten t repo services rows answers table is_answers apart id bad db3
          (rw answers3 (
            Known-select (λ a. a.id) (map answer_head (answers db2)) (named_by_answer id)
              (answers db2) (Known-answer_heads (answers db2))))
          (rw answers3 (Covered-select (named_by_answer id) (λ a. a.id) (answers db2))) in
      let heads : map head (rows db4) ≡ map head (rows db) =
        ap (map head) rows4 ∙ heads3 ∙ heads2 ∙ ap (map head) rows1 in
      (
        db2,
        db4,
        unlist_and_detach-run id its (select (is_child_of t id) (all_of db1)) db db1 db2
            (is_answers.of_question id db) e3 (find_by_parent-run id db1) e5,
        forget_everywhere-run id (all_of db2) (answers db2) db2 db3 db4 (find_all-run db2)
            (is_answers.listed db2) e8 e9,
        heads,
        heads4 ∙ ap (map answer_head) (answers3 ∙ answers2 ∙ answers1),
        ap (any (names_in id)) rows4 ∙ clean3,
        clean4,
      )

  removed :
      (id : String) (q : QuestionModel) (db : Db)
      → any (has_id id) (rows db) ≡ true
      → (deleted : QuestionModel) × (db' : Db) × (remove t repo services id q db
          ≡ (ok deleted, db'))
        × (rows db' ≡ select (λ r. not (has_id id r)) (rows db))
        × (answers db' ≡ select (λ a. not (a.question === id)) (answers db))
  removed id q db there =
      let (r, read) =
        find_by_id-there t repo services rows answers table is_answers apart id db there in
      let (db1, gone, rows1, answers1) = table.deleted id db there in
      let (db2, file, rows2, answers2) = thumbnail_deleted (entity t db r) db1 in
      let (db3, key, rows3, answers3) = apart.forgotten "questions:all" db2 in
      let (db4, key2, rows4, answers4) = apart.forgotten ("question:" +++ id) db3 in
      let (db5, key3, rows5, answers5) = apart.forgotten ("questions:user:" +++ q.user) db4 in
      let (db6, synced, rows6, answers6) = apart.question_synced (delete id) db5 in
      (
        entity t db r,
        db6,
        remove-run id q (entity t db r) db db1 db2 db3 db4 db5 db6
            (delete_by_id-run id r db db1 read gone) file key key2 key3 synced,
        rows6 ∙ rows5 ∙ rows4 ∙ rows3 ∙ rows2 ∙ rows1,
        answers6 ∙ answers5 ∙ answers4 ∙ answers3 ∙ answers2 ∙ answers1,
      )

  -- A question that exists is deleted, and nothing names it any more among its ancestors: the
  -- deletion succeeds; no question and no answer that stays has it in its chain; the other questions
  -- and the answers to them stay, and the answers to it are gone. But every question keeps its
  -- parent: also a child of the deleted question, whose parent is then missing.
  pub delete_question-forgets :
      (id : String) (db : Db)
      → any (has_id id) (rows db) ≡ true
      → (q : QuestionModel) × (db' : Db) × (delete_question t repo services id db ≡ (ok q, db'))
        × (any (names_in id) (rows db') ≡ false)
        × (any (named_by_answer id) (answers db') ≡ false)
        × (map head (rows db') ≡ select (λ h. not (h.0 === id)) (map head (rows db)))
        × (map answer_head (answers db')
            ≡ select (λ h. not (h.1 === id)) (map answer_head (answers db)))
  delete_question-forgets id db there =
      let (r, read) =
        find_by_id-there t repo services rows answers table is_answers apart id db there in
      let (db1, db2, first, second, heads, answer_heads, clean, clean_answers) =
        references_forgotten id db in
      let there2 =
        still_there t repo services rows answers table is_answers apart id db2 (map head (rows db))
          heads (any-head id (rows db) ∙ there) in
      let (deleted, db3, third, its_rows, its_answers) = removed id (entity t db r) db2 there2 in
      (
        deleted,
        db3,
        delete_question-run id (entity t db r) deleted db db1 db2 db3 read first second third,
        ap (any (names_in id)) its_rows
            ∙ any-select (names_in id) (λ x. not (has_id id x)) (rows db2) clean,
        ap (any (named_by_answer id)) its_answers
            ∙ any-select (named_by_answer id) (λ a. not (a.question === id)) (answers db2)
                clean_answers,
        ap (map head) its_rows
            ∙ heads-select id (rows db2)
            ∙ ap (select (λ h. not (h.0 === id))) heads,
        ap (map answer_head) its_answers
            ∙ answer_heads-select id (answers db2)
            ∙ ap (select (λ h. not (h.1 === id))) answer_heads,
      )
