-- ===== src/Question/Pictures.antt =====
-- What updateQuestion does about a thumbnail that is to be removed.
use qa_api.Common.{
  String, true, ◌≡◌, refl, none, some, List, find, arith, ap, sym, ◌===◌, false, ◌∙◌,
}
use qa_api.Content.{Answer}
use qa_api.Effect.{ok}
use qa_api.Account.Source.{null}
use qa_api.Answer.Manager.{Sync, update}
use qa_api.Question.Table.{QuestionRow, Table, IsTable, has_id}
use qa_api.Question.Source.{
  QuestionModel, entity, to_entity, no_change, find_by_id, update_by_id, write_reactions,
  write_tags,
}
use qa_api.Question.Manager.{
  AnswerRepository, Services, UpdateQuestion, update_question, delete_thumbnail_if_exists,
  safe_delete_asset,
}
use qa_api.Question.Writes.{IsAnswers, IsApart}

-- A request that removes the thumbnail and changes nothing else.
abbrev pub removal : UpdateQuestion
removal = record { title = none; content = none; thumbnail_key = none; remove_thumbnail = true }

-- Cache and index leave the files alone.
pub record KeepsFiles {Db Doc : Type 0} (services : Services Db Doc) {Files : Type 0}
    (files : Db → Files) : Type 0 where
  pub forgotten : (key : String) (db : Db) → files (services.forget_key key db).1 ≡ files db
  pub synced : (s : Sync Doc) (db : Db) → files (services.sync_question s db).1 ≡ files db

module _ {Db Doc : Type 0} (t : Table Db) (repo : AnswerRepository Db) (services : Services Db Doc)
    (rows : Db → List QuestionRow) (answers : Db → List Answer) (table : IsTable t rows answers)
    (is_answers : IsAnswers repo rows answers) (apart : IsApart services rows answers) where
  found_by_id :
      (id : String) (r : QuestionRow) (db : Db)
      → find (has_id id) (rows db) ≡ some r
      → find_by_id t id db ≡ (ok (entity t db r), db)
  unfolding find_by_id to_entity
  found_by_id id r db h =
      let there : t.find_unique db id ≡ some r = table.found db id ∙ h in ground arith

  null_update :
      (id : String) (q : QuestionModel) (db : Db)
      → find_by_id t id db ≡ (ok q, db)
      → update_by_id t id (record no_change { thumbnail = null }) db ≡ (ok q, db)
  unfolding update_by_id write_reactions write_tags
  null_update id q db h = ground arith

  removal-run :
      (id : String) (old q : QuestionModel) (db db1 db2 db3 : Db)
      → find_by_id t id db ≡ (ok old, db)
      → delete_thumbnail_if_exists t repo services old db ≡ (ok tt, db1)
      → update_by_id t id (record no_change { thumbnail = null }) db1 ≡ (ok q, db1)
      → services.forget_key "questions:all" db1 ≡ (ok tt, db2)
      → services.sync_question (update (services.project_question q)) db2 ≡ (ok tt, db3)
      → update_question t repo services id removal db ≡ (ok q, db3)
  unfolding update_question
  removal-run id old q db db1 db2 db3 read file same key synced = ground arith

  file_deleted :
      (r : QuestionRow) (key : String) (db : Db)
      → r.thumbnail_key ≡ some key
      → (key === "") ≡ false
      → delete_thumbnail_if_exists t repo services (entity t db r) db
        ≡ (ok tt, (services.delete_asset key r.user_id r.id db).1)
  unfolding delete_thumbnail_if_exists safe_delete_asset to_entity
  file_deleted r key db has is_text = ground arith

  -- A request to remove the thumbnail of a question that has one, with a key: the file under that
  -- key is to be deleted (the files end as that call leaves them), and yet the call succeeds
  -- without a change of any row, and the question that is answered and stored has the thumbnail as
  -- before.
  pub removed_thumbnail_stays :
      {Files : Type 0} (files : Db → Files)
      → KeepsFiles services files
      → (id key : String) (r : QuestionRow) (db : Db) → find (has_id id) (rows db) ≡ some r
      → r.thumbnail_key ≡ some key
      → (key === "") ≡ false
      → (q : QuestionModel) × (db' : Db) × (update_question t repo services id removal db
          ≡ (ok q, db'))
        × (files db' ≡ files (services.delete_asset key r.user_id r.id db).1)
        × (rows db' ≡ rows db)
        × (q.thumbnail ≡ (entity t db r).thumbnail)
  unfolding to_entity
  removed_thumbnail_stays files kept id key r db h has is_text =
      let old = found_by_id id r db h in
      let file = file_deleted r key db has is_text in
      let db1 : Db = (services.delete_asset key r.user_id r.id db).1 in
      let rows1 : rows db1 ≡ rows db = (apart.asset_deleted key r.user_id r.id db).0 in
      let again = found_by_id id r db1 (ap (find (has_id id)) rows1 ∙ h) in
      let (db2, forgot, rows2, _) = apart.forgotten "questions:all" db1 in
      let (db3, synced, rows3, _) =
        apart.question_synced (update (services.project_question (entity t db1 r))) db2 in
      let files2 : files db2 ≡ files db1 =
        ap (λ o. files o.1) (sym forgot) ∙ kept.forgotten "questions:all" db1 in
      let files3 : files db3 ≡ files db2 =
        ap (λ o. files o.1) (sym synced)
        ∙ kept.synced (update (services.project_question (entity t db1 r))) db2 in
      (
        entity t db1 r,
        db3,
        removal-run id (entity t db r) (entity t db1 r) db db1 db2 db3 old file
            (null_update id (entity t db1 r) db1 again) forgot synced,
        files3 ∙ files2,
        rows3 ∙ rows2 ∙ rows1,
        refl,
      )
