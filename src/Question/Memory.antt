-- ===== src/Question/Memory.antt =====
-- Tables of questions and answers in memory, and services that do nothing but delete files, which meet the laws: the
-- parameters of the witnesses, not a model of any code.
use qa_api.Common.{
  without, String, true, not, ◌≡◌, refl, ◌===◌, Option, none, some, List, [], ◌∷◌, map, select,
  find, any, arith, Bool-cases, inl, inr, ap,
}
use qa_api.Content.{Answer}
use qa_api.Effect.{Outcome, ok, err}
use qa_api.Error.Handler.{application}
use qa_api.Error.Application.{not_found_error}
use qa_api.Question.Table.{QuestionRow, Table, IsTable, has_id, changed}
use qa_api.Question.Manager.{AnswerRepository, Services}
use qa_api.Question.Pictures.{KeepsFiles}
use qa_api.Question.Writes.{IsAnswers, IsApart, answer_has_id, with_ancestors}

pub record Db : Type 0 where
  pub rows : List QuestionRow
  pub answers : List Answer
  pub files : List String

abbrev pub table : Table Db
table = record {
  find_unique = λ db id. find (has_id id) db.rows;
  find_many = λ db. db.rows;
  update_row = λ id c db. (ok tt, record db { rows = map (changed id c) db.rows });
  delete_row = λ id db. (
    ok tt,
    record db {
      rows = select (λ r. not (has_id id r)) db.rows;
      answers = select (λ a. not (a.question === id)) db.answers;
    },
  );
  find_reactions = λ db id. [];
  delete_reactions = λ id db. db;
  create_reactions = λ rs db. db;
  find_tags = λ db id. [];
  delete_tags = λ id db. db;
  create_tags = λ id tags db. db;
  find_answer_ids = λ db id. map (λ a. a.id) (select (λ a. a.question === id) db.answers);
}

pub table-IsTable : IsTable table (λ db. db.rows) (λ db. db.answers)
table-IsTable = record {
  found = λ db id. refl;
  listed = λ db. refl;
  updated = λ id c db h. (_, refl, refl, refl);
  deleted = λ id db h. (_, refl, refl, refl);
}

abbrev as_outcome : Option Answer → Outcome Answer
as_outcome none = err (application (not_found_error "Answer not found"))
as_outcome (some a) = ok a

abbrev pub repo : AnswerRepository Db
repo = record {
  find_by_question = λ id db. (ok (select (λ a. a.question === id) db.answers), db);
  find_all = λ db. (ok db.answers, db);
  find_by_id = λ id db. (as_outcome (find (answer_has_id id) db.answers), db);
  update_ancestors = λ id xs db.
      let changed_answers = map (with_ancestors id xs) db.answers in
      (as_outcome (find (answer_has_id id) db.answers), record db { answers = changed_answers });
}

find_answer :
    (id : String) (rs : List Answer)
    → any (answer_has_id id) rs ≡ true
    → (a : Answer) × (as_outcome (find (answer_has_id id) rs) ≡ ok a)
find_answer id [] h = absurd (ground arith)
find_answer id (r ∷ rs) h = elim (Bool-cases (r.id === id)) [
  | inl same ↦ (r, rw same refl)
  | inr other ↦ let (x, found) = find_answer id rs (ground arith) in (x, rw other found)
]

pub repo-IsAnswers : IsAnswers repo (λ db. db.rows) (λ db. db.answers)
repo-IsAnswers = record {
  of_question = λ id db. refl;
  listed = λ db. refl;
  found = λ id db h. let (a, e) = find_answer id db.answers h in (a, ap (λ o. (o, db)) e);
  updated = λ id xs db h.
      let (a, e) = find_answer id db.answers h in
      let db' : Db = record db { answers = map (with_ancestors id xs) db.answers } in
      (a, db', ap (λ o. (o, db')) e, refl, refl);
}

-- The documents are the ids.
abbrev pub services : Services Db String
services = record {
  sync_question = λ s db. (ok tt, db);
  sync_answer = λ s db. (ok tt, db);
  project_question = λ q. q.id;
  project_answer = λ a. a.id;
  forget_key = λ key db. (ok tt, db);
  delete_asset = λ key owner id db. (ok tt, record db { files = without key db.files });
  get_asset_url = λ key owner id db. (ok key, db);
}

pub services-IsApart : IsApart services (λ db. db.rows) (λ db. db.answers)
services-IsApart = record {
  question_synced = λ s db. (db, refl, refl, refl);
  answer_synced = λ s db. (db, refl, refl, refl);
  forgotten = λ key db. (db, refl, refl, refl);
  asset_deleted = λ key owner id db. (refl, refl);
}

pub services-KeepsFiles : KeepsFiles services (λ db. db.files)
services-KeepsFiles = record { forgotten = λ key db. refl; synced = λ s db. refl }
