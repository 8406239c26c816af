-- ===== src/Question/Tests.antt =====
-- The theorems on questions at concrete inputs: q2 is a child of q1, and a1 answers q2.
use qa_api.Common.{
  Option, ◌===◌, eq_iff, includes, if◌then◌else◌, String, select, arith, List, false, ◌≡◌, refl,
  none, some, [], ◌∷◌, map, any,
}
use qa_api.Content.{Question, question, AncestorReference, Answer}
use qa_api.Effect.{ok}
use qa_api.Answer.Prisma.{AnswerRow}
use qa_api.Answer.Source.{postgres}
use qa_api.Answer.Memory.{Tables, memory}
use qa_api.Answer.Manager.{Sync, IndexClient, delete_answer}
use qa_api.Question.Store.{find_question, question_repository}
use qa_api.Question.Listed.{AreShared, deleted_answer_is_unlisted}
use qa_api.Question.Table.{Table, QuestionRow}
use qa_api.Question.Source.{QuestionModel, to_entity}
use qa_api.Question.Manager.{delete_question, update_question}
use qa_api.Question.Cleaned.{names_in, named_by_answer, head, answer_head}
use qa_api.Question.Deleted.{delete_question-forgets}
use qa_api.Question.Pictures.{removal, removed_thumbnail_stays}
use qa_api.Question.Memory.{
  Db, table, table-IsTable, repo, repo-IsAnswers, services, services-KeepsFiles, services-IsApart,
}

abbrev q1 : QuestionRow
q1 = record {
  id = "q1";
  title = "One";
  content = "";
  slug = none;
  category = "General";
  created_at = 1;
  user_id = "ann";
  parent_id = none;
  parent_type = none;
  ancestors = none;
  related_contents = [];
  thumbnail_key = some "k";
  thumbnail_url = some "u";
}

abbrev q1_entry : AncestorReference
q1_entry = record { id = "q1"; type = question; depth = 0 }

abbrev q2 : QuestionRow
q2 = record q1 {
  id = "q2";
  parent_id = some "q1";
  parent_type = some question;
  ancestors = some (q1_entry ∷ []);
}

abbrev a1 : Answer
a1 = record {
  id = "a1";
  content = "";
  user = "bob";
  question = "q2";
  likes = [];
  dislikes = [];
  is_accepted = false;
  created_at = 2;
  parent = none;
  ancestors =
      some (record { id = "q2"; type = question; depth = 0 } ∷ record q1_entry { depth = 1 } ∷ []);
}

abbrev db : Db
db = record { rows = q1 ∷ q2 ∷ []; answers = a1 ∷ []; files = "j" ∷ "k" ∷ [] }

-- q2 stays, with q1 as its parent.
delete_question-forgets_example :
    (q : QuestionModel) × (db' : Db) × (delete_question table repo services "q1" db ≡ (ok q, db'))
    × (any (names_in "q1") db'.rows ≡ false)
    × (any (named_by_answer "q1") db'.answers ≡ false)
    × (map head db'.rows ≡ ("q2", some "q1") ∷ [])
    × (map answer_head db'.answers ≡ ("a1", "q2") ∷ [])
delete_question-forgets_example =
    delete_question-forgets table repo services (λ x. x.rows) (λ x. x.answers) table-IsTable
      repo-IsAnswers services-IsApart "q1" db refl

removed_thumbnail_stays_example :
    (q : QuestionModel) × (db' : Db) × (update_question table repo services "q1" removal db
      ≡ (ok q, db'))
    × (db'.files ≡ "j" ∷ [])
    × (db'.rows ≡ db.rows)
    × (q.thumbnail ≡ some (record { key = "k"; url = some "u" }))
unfolding to_entity
removed_thumbnail_stays_example =
    removed_thumbnail_stays table repo services (λ x. x.rows) (λ x. x.answers) table-IsTable
      repo-IsAnswers services-IsApart (λ x. x.files) services-KeepsFiles "q1" "k" q1 db refl refl
      refl

-- The answers of Answer/Memory.antt: a1 and a2 answer the one question q1.
abbrev answer_row : String → AnswerRow
answer_row id = record {
  id = id;
  content = "";
  user_id = "bob";
  question_id = "q1";
  is_accepted = false;
  created_at = 2;
  parent_id = none;
  parent_type = none;
  ancestors = none;
}

abbrev tables : Tables
tables = record { answers = answer_row "a1" ∷ answer_row "a2" ∷ []; reactions = [] }

abbrev only_q1 : String → Option QuestionRow
only_q1 id = if id === "q1" then some q1 else none

abbrev beside_answers : Table Tables
beside_answers = record {
  find_unique = λ db id. only_q1 id;
  find_many = λ db. q1 ∷ [];
  update_row = λ id c db. (ok tt, db);
  delete_row = λ id db. (ok tt, db);
  find_reactions = λ db id. [];
  delete_reactions = λ id db. db;
  create_reactions = λ rs db. db;
  find_tags = λ db id. [];
  delete_tags = λ id db. db;
  create_tags = λ id tags db. db;
  find_answer_ids = λ db id. map (λ r. r.id) (select (λ r. r.question_id === id) db.answers);
}

beside_answers-AreShared : AreShared memory beside_answers
beside_answers-AreShared = record {
  deleted = λ id row db h. (_, refl, refl, λ q. refl);
  keyed = λ id row db h. ground (arith, eq_iff id "q1");
  listed = λ id db. refl;
}

-- It keeps a log of the calls.
abbrev logged : IndexClient (List (Sync String)) String
logged = record {
  sync = λ name call log. (ok tt, call ∷ log);
  answer_index = "answers";
  question_index = "questions";
  project_answer = λ a. a.id;
  project_question = λ q. q.id;
}

deleted_answer_is_unlisted_example :
    let (r, s) =
      delete_answer
        (postgres memory)
        (question_repository beside_answers)
        logged
        "a1"
        "q1"
        (tables, []) in
    (r ≡ ok tt)
    × (q : Question) × (find_question beside_answers "q1" s.0 ≡ (ok q, s.0))
    × ((j : String)
        → includes q.answers j ≡ (if "a1" === j then false else includes ("a1" ∷ "a2" ∷ []) j))
deleted_answer_is_unlisted_example =
    deleted_answer_is_unlisted memory beside_answers beside_answers-AreShared logged "a1" "q1"
      (answer_row "a1") q1 tables [] refl refl (λ name call log. refl)
