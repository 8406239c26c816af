-- ===== src/Answer/SyncedTests.antt =====
-- The theorems of Synced at concrete inputs: an index that throws, and one question.
use qa_api.Common.{String, ◌≡◌, refl, some, [], ◌∷◌, arith, inl, inr}
use qa_api.Content.{question, Question}
use qa_api.Effect.{ok, err}
use qa_api.Error.Handler.{Thrown, application}
use qa_api.Error.Application.{internal_server_error}
use qa_api.Ancestry.Chain.{entry, reference, under_question, listed}
use qa_api.Ancestry.Depths.{CountsFrom}
use qa_api.Answer.Source.{postgres}
use qa_api.Answer.Repository
use qa_api.Answer.Manager.{QuestionRepository, IndexClient, lineage_of, like_answer}
use qa_api.Answer.Memory.{Tables, memory}
use qa_api.Answer.Synced.{IsReadFor, like_ignores_index, lineage_of-CountsFrom}
use qa_api.Answer.Tests.{tables}

abbrev down : Thrown
down = application (internal_server_error "index is down")

abbrev broken : IndexClient (Unit {0}) String
broken = record {
  sync = λ name call i. (err down, i);
  answer_index = "answers";
  question_index = "questions";
  project_answer = λ a. a.id;
  project_question = λ q. q.id;
}

abbrev asked : Question
asked = record {
  id = "q1";
  parent = some (reference "q0" question);
  ancestors = some (entry "q0" question 0 ∷ []);
  answers = "a1" ∷ "a2" ∷ [];
}

abbrev only_question : QuestionRepository Tables
only_question = record {
  find_by_id = λ id db. (ok asked, db);
  update_answers = λ id answers db. (ok asked, db);
}

like_ignores_index_example :
    let (r, s) = like_answer (postgres memory) only_question broken "a1" "bob" (tables, tt) in
    let (r', db') = Repository.like_answer (postgres memory) "a1" "bob" tables in
    (r ≡ r') × (s.0 ≡ db')
like_ignores_index_example =
    like_ignores_index (postgres memory) only_question broken "a1" "bob" tables tt

counts :
    (r : Question)
    → IsReadFor (postgres memory) only_question asked (some (reference "q1" question)) tables r
    → CountsFrom 0 (listed r.ancestors)
counts r (inl (_, e)) = let same : r ≡ asked = ground arith in rw same (refl, tt)
counts r (inr (a, t, _, _)) = absurd (ground arith)

lineage_of-CountsFrom_example : CountsFrom 0 (under_question asked).ancestors
unfolding lineage_of
lineage_of-CountsFrom_example =
    lineage_of-CountsFrom (postgres memory) only_question asked (some (reference "q1" question))
      tables (under_question asked) counts refl
