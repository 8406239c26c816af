-- ===== src/Ancestry/Tests.antt =====
-- The theorems on chains at concrete inputs: an answer to a question that was asked under another
-- answer.
use qa_api.Common.{List, ◌++◌, map, false, ◌≡◌, refl, none, some, [], ◌∷◌}
use qa_api.Content.{AncestorReference, question, answer, Answer, Question}
use qa_api.Ancestry.Chain.{deeper, entry, reference}
use qa_api.Ancestry.Backfill.{
  QuestionDoc, AnswerDoc, Documents, next_parent, compute_ancestors, chain_of, question_update,
  Update, answer_update, first_reference,
}
use qa_api.Ancestry.Backfilled.{IsChain, question_update-Returns, answer_update_skips_question}
use qa_api.Ancestry.Depths.{mentions}

abbrev follow_up : Question
follow_up = record {
  id = "q2";
  parent = some (reference "a1" answer);
  ancestors = some (entry "a1" answer 0 ∷ entry "q1" question 1 ∷ []);
  answers = [];
}

abbrev reply : Answer
reply = record {
  id = "a2";
  content = "See above.";
  user = "u1";
  question = "q2";
  likes = [];
  dislikes = [];
  is_accepted = false;
  created_at = 0;
  parent = none;
  ancestors = none;
}

-- Documents: a question, an answer to it, a question that was asked under that answer, and one
-- that refers to itself.
abbrev asked : QuestionDoc
asked = record { id = "q1"; parent_content_id = none; ancestors = none }

abbrev asked_under : QuestionDoc
asked_under = record { id = "q2"; parent_content_id = some "a1"; ancestors = none }

abbrev own_parent : QuestionDoc
own_parent = record { id = "q3"; parent_content_id = some "q3"; ancestors = none }

abbrev documents : Documents
documents = record {
  questions = asked ∷ asked_under ∷ own_parent ∷ [];
  answers = record { id = "a1"; question = "q1" } ∷ record { id = "a2"; question = "q2" } ∷ [];
}

abbrev chain : List AncestorReference
chain = entry "a1" answer 0 ∷ entry "q1" question 1 ∷ []

abbrev first_update : Update
first_update = record { id = "q2"; ancestors = chain; parent = some (reference "a1" answer) }

asked_under_update : question_update documents asked_under ≡ some first_update
unfolding question_update chain_of compute_ancestors next_parent
asked_under_update = refl

own_parent_update :
    question_update documents own_parent
    ≡ some (record { id = "q3"; ancestors = []; parent = none })
unfolding question_update chain_of compute_ancestors
own_parent_update = refl

question_update-Returns_example :
    (u : Update) × (question_update documents asked_under ≡ some u)
    × (u.id ≡ "q2")
    × IsChain documents "q2" u.ancestors
    × (u.parent ≡ first_reference u.ancestors)
question_update-Returns_example = question_update-Returns documents asked_under

abbrev asked_later : QuestionDoc
asked_later = record asked_under { ancestors = some chain }

abbrev documents_after : Documents
documents_after = record documents { questions = asked ∷ asked_later ∷ own_parent ∷ [] }

abbrev last_answer : AnswerDoc
last_answer = record { id = "a2"; question = "q2" }

answer_update_skips_question_example :
    (answer_update documents_after last_answer).ancestors
      ≡ entry "a2" answer 0 ∷ map deeper first_update.ancestors
    × (mentions "q2" (answer_update documents_after last_answer).ancestors ≡ false)
answer_update_skips_question_example =
    answer_update_skips_question documents documents_after last_answer asked_under asked_later
      first_update (entry "a1" answer 0) (entry "q1" question 1 ∷ []) asked_under_update refl refl
      refl refl

-- A collection that keeps the updates it was given.
abbrev log_updates : List Update → List Update → List Update
log_updates us db = db ++ us

log_updates-append :
    (us vs db : List Update) → log_updates (us ++ vs) db ≡ log_updates vs (log_updates us db)
log_updates-append us vs [] = refl
log_updates-append us vs (u ∷ db) = rw (log_updates-append us vs db)
