-- ===== src/Answer/Tests.antt =====
-- The theorems on answers at concrete inputs: one answer with a like and two dislikes.
use qa_api.Common.{
  ℕ, String, ◌*◌, ◌-◌, ◌<◌, ◌≤◌, true, false, ◌≡◌, ◌↔◌, refl, ◌===◌, if◌then◌else◌, none, some,
  List, [], ◌∷◌, length, arith,
}
use qa_api.Content.{Answer, answer}
use qa_api.Effect.{ok}
use qa_api.Answer.Prisma.{Kind, like, dislike, AnswerRow, Reaction}
use qa_api.Answer.Source.{DataSource, is_like, postgres}
use qa_api.Answer.Repository.{like_answer, unlike_answer, dislike_answer, paginate}
use qa_api.Answer.Reactions.{reaction}
use qa_api.Answer.Steps.{keep}
use qa_api.Answer.Likes.{Leaves, like_answer-Leaves, dislike_answer-Leaves, unlike_answer-Leaves}
use qa_api.Answer.Paging.{items_until, paginate_complete}
use qa_api.Answer.Memory.{Tables, memory, memory-IsLawful, firsts, drop_user}

abbrev row : AnswerRow
row = record {
  id = "a1";
  content = "42";
  user_id = "author";
  question_id = "q1";
  is_accepted = false;
  created_at = 5;
  parent_id = none;
  parent_type = none;
  ancestors = none;
}

abbrev reacted : String → Kind → Reaction
reacted u k = record { content_type = answer; content_id = "a1"; user_id = u; kind = k }

abbrev pub tables : Tables
tables = record {
  answers = row ∷ [];
  reactions = reacted "ann" like ∷ reacted "bob" dislike ∷ reacted "cem" dislike ∷ [];
}

like_answer-Leaves_example :
    Leaves memory tables "a1" row
      (λ v. if "bob" === v then some like else reaction memory tables "a1" v)
      (like_answer (postgres memory) "a1" "bob" tables)
unfolding firsts drop_user
like_answer-Leaves_example =
    like_answer-Leaves memory memory-IsLawful tables "a1" "bob" row refl (ground arith)

dislike_answer-Leaves_example :
    Leaves memory tables "a1" row
      (λ v. if "ann" === v then some dislike else reaction memory tables "a1" v)
      (dislike_answer (postgres memory) "a1" "ann" tables)
unfolding firsts drop_user
dislike_answer-Leaves_example =
    dislike_answer-Leaves memory memory-IsLawful tables "a1" "ann" row refl (ground arith)

unlike_answer-Leaves_example :
    Leaves memory tables "a1" row
      (λ v. if "ann" === v then none else keep is_like (reaction memory tables "a1" v))
      (unlike_answer (postgres memory) "a1" "ann" tables)
unfolding firsts drop_user
unlike_answer-Leaves_example =
    unlike_answer-Leaves memory memory-IsLawful tables "a1" "ann" row refl refl

abbrev pub posted : String → ℕ → Answer
posted id time = record {
  id = id;
  content = "";
  user = "author";
  question = "q1";
  likes = [];
  dislikes = [];
  is_accepted = false;
  created_at = time;
  parent = none;
  ancestors = none;
}

abbrev three : List Answer
three = posted "a1" 3 ∷ posted "a2" 9 ∷ posted "a3" 5 ∷ []

paginate_complete_example :
    let page = paginate 2 2 three in
    (items_until page.pagination.total_pages 2 three ≡ three)
    × (length page.items ≤ 2)
    × ((page.pagination.has_next ≡ true) ↔ (2 * 2 < length three))
    × (length page.items ≤ length three - (2 - 1) * 2)
paginate_complete_example = paginate_complete 2 2 three (ground arith)

-- A source that only reads its list.
abbrev pub source_of_three : DataSource (List Answer)
source_of_three = record {
  create = λ d db. (ok (posted "new" 0), db);
  find_by_id = λ id db. (ok (some (posted id 0)), db);
  find_all = λ db. (ok db, db);
  update_by_id = λ id d db. (ok (some (posted id 0)), db);
  delete_by_id = λ id db. (ok (some (posted id 0)), db);
}
