-- ===== src/Answer/Repository.antt =====
-- repositories/AnswerRepository.ts over repositories/base/BaseRepository.ts, for any data source.
use qa_api.Common.{
  ℕ, zero, suc, ◌+◌, ◌-◌, ◌*◌, ◌/◌, String, Bool, not, ◌&&◌, ltb, leb, ◌===◌, if◌then◌else◌, Option,
  none, some, List, [], ◌∷◌, ◌++◌, length, take, drop, select, find, includes, without,
}
use qa_api.Content.{Answer}
use qa_api.Effect.{Action, pure, ◌>>=◌, ◌>>◌, throw_if, or_throw}
use qa_api.Error.Application.{not_found_error, business_error_of}
use qa_api.Answer.Source.{AnswerPatch, no_change, DataSource}

-- The stable sort by `createdAt`, newest first.
abbrev pub insert : Answer → List Answer → List Answer
insert a [] = a ∷ []
insert a (b ∷ bs) =
    let later = b ∷ insert a bs in if leb b.created_at a.created_at then a ∷ b ∷ bs else later

unfoldable pub newest_first : List Answer → List Answer
newest_first [] = []
newest_first (a ∷ rest) = insert a (newest_first rest)

abbrev pub of_question : String → List Answer → List Answer
of_question question_id all = newest_first (select (λ a. a.question === question_id) all)

-- `Math.ceil(total / limit)`, for a limit of at least 1
abbrev pub pages_of : ℕ → ℕ → ℕ
pages_of total limit = (total + limit - 1) / limit

-- `slice((page - 1) * limit, (page - 1) * limit + limit)`; for page 0 the slice ends at 0.
abbrev pub page_of {ℓ} : {A : Type ℓ} → ℕ → ℕ → List A → List A
page_of zero limit xs = []
page_of (suc p) limit xs = take limit (drop (p * limit) xs)

pub record Pagination : Type 0 where
  pub page : ℕ
  pub limit : ℕ
  pub total : ℕ
  pub total_pages : ℕ
  pub has_next : Bool
  pub has_prev : Bool

pub record Page : Type 0 where
  pub items : List Answer
  pub pagination : Pagination

unfoldable pub paginate : ℕ → ℕ → List Answer → Page
paginate page limit sorted = record {
  items = page_of page limit sorted;
  pagination = record {
    page = page;
    limit = limit;
    total = length sorted;
    total_pages = pages_of (length sorted) limit;
    has_next = ltb page (pages_of (length sorted) limit);
    has_prev = ltb 1 page;
  };
}

-- `findIndex`
abbrev pub find_index : String → List Answer → Option ℕ
find_index id [] = none
find_index id (a ∷ rest) =
    if a.id === id
    then some 0
    else elim (find_index id rest) [ none ↦ none | some i ↦ some (suc i) ]

abbrev pub page_number : Option ℕ → ℕ → Option ℕ
page_number none limit = none
page_number (some i) limit = some (i / limit + 1)

abbrev not_in : List String → String → Bool
not_in xs u = not (includes xs u)

module _ {Db : Type 0} (source : DataSource Db) where
  -- BaseRepository
  abbrev pub find_by_id : String → Action Db Answer
  find_by_id id = do
    found ← source.find_by_id id
    or_throw found (not_found_error "Resource not found")

  abbrev pub update_by_id : String → AnswerPatch → Action Db Answer
  update_by_id id d = do
    found ← source.update_by_id id d
    or_throw found (not_found_error "Resource not found")

  unfoldable pub delete_by_id : String → Action Db Answer
  delete_by_id id = do
    found ← source.delete_by_id id
    or_throw found (not_found_error "Resource not found")

  unfoldable pub find_by_question : String → Action Db (List Answer)
  find_by_question question_id = do
    all ← source.find_all
    pure (select (λ a. a.question === question_id) all)

  unfoldable pub find_by_question_paginated : String → ℕ → ℕ → Action Db Page
  find_by_question_paginated question_id page limit = do
    all ← source.find_all
    pure (paginate page limit (of_question question_id all))

  unfoldable pub find_answer_page_number : String → String → ℕ → Action Db (Option ℕ)
  find_answer_page_number question_id answer_id limit = do
    all ← source.find_all
    pure (page_number (find_index answer_id (of_question question_id all)) limit)

  unfoldable pub find_by_question_and_id : String → String → Action Db (Option Answer)
  find_by_question_and_id answer_id question_id = do
    all ← source.find_all
    pure (find (λ a. a.id === answer_id && a.question === question_id) all)

  unfoldable pub like_answer : String → String → Action Db Answer
  like_answer answer_id user_id = do
    a ← find_by_id answer_id
    throw_if (includes a.likes user_id)
        (business_error_of "Database error in AnswerMongooseDataSource.alreadyLiked" 400)
    update_by_id answer_id (record no_change {
      likes = some (a.likes ++ user_id ∷ []);
      dislikes =
          some (if includes a.dislikes user_id then without user_id a.dislikes else a.dislikes);
    })

  unfoldable pub unlike_answer : String → String → Action Db Answer
  unlike_answer answer_id user_id = do
    a ← find_by_id answer_id
    throw_if (not_in a.likes user_id)
        (business_error_of "Database error in AnswerMongooseDataSource.notLiked" 400)
    update_by_id answer_id (record no_change { likes = some (without user_id a.likes) })

  unfoldable pub dislike_answer : String → String → Action Db Answer
  dislike_answer answer_id user_id = do
    a ← find_by_id answer_id
    throw_if (includes a.dislikes user_id)
        (business_error_of "Database error in AnswerMongooseDataSource.alreadyLiked" 400)
    update_by_id answer_id (record no_change {
      likes = some (if includes a.likes user_id then without user_id a.likes else a.likes);
      dislikes = some (a.dislikes ++ user_id ∷ []);
    })

  unfoldable pub undo_dislike_answer : String → String → Action Db Answer
  undo_dislike_answer answer_id user_id = do
    a ← find_by_id answer_id
    throw_if (not_in a.dislikes user_id)
        (business_error_of "Database error in AnswerMongooseDataSource.notLiked" 400)
    update_by_id answer_id (record no_change { dislikes = some (without user_id a.dislikes) })
