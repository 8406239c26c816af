-- ===== src/Answer/Paging.antt =====
-- The pages of a question's answers: AnswerRepository.findByQuestionPaginated against
-- AnswerRepository.findAnswerPageNumber.
use qa_api.Common.{
  length-drop, ◌-◌, ℕ, zero, suc, ◌+◌, ◌-◌, ◌*◌, ◌/◌, ◌≤◌, ◌<◌, String, Bool, true, ◌≡◌, ◌↔◌, refl,
  ap, ◌===◌, ltb→lt, lt→ltb, ◌∙◌, inl, inr, Option-cases, some, List, [], ◌∷◌, ◌++◌, arith, length,
  take, drop, any,
}
use Prim.Native.Nat.add
use Prim.Native.Nat.mul
use qa_api.Content.{Answer}
use qa_api.Effect.{ok}
use qa_api.Answer.Source.{DataSource}
use qa_api.Answer.Repository.{
  Page, of_question, pages_of, page_of, paginate, find_index, page_number,
  find_by_question_paginated, find_answer_page_number,
}

abbrev pub has_id : String → Answer → Bool
has_id id a = a.id === id

-- The first `n` pages, one behind the other.
abbrev pages {ℓ} : {A : Type ℓ} → ℕ → ℕ → List A → List A
pages zero limit xs = []
pages (suc n) limit xs = pages n limit xs ++ page_of (suc n) limit xs

take-nil {ℓ} : {A : Type ℓ} (n : ℕ) → take {A = A} n [] ≡ []
take-nil zero = refl
take-nil (suc n) = refl

take-append_drop {ℓ} :
    {A : Type ℓ} (m n : ℕ) (xs : List A) → take (m + n) xs ≡ take m xs ++ take n (drop m xs)
take-append_drop zero n xs = rw (add.zero n)
take-append_drop (suc m) n [] = rw (add.suc m n, take-nil n)
take-append_drop (suc m) n (x ∷ xs) = rw (add.suc m n, take-append_drop m n xs)

pages-take {ℓ} : {A : Type ℓ} (n limit : ℕ) (xs : List A) → pages n limit xs ≡ take (n * limit) xs
pages-take zero limit xs = rw (mul.zero limit)
pages-take (suc n) limit xs =
    rw (pages-take n limit xs, ← take-append_drop (n * limit) limit xs)
      (ap (λ k. take k xs) (omega arith))

take_all {ℓ} : {A : Type ℓ} (n : ℕ) (xs : List A) → length xs ≤ n → take n xs ≡ xs
take_all zero [] h = refl
take_all (suc n) [] h = refl
take_all zero (x ∷ xs) h = absurd (omega arith)
take_all (suc n) (x ∷ xs) h = ap (λ r. x ∷ r) (take_all n xs (omega arith))

find_index-lt : (id : String) (xs : List Answer) (i : ℕ) → find_index id xs ≡ some i → i < length xs
find_index-lt id [] i h = cc
find_index-lt id (x ∷ xs) i h = ground (arith, find_index-lt id xs (i - 1))

-- A window that starts at or before the index and ends behind it holds the answer.
window_holds :
    (id : String) (xs : List Answer) (i start n : ℕ)
    → find_index id xs ≡ some i
    → start ≤ i
    → i < start + n
    → any (has_id id) (take n (drop start xs)) ≡ true
window_holds id [] i start n h a b = cc
window_holds id (x ∷ xs) i zero zero h a b = absurd (omega arith)
window_holds id (x ∷ xs) i zero (suc n) h a b = ground (arith, window_holds id xs (i - 1) zero n)
window_holds id (x ∷ xs) i (suc s) n h a b = ground (arith, window_holds id xs (i - 1) s n)

-- The rounded quotient: enough pages, and no more than needed.
ceil_enough : (total limit : ℕ) → 0 < limit → total ≤ pages_of total limit * limit
ceil_enough total limit h = grind arith

ceil_tight : (total limit n : ℕ) → 0 < limit → n < pages_of total limit → n * limit < total
ceil_tight total limit n h k = grind arith

lt-ceil : (total limit n : ℕ) → 0 < limit → n * limit < total → n < pages_of total limit
lt-ceil total limit n h k = grind arith

length-take_le {ℓ} :
    {A : Type ℓ} (n : ℕ) (xs : List A) → (length (take n xs) ≤ n) × (length (take n xs) ≤ length xs)
length-take_le zero xs = (omega arith, omega arith)
length-take_le (suc n) [] = (omega arith, omega arith)
length-take_le (suc n) (x ∷ xs) =
    let (a, b) = length-take_le n xs in (omega (arith, a), omega (arith, b))

length-page_of :
    (n limit : ℕ) (xs : List Answer)
    → (length (page_of n limit xs) ≤ limit)
      × (length (page_of n limit xs) ≤ length xs - (n - 1) * limit)
length-page_of zero limit xs = (omega arith, omega arith)
length-page_of (suc n) limit xs =
    let (a, b) = length-take_le limit (drop (n * limit) xs) in
    let before : suc n - 1 ≡ n = omega arith in
    (a, rw before (rw (length-drop (n * limit) xs) at b))

-- The answers of the pages 1, 2, …, `n`, as `paginate` gives them, one behind the other.
abbrev pub items_until : ℕ → ℕ → List Answer → List Answer
items_until zero limit xs = []
items_until (suc n) limit xs = items_until n limit xs ++ (paginate (suc n) limit xs).items

items_until-pages : (n limit : ℕ) (xs : List Answer) → items_until n limit xs ≡ pages n limit xs
unfolding paginate
items_until-pages zero limit xs = refl
items_until-pages (suc n) limit xs = rw (items_until-pages n limit xs) refl

-- For a limit of at least 1: the answers of the pages 1, 2, …, `totalPages` behind one another are
-- the whole sorted list, each page holds at most `limit` answers, a page with `hasNext` is one that
-- leaves some answers behind it, and a page holds no more answers than the pages before it leave.
pub paginate_complete :
    (n limit : ℕ) (xs : List Answer)
    → 0 < limit
    → let page = paginate n limit xs in
      (items_until page.pagination.total_pages limit xs ≡ xs)
      × (length page.items ≤ limit)
      × ((page.pagination.has_next ≡ true) ↔ (n * limit < length xs))
      × (length page.items ≤ length xs - (n - 1) * limit)
unfolding paginate
paginate_complete n limit xs h = (
  items_until-pages (pages_of (length xs) limit) limit xs
      ∙ pages-take (pages_of (length xs) limit) limit xs
      ∙ take_all _ xs (ceil_enough (length xs) limit h),
  (length-page_of n limit xs).0,
  (
    λ e. ceil_tight (length xs) limit n h (ltb→lt _ _ e),
    λ k. lt→ltb _ _ (lt-ceil (length xs) limit n h k),
  ),
  (length-page_of n limit xs).1,
)

page_holds :
    (id : String) (xs : List Answer) (limit n : ℕ)
    → 0 < limit
    → page_number (find_index id xs) limit ≡ some n
    → any (has_id id) (page_of n limit xs) ≡ true
page_holds id xs limit n h e = elim (Option-cases (find_index id xs)) [
  | inl missing ↦ cc
  | inr (i, found) ↦
      let page : n ≡ suc (i / limit) = ground arith in
      rw page (window_holds id xs i (i / limit * limit) limit found (grind arith) (grind arith))
]

-- The page number that is found for an answer, with a limit of at least 1, is that of a page on
-- which the answer stands, when both calls read the same list of answers.
find_answer_page_number-holds :
    {Db : Type 0} (source : DataSource Db) (db db' : Db) (all : List Answer)
    (question_id answer_id : String) (limit n : ℕ)
    → 0 < limit
    → source.find_all db ≡ (ok all, db')
    → find_answer_page_number source question_id answer_id limit db ≡ (ok (some n), db')
    → (page : Page) × (find_by_question_paginated source question_id n limit db ≡ (ok page, db'))
      × (any (has_id answer_id) page.items ≡ true)
unfolding find_answer_page_number find_by_question_paginated paginate
find_answer_page_number-holds source db db' all question_id answer_id limit n h read e = (
  paginate n limit (of_question question_id all),
  ground arith,
  page_holds answer_id (of_question question_id all) limit n h (ground arith),
)
