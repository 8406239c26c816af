-- ===== src/Answer/Sorted.antt =====
-- The order of a question's answers.
use mathlib.Core.List.{Perm}
use mathlib.Core.List.Perm
use qa_api.Common.{ℕ, ◌≤◌, String, ◌===◌, leb, List, [], ◌∷◌, arith, select, Bool-cases, inl, inr}
use qa_api.Content.{Answer}
use qa_api.Answer.Repository.{insert, newest_first, of_question}

-- Newest first: no answer is older than one behind it.
abbrev pub AtMost : ℕ → List Answer → Type 0
AtMost t [] = Unit
AtMost t (a ∷ rest) = (a.created_at ≤ t) × AtMost t rest

abbrev pub IsNewestFirst : List Answer → Type 0
IsNewestFirst [] = Unit
IsNewestFirst (a ∷ rest) = AtMost a.created_at rest × IsNewestFirst rest

AtMost-mono : (s t : ℕ) (xs : List Answer) → s ≤ t → AtMost s xs → AtMost t xs
AtMost-mono s t [] h k = tt
AtMost-mono s t (a ∷ xs) h k = (omega arith, AtMost-mono s t xs h k.1)

insert-AtMost :
    (t : ℕ) (a : Answer) (xs : List Answer)
    → a.created_at ≤ t
    → AtMost t xs
    → AtMost t (insert a xs)
insert-AtMost t a [] h k = (h, tt)
insert-AtMost t a (b ∷ xs) h k = ground (arith, insert-AtMost t a xs h k.1)

insert-IsNewestFirst :
    (a : Answer) (xs : List Answer) → IsNewestFirst xs → IsNewestFirst (insert a xs)
insert-IsNewestFirst a [] h = (tt, tt)
insert-IsNewestFirst a (b ∷ xs) h = ground (
  arith,
  insert-IsNewestFirst a xs h.1,
  insert-AtMost b.created_at a xs,
  AtMost-mono b.created_at a.created_at xs,
)

insert-perm : (a : Answer) (xs : List Answer) → Perm (insert a xs) (a ∷ xs)
insert-perm a [] = Perm.refl _
insert-perm a (b ∷ xs) = elim (Bool-cases (leb b.created_at a.created_at)) [
  | inl first ↦ rw first (Perm.refl _)
  | inr later ↦ rw later (Perm.trans (Perm.cons b (insert-perm a xs)) (Perm.swap _ _ _))
]

newest_first-perm : (xs : List Answer) → Perm (newest_first xs) xs
unfolding newest_first
newest_first-perm [] = Perm.refl _
newest_first-perm (a ∷ xs) =
    Perm.trans (insert-perm a (newest_first xs)) (Perm.cons a (newest_first-perm xs))

newest_first-IsNewestFirst : (xs : List Answer) → IsNewestFirst (newest_first xs)
unfolding newest_first
newest_first-IsNewestFirst [] = tt
newest_first-IsNewestFirst (a ∷ xs) =
    insert-IsNewestFirst a (newest_first xs) (newest_first-IsNewestFirst xs)

-- The list that is cut into pages holds exactly the answers of the question, as often as the data
-- source has them, newest first.
of_question_sorted :
    (question_id : String) (all : List Answer)
    → Perm (of_question question_id all) (select (λ a. a.question === question_id) all)
      × IsNewestFirst (of_question question_id all)
of_question_sorted question_id all = (newest_first-perm _, newest_first-IsNewestFirst _)
