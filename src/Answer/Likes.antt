-- ===== src/Answer/Likes.antt =====
-- The four operations of AnswerRepository on reactions, over PostgreSQL, against the reaction of
-- each user.
use qa_api.Common.{
  Bool-cases, inl, inr, eq_iff, String, false, not, ◌≡◌, ◌≢◌, refl, ◌∙◌, ◌===◌, if◌then◌else◌,
  Option, none, some, [], ◌∷◌, ◌++◌, arith, without,
}
use qa_api.Content.{Answer, answer}
use qa_api.Effect.{Outcome, ok, err}
use qa_api.Error.Handler.{application}
use qa_api.Error.Application.{ApplicationError, business_error_of}
use qa_api.Answer.Prisma.{Kind, like, dislike, AnswerRow, Prisma, IsLawful}
use qa_api.Answer.Source.{is_like, to_entity, postgres, write_reactions}
use qa_api.Answer.Repository.{like_answer, unlike_answer, dislike_answer, undo_dislike_answer}
use qa_api.Answer.Steps.{
  keep, found, like-kind, dislike-kind, unlike-kind, undo_dislike-kind, like-run, dislike-run,
  unlike-run, undo_dislike-run, likes_in, dislikes_in, dropped,
}
use qa_api.Answer.Reactions.{
  reaction, includes-likes, includes-dislikes, kind-write, write_reactions-elsewhere,
  question_reaction, write_reactions-questions,
}

abbrev pub already : ApplicationError
already = business_error_of "Database error in AnswerMongooseDataSource.alreadyLiked" 400

abbrev pub not_yet : ApplicationError
not_yet = business_error_of "Database error in AnswerMongooseDataSource.notLiked" 400

-- A call on an answer that leaves the reactions of every user `v` as `spec v`, those to the other
-- answers and to all questions as they were, and returns the answer as the database then has it.
abbrev pub Leaves :
    (p : Prisma)
    → p.Db
    → String
    → AnswerRow
    → (String → Option Kind)
    → Outcome Answer × p.Db
    → Type 0
Leaves p db id row spec (r, db') =
    (r ≡ ok (to_entity row (p.find_reactions db' answer id)))
    × ((j v : String) → reaction p db' j v ≡ (if id === j then spec v else reaction p db j v))
    × ((j v : String) → question_reaction p db' j v ≡ question_reaction p db j v)

module _ (p : Prisma) (lawful : IsLawful p) (db : p.Db) (id u : String) (row : AnswerRow)
    (stored : p.find_unique db id ≡ some row) where
  -- An equation on the answer itself and one on the others.
  everywhere :
      (db' : p.Db) (spec : String → Option Kind)
      → ((v : String) → reaction p db' id v ≡ spec v)
      → ((j v : String) → (id === j) ≡ false → reaction p db' j v ≡ reaction p db j v)
      → (j v : String) → reaction p db' j v ≡ (if id === j then spec v else reaction p db j v)
  everywhere db' spec here elsewhere j v = elim (Bool-cases (id === j)) [
    | inl same ↦ rw same (rw ((eq_iff id j).0 same) at here v)
    | inr other ↦ rw other (elsewhere j v other)
  ]

  -- Liking an answer that exists, by a user who does not like it yet: the user's reaction becomes a
  -- like, also from a dislike, and no other reaction changes, to this or another answer or to a
  -- question.
  pub like_answer-Leaves :
      reaction p db id u ≢ some like
      → Leaves p db id row
          (λ v. if u === v then some like else reaction p db id v)
          (like_answer (postgres p) id u db)
  unfolding write_reactions
  like_answer-Leaves h = rw (like-run p lawful db id u row stored h) (
    refl,
    everywhere _ _ (λ v. kind-write p lawful _ _ db id v ∙ like-kind p lawful db id u v)
        (write_reactions-elsewhere p lawful (some (likes_in p db id ++ u ∷ []))
          (some (dropped u (dislikes_in p db id))) db id),
    write_reactions-questions p lawful (some (likes_in p db id ++ u ∷ []))
        (some (dropped u (dislikes_in p db id))) db id,
  )

  -- Disliking an answer that exists, by a user who does not dislike it yet: the user's reaction
  -- becomes a dislike, also from a like, and no other reaction changes, to this or another answer or
  -- to a question.
  pub dislike_answer-Leaves :
      reaction p db id u ≢ some dislike
      → Leaves p db id row
          (λ v. if u === v then some dislike else reaction p db id v)
          (dislike_answer (postgres p) id u db)
  unfolding write_reactions
  dislike_answer-Leaves h = rw (dislike-run p lawful db id u row stored h) (
    refl,
    everywhere _ _ (λ v. kind-write p lawful _ _ db id v ∙ dislike-kind p lawful db id u v)
        (write_reactions-elsewhere p lawful (some (dropped u (likes_in p db id)))
          (some (dislikes_in p db id ++ u ∷ [])) db id),
    write_reactions-questions p lawful (some (dropped u (likes_in p db id)))
        (some (dislikes_in p db id ++ u ∷ [])) db id,
  )

  -- Taking back the like of a user who likes the answer removes it and keeps the other likes, but
  -- every dislike of the answer is erased, since the update names the likes alone.
  pub unlike_answer-Leaves :
      reaction p db id u ≡ some like
      → Leaves p db id row
          (λ v. if u === v then none else keep is_like (reaction p db id v))
          (unlike_answer (postgres p) id u db)
  unfolding write_reactions
  unlike_answer-Leaves h = rw (unlike-run p lawful db id u row stored h) (
    refl,
    everywhere _ _ (λ v. kind-write p lawful _ [] db id v ∙ unlike-kind p lawful db id u v)
        (write_reactions-elsewhere p lawful (some (without u (likes_in p db id))) none db id),
    write_reactions-questions p lawful (some (without u (likes_in p db id))) none db id,
  )

  -- Taking back the dislike of a user who dislikes the answer removes it and keeps the other
  -- dislikes, but every like of the answer is erased.
  undo_dislike_answer-Leaves :
      reaction p db id u ≡ some dislike
      → Leaves p db id row
          (λ v. if u === v then none else keep (λ k. not (is_like k)) (reaction p db id v))
          (undo_dislike_answer (postgres p) id u db)
  unfolding write_reactions
  undo_dislike_answer-Leaves h = rw (undo_dislike-run p lawful db id u row stored h) (
    refl,
    everywhere _ _ (λ v. kind-write p lawful [] _ db id v ∙ undo_dislike-kind p lawful db id u v)
        (write_reactions-elsewhere p lawful none (some (without u (dislikes_in p db id))) db id),
    write_reactions-questions p lawful none (some (without u (dislikes_in p db id))) db id,
  )

  -- What is refused under the reaction that the user has.
  abbrev pub Refusals : Option Kind → Type 0
  Refusals (some like) =
      (like_answer (postgres p) id u db ≡ (err (application already), db))
      × (undo_dislike_answer (postgres p) id u db ≡ (err (application not_yet), db))
  Refusals (some dislike) =
      (dislike_answer (postgres p) id u db ≡ (err (application already), db))
      × (unlike_answer (postgres p) id u db ≡ (err (application not_yet), db))
  Refusals none =
      (unlike_answer (postgres p) id u db ≡ (err (application not_yet), db))
      × (undo_dislike_answer (postgres p) id u db ≡ (err (application not_yet), db))

  refused_under : (r : Option Kind) → reaction p db id u ≡ r → Refusals r
  unfolding like_answer dislike_answer unlike_answer undo_dislike_answer to_entity
  refused_under (some like) h =
      let a = found p lawful db id u row stored in
      (
        ground (arith, a, includes-likes p lawful db id u),
        ground (arith, a, includes-dislikes p lawful db id u),
      )
  refused_under (some dislike) h =
      let a = found p lawful db id u row stored in
      (
        ground (arith, a, includes-dislikes p lawful db id u),
        ground (arith, a, includes-likes p lawful db id u),
      )
  refused_under none h =
      let a = found p lawful db id u row stored in
      (
        ground (arith, a, includes-likes p lawful db id u),
        ground (arith, a, includes-dislikes p lawful db id u),
      )

  -- On an answer that exists, giving the reaction that the user has already, or taking back one
  -- that the user does not have, is refused with status 400, and the database is left alone.
  reactions_refused : Refusals (reaction p db id u)
  reactions_refused = refused_under (reaction p db id u) refl
