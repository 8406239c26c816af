-- ===== src/Answer/Reactions.antt =====
-- What liking and disliking an answer do to the reactions that PostgreSQL holds.
use qa_api.Common.{
  String, false, not, ◌≡◌, refl, sym, ap, ◌∙◌, ◌===◌, if◌then◌else◌, Option, none, some, List, [],
  ◌∷◌, ◌++◌, arith, includes, select,
}
use qa_api.Content.{question, answer}
use qa_api.Effect.{ok}
use qa_api.Answer.Prisma.{
  Kind, like, dislike, Reaction, AnswerRow, Prisma, IsLawful, kind_of, is_about, or_else,
}
use qa_api.Answer.Source.{
  no_change, is_like, users_of, rows_of, or_nil, to_entity, add_reactions, write_reactions,
  find_by_id, update_by_id,
}
use qa_api.Answer.Kinds.{
  is_of, includes-users_of, kind_of-written, kind_of-elsewhere, kind_of-questions,
}

-- The reaction of a user to an answer, as the database holds it.
abbrev pub reaction : (p : Prisma) → p.Db → String → String → Option Kind
reaction p db id u = kind_of u (p.find_reactions db answer id)

-- The reaction of a user to a question, which the same table holds.
abbrev pub question_reaction : (p : Prisma) → p.Db → String → String → Option Kind
question_reaction p db id u = kind_of u (p.find_reactions db question id)

-- What two lists say of a user.
abbrev pub kind_in : List String → List String → String → Option Kind
kind_in likes dislikes u =
    if includes likes u then some like else if includes dislikes u then some dislike else none

or_else-none : (k : Option Kind) → or_else k none ≡ k
or_else-none none = refl
or_else-none (some k) = refl

module _ (p : Prisma) (lawful : IsLawful p) where
  kind-add_reactions :
      (rows : List Reaction) (db : p.Db) (id u : String)
      → reaction p (add_reactions p rows db) id u
        ≡ or_else (reaction p db id u) (kind_of u (select (is_about answer id) rows))
  kind-add_reactions [] db id u = sym (or_else-none _)
  kind-add_reactions (r ∷ rows) db id u = lawful.created db (r ∷ rows) answer id u

  kind-after_delete :
      (db : p.Db) (id u : String) → reaction p (p.delete_reactions answer id db) id u ≡ none
  kind-after_delete db id u = rw (lawful.deleted db answer id)

  pub kind-write :
      (likes dislikes : List String) (db : p.Db) (id u : String)
      → reaction p
          (add_reactions p
            (rows_of like id likes ++ rows_of dislike id dislikes)
            (p.delete_reactions answer id db))
          id
          u
        ≡ kind_in likes dislikes u
  kind-write likes dislikes db id u = ground (
    arith,
    kind-add_reactions (rows_of like id likes ++ rows_of dislike id dislikes)
        (p.delete_reactions answer id db) id u,
    kind-after_delete db id u,
    kind_of-written like dislike id u likes dislikes,
  )

  row-add_reactions :
      (rows : List Reaction) (db : p.Db) (id : String)
      → p.find_unique (add_reactions p rows db) id ≡ p.find_unique db id
  row-add_reactions [] db id = refl
  row-add_reactions (r ∷ rows) db id = lawful.row_after_create db (r ∷ rows) id

  row-write_reactions :
      (likes dislikes : Option (List String)) (db : p.Db) (id j : String)
      → p.find_unique (write_reactions p id likes dislikes db) j ≡ p.find_unique db j
  unfolding write_reactions
  row-write_reactions none none db id j = refl
  row-write_reactions likes dislikes db id j =
      row-add_reactions _ (p.delete_reactions answer id db) j
      ∙ lawful.row_after_delete db answer id j

  elsewhere-lists :
      (likes dislikes : List String) (db : p.Db) (id j u : String)
      → (id === j) ≡ false
      → reaction p
          (add_reactions p
            (rows_of like id likes ++ rows_of dislike id dislikes)
            (p.delete_reactions answer id db))
          j
          u
        ≡ reaction p db j u
  elsewhere-lists likes dislikes db id j u h = rw (
    kind-add_reactions (rows_of like id likes ++ rows_of dislike id dislikes)
        (p.delete_reactions answer id db) j u,
    kind_of-elsewhere like dislike id j u likes dislikes h,
    or_else-none,
    lawful.deleted_elsewhere db answer answer id j h,
  )

  -- Writing the reactions to one answer changes those to no other.
  pub write_reactions-elsewhere :
      (likes dislikes : Option (List String)) (db : p.Db) (id j u : String)
      → (id === j) ≡ false
      → reaction p (write_reactions p id likes dislikes db) j u ≡ reaction p db j u
  unfolding write_reactions
  write_reactions-elsewhere none none db id j u h = refl
  write_reactions-elsewhere likes dislikes db id j u h =
      elsewhere-lists (or_nil likes) (or_nil dislikes) db id j u h

  questions-add_reactions :
      (likes dislikes : List String) (db : p.Db) (id j u : String)
      → question_reaction p
          (add_reactions p (rows_of like id likes ++ rows_of dislike id dislikes) db)
          j
          u
        ≡ question_reaction p db j u
  questions-add_reactions [] [] db id j u = refl
  questions-add_reactions [] (v ∷ vs) db id j u =
      lawful.created db (rows_of dislike id (v ∷ vs)) question j u
      ∙ rw (kind_of-questions like dislike id j u [] (v ∷ vs)) (or_else-none _)
  questions-add_reactions (v ∷ us) vs db id j u =
      lawful.created db (rows_of like id (v ∷ us) ++ rows_of dislike id vs) question j u
      ∙ rw (kind_of-questions like dislike id j u (v ∷ us) vs) (or_else-none _)

  -- Writing the reactions to an answer changes those to no question.
  pub write_reactions-questions :
      (likes dislikes : Option (List String)) (db : p.Db) (id j u : String)
      → question_reaction p (write_reactions p id likes dislikes db) j u
        ≡ question_reaction p db j u
  unfolding write_reactions
  write_reactions-questions none none db id j u = refl
  write_reactions-questions likes dislikes db id j u =
      questions-add_reactions (or_nil likes) (or_nil dislikes) (p.delete_reactions answer id db) id
        j u
      ∙ ap (kind_of u) (lawful.deleted_elsewhere db answer question id j refl)

  -- The users that an entity lists, by the database's reactions.
  pub includes-likes :
      (db : p.Db) (id u : String)
      → includes (users_of is_like (p.find_reactions db answer id)) u
        ≡ is_of is_like (reaction p db id u)
  includes-likes db id u = includes-users_of is_like u _ (lawful.once db answer id)

  pub includes-dislikes :
      (db : p.Db) (id u : String)
      → includes (users_of (λ k. not (is_like k)) (p.find_reactions db answer id)) u
        ≡ is_of (λ k. not (is_like k)) (reaction p db id u)
  includes-dislikes db id u =
      includes-users_of (λ k. not (is_like k)) u _ (lawful.once db answer id)

  pub update-reactions :
      (likes dislikes : Option (List String)) (db : p.Db) (id : String) (row : AnswerRow)
      → p.find_unique db id ≡ some row
      → let db' = write_reactions p id likes dislikes db in
        update_by_id p id (record no_change { likes = likes; dislikes = dislikes }) db
        ≡ (ok (some (to_entity row (p.find_reactions db' answer id))), db')
  unfolding update_by_id find_by_id
  update-reactions likes dislikes db id row h = rw (row-write_reactions likes dislikes db id id, h)
