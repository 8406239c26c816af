-- ===== src/Answer/Source.antt =====
-- repositories/postgresql/AnswerPostgreSQLDataSource.ts, and the interface
-- repositories/interfaces/IDataSource.ts that it implements. The user and the question that are
-- joined in for display are left out.
use qa_api.Common.{
  String, Bool, true, false, ◌||◌, not, ◌===◌, if◌then◌else◌, Option, none, some, List, [], ◌∷◌,
  ◌++◌, map,
}
use qa_api.Content.{ContentType, answer, ParentReference, AncestorReference, Answer}
use qa_api.Effect.{Action, pure, ◌>>=◌, ◌>>◌, gets, modify, or_throw}
use qa_api.Error.Application.{not_found_error}
use qa_api.Answer.Prisma.{Kind, like, dislike, Reaction, AnswerRow, RowPatch, Prisma}

-- `Partial<IAnswerModel>`: a field that is `none` is absent.
pub record AnswerPatch : Type 0 where
  pub content : Option String
  pub user : Option String
  pub question : Option String
  pub likes : Option (List String)
  pub dislikes : Option (List String)
  pub is_accepted : Option Bool
  pub parent : Option ParentReference
  pub ancestors : Option (List AncestorReference)

abbrev pub no_change : AnswerPatch
no_change = record {
  content = none;
  user = none;
  question = none;
  likes = none;
  dislikes = none;
  is_accepted = none;
  parent = none;
  ancestors = none;
}

-- `IDataSource<IAnswerModel>`: the operations that the repository of answers calls.
pub record DataSource (Db : Type 0) : Type 0 where
  pub create : AnswerPatch → Action Db Answer
  pub find_by_id : String → Action Db (Option Answer)
  pub find_all : Action Db (List Answer)
  pub update_by_id : String → AnswerPatch → Action Db (Option Answer)
  pub delete_by_id : String → Action Db (Option Answer)

abbrev pub is_like : Kind → Bool
is_like like = true
is_like dislike = false

-- The users of the rows of one kind, in `loadReactions`.
abbrev pub users_of : (Kind → Bool) → List Reaction → List String
users_of p [] = []
users_of p (r ∷ rs) = let rest = users_of p rs in if p r.kind then r.user_id ∷ rest else rest

-- `row.parentId && row.parentType ? … : undefined`
abbrev parent_of : Option String → Option ContentType → Option ParentReference
parent_of (some id) (some type) = if id === "" then none else some (record { id = id; type = type })
parent_of _ _ = none

unfoldable pub to_entity : AnswerRow → List Reaction → Answer
to_entity row rows = record {
  id = row.id;
  content = row.content;
  user = row.user_id;
  question = row.question_id;
  likes = users_of is_like rows;
  dislikes = users_of (λ k. not (is_like k)) rows;
  is_accepted = row.is_accepted;
  created_at = row.created_at;
  parent = parent_of row.parent_id row.parent_type;
  ancestors = row.ancestors;
}

-- The rows that a list of users stands for.
abbrev pub rows_of : Kind → String → List String → List Reaction
rows_of k id [] = []
rows_of k id (u ∷ us) =
    record { content_type = answer; content_id = id; user_id = u; kind = k } ∷ rows_of k id us

-- `likes ?? []`
abbrev pub or_nil {ℓ} : {A : Type ℓ} → Option (List A) → List A
or_nil none = []
or_nil (some xs) = xs

abbrev row_patch : AnswerPatch → RowPatch
row_patch d = record {
  content = d.content;
  user_id = d.user;
  question_id = d.question;
  is_accepted = d.is_accepted;
  parent = d.parent;
  ancestors = d.ancestors;
}

abbrev is_some {ℓ} : {A : Type ℓ} → Option A → Bool
is_some none = false
is_some (some _) = true

-- `Object.keys(updateData).length > 0`
abbrev has_columns : AnswerPatch → Bool
has_columns d =
    is_some d.content
    || is_some d.user
    || is_some d.question
    || is_some d.is_accepted
    || is_some d.parent
    || is_some d.ancestors

module _ (p : Prisma) where
  open p use {Db, find_unique, find_reactions, delete_reactions, create_reactions}

  unfoldable pub find_by_id : String → Action Db (Option Answer)
  find_by_id id = do
    row ← gets (λ db. find_unique db id)
    found ← or_throw row (not_found_error "Answer not found")
    rows ← gets (λ db. find_reactions db answer id)
    pure (some (to_entity found rows))

  -- `createMany` is called for a list that is not empty.
  abbrev pub add_reactions : List Reaction → Db → Db
  add_reactions [] db = db
  add_reactions (r ∷ rs) db = create_reactions (r ∷ rs) db

  -- The first part of `updateById`: all reactions of the answer are deleted when either list is
  -- given, and those of the lists that are given are written.
  unfoldable pub write_reactions : String → Option (List String) → Option (List String) → Db → Db
  write_reactions id none none db = db
  write_reactions id likes dislikes db =
      add_reactions (rows_of like id (or_nil likes) ++ rows_of dislike id (or_nil dislikes))
        (delete_reactions answer id db)

  abbrev update_columns : String → AnswerPatch → Action Db (Unit {0})
  update_columns id d =
      let run = p.update_row id (row_patch d) in λ db. if has_columns d then run db else pure tt db

  unfoldable pub update_by_id : String → AnswerPatch → Action Db (Option Answer)
  unfolding find_by_id write_reactions
  update_by_id id d = do
    modify (write_reactions id d.likes d.dislikes)
    update_columns id d
    find_by_id id

  unfoldable pub create : AnswerPatch → Action Db Answer
  create d = do
    row ← p.create_row (row_patch d)
    modify (add_reactions (rows_of like row.id (or_nil d.likes)))
    modify (add_reactions (rows_of dislike row.id (or_nil d.dislikes)))
    rows ← gets (λ db. find_reactions db answer row.id)
    pure (to_entity row rows)

  unfoldable pub find_all : Action Db (List Answer)
  find_all =
      gets (λ db. map (λ row. to_entity row (find_reactions db answer row.id)) (p.find_many db))

  unfoldable pub delete_by_id : String → Action Db (Option Answer)
  unfolding find_by_id
  delete_by_id id = do row ← find_by_id id; p.delete_row id; pure row

  abbrev pub postgres : DataSource Db
  postgres = record {
    create = create;
    find_by_id = find_by_id;
    find_all = find_all;
    update_by_id = update_by_id;
    delete_by_id = delete_by_id;
  }
