-- ===== src/Answer/Steps.antt =====
-- The operations on reactions, reduced to what they write, and what the written lists say of each
-- user.
use qa_api.Common.{
  String, Bool, not, ◌≡◌, ◌≢◌, ◌===◌, if◌then◌else◌, Option, none, some, List, [], ◌∷◌, ◌++◌, arith,
  includes, without, eq_iff, includes-without, includes-append,
}
use qa_api.Content.{Answer, answer}
use qa_api.Effect.{Action, ok}
use qa_api.Answer.Prisma.{Kind, like, dislike, AnswerRow, Prisma, IsLawful}
use qa_api.Answer.Source.{is_like, users_of, to_entity, postgres, find_by_id, write_reactions}
use qa_api.Answer.Repository.{like_answer, unlike_answer, dislike_answer, undo_dislike_answer}
use qa_api.Answer.Reactions.{reaction, kind_in, includes-likes, includes-dislikes, update-reactions}

abbrev pub keep : (Kind → Bool) → Option Kind → Option Kind
keep q none = none
keep q (some k) = if q k then some k else none

-- The two lists of the stored answer.
abbrev pub likes_in : (p : Prisma) → p.Db → String → List String
likes_in p db id = users_of is_like (p.find_reactions db answer id)

abbrev pub dislikes_in : (p : Prisma) → p.Db → String → List String
dislikes_in p db id = users_of (λ k. not (is_like k)) (p.find_reactions db answer id)

-- `if (xs.includes(u)) xs = xs.filter(x => x !== u)`
abbrev pub dropped : String → List String → List String
dropped u xs = if includes xs u then without u xs else xs

module _ (p : Prisma) (lawful : IsLawful p) (db : p.Db) (id u : String) where
  pub like-kind :
      (v : String)
      → kind_in (likes_in p db id ++ u ∷ []) (dropped u (dislikes_in p db id)) v
        ≡ (if u === v then some like else reaction p db id v)
  like-kind v = ground (
    arith,
    includes-append (likes_in p db id) (u ∷ []) v,
    includes-without u v (dislikes_in p db id),
    includes-likes p lawful db id v,
    includes-dislikes p lawful db id v,
    includes-dislikes p lawful db id u,
    eq_iff u v,
  )

  pub dislike-kind :
      (v : String)
      → kind_in (dropped u (likes_in p db id)) (dislikes_in p db id ++ u ∷ []) v
        ≡ (if u === v then some dislike else reaction p db id v)
  dislike-kind v = ground (
    arith,
    includes-append (dislikes_in p db id) (u ∷ []) v,
    includes-without u v (likes_in p db id),
    includes-likes p lawful db id v,
    includes-dislikes p lawful db id v,
    includes-likes p lawful db id u,
    eq_iff u v,
  )

  pub unlike-kind :
      (v : String)
      → kind_in (without u (likes_in p db id)) [] v
        ≡ (if u === v then none else keep is_like (reaction p db id v))
  unlike-kind v =
      ground (
        arith,
        includes-without u v (likes_in p db id),
        includes-likes p lawful db id v,
        eq_iff u v,
      )

  pub undo_dislike-kind :
      (v : String)
      → kind_in [] (without u (dislikes_in p db id)) v
        ≡ (if u === v then none else keep (λ k. not (is_like k)) (reaction p db id v))
  undo_dislike-kind v = ground (
    arith,
    includes-without u v (dislikes_in p db id),
    includes-dislikes p lawful db id v,
    eq_iff u v,
  )

module _ (p : Prisma) (lawful : IsLawful p) (db : p.Db) (id u : String) (row : AnswerRow)
    (stored : p.find_unique db id ≡ some row) where
  pub found : find_by_id p id db ≡ (ok (some (to_entity row (p.find_reactions db answer id))), db)
  unfolding find_by_id
  found = rw stored

  -- What each operation comes to where its guard lets it pass.
  abbrev pub Runs : (Action p.Db Answer) → Option (List String) → Option (List String) → Type 0
  Runs call likes dislikes =
      let db' = write_reactions p id likes dislikes db in
      call db ≡ (ok (to_entity row (p.find_reactions db' answer id)), db')

  pub like-run :
      reaction p db id u ≢ some like
      → Runs
          (like_answer (postgres p) id u)
          (some (likes_in p db id ++ u ∷ []))
          (some (dropped u (dislikes_in p db id)))
  unfolding like_answer to_entity
  like-run h = ground (
    arith,
    found,
    includes-likes p lawful db id u,
    update-reactions p lawful (some (likes_in p db id ++ u ∷ []))
        (some (dropped u (dislikes_in p db id))) db id row stored,
  )

  pub dislike-run :
      reaction p db id u ≢ some dislike
      → Runs
          (dislike_answer (postgres p) id u)
          (some (dropped u (likes_in p db id)))
          (some (dislikes_in p db id ++ u ∷ []))
  unfolding dislike_answer to_entity
  dislike-run h = ground (
    arith,
    found,
    includes-dislikes p lawful db id u,
    update-reactions p lawful (some (dropped u (likes_in p db id)))
        (some (dislikes_in p db id ++ u ∷ [])) db id row stored,
  )

  pub unlike-run :
      reaction p db id u ≡ some like
      → Runs (unlike_answer (postgres p) id u) (some (without u (likes_in p db id))) none
  unfolding unlike_answer to_entity
  unlike-run h = ground (
    arith,
    found,
    includes-likes p lawful db id u,
    update-reactions p lawful (some (without u (likes_in p db id))) none db id row stored,
  )

  pub undo_dislike-run :
      reaction p db id u ≡ some dislike
      → Runs (undo_dislike_answer (postgres p) id u) none (some (without u (dislikes_in p db id)))
  unfolding undo_dislike_answer to_entity
  undo_dislike-run h = ground (
    arith,
    found,
    includes-dislikes p lawful db id u,
    update-reactions p lawful none (some (without u (dislikes_in p db id))) db id row stored,
  )
