-- ===== src/Question/Cleaned.antt =====
-- The loops of deleteQuestion, over tables and services that meet their laws.
use qa_api.Common.{
  String, Bool, true, false, ◌≡◌, refl, ◌===◌, Option, none, some, List, [], ◌∷◌, map, select, any,
  all, arith, eq_refl, ap, sym, ◌∙◌, Bool-cases, inl, inr,
}
use qa_api.Content.{AncestorReference, Answer}
use qa_api.Effect.{ok}
use qa_api.Answer.Manager.{delete}
use qa_api.Question.Table.{QuestionRow, Table, IsTable, has_id, changed}
use qa_api.Question.Source.{QuestionModel, columns_of}
use qa_api.Question.Manager.{
  AnswerRepository, Services, each, names, stripped, reindexed, detach, forget_in_question,
  forget_in_answer,
}
use qa_api.Question.Loops.{
  each-ends, Covered, Covered-map, Covered-nothing, stripped-gone, any-reindexed,
}
use qa_api.Question.Writes.{
  IsAnswers, IsApart, answer_has_id, with_ancestors, ancestors_to, detach-done,
  forget_in_question-done, forget_in_answer-done,
}

-- The id and the parent of each question, and the id and the question of each answer.
abbrev pub head : QuestionRow → String × Option String
head r = (r.id, r.parent_id)

abbrev pub answer_head : Answer → String × String
answer_head a = (a.id, a.question)

abbrev pub has_head : {B : Type 0} → String → String × B → Bool
has_head id h = h.0 === id

pub any-head :
    (x : String) (rs : List QuestionRow) → any (has_head x) (map head rs) ≡ any (has_id x) rs
any-head x [] = refl
any-head x (r ∷ rs) = rw (any-head x rs) refl

any-answer_head :
    (x : String) (rs : List Answer)
    → any (has_head x) (map answer_head rs) ≡ any (answer_has_id x) rs
any-answer_head x [] = refl
any-answer_head x (r ∷ rs) = rw (any-answer_head x rs) refl

heads-changed :
    (x : String) (xs : List AncestorReference) (rs : List QuestionRow)
    → map head (map (changed x (ancestors_to xs)) rs) ≡ map head rs
unfolding columns_of
heads-changed x xs [] = refl
heads-changed x xs (r ∷ rs) = elim (Bool-cases (r.id === x)) [
  | inl same ↦ rw (same, heads-changed x xs rs) refl
  | inr other ↦ rw (other, heads-changed x xs rs) refl
]

answer_heads-changed :
    (x : String) (xs : List AncestorReference) (rs : List Answer)
    → map answer_head (map (with_ancestors x xs) rs) ≡ map answer_head rs
answer_heads-changed x xs [] = refl
answer_heads-changed x xs (r ∷ rs) = elim (Bool-cases (r.id === x)) [
  | inl same ↦ rw (same, answer_heads-changed x xs rs) refl
  | inr other ↦ rw (other, answer_heads-changed x xs rs) refl
]

-- All elements have an id that one of the heads has.
abbrev pub Known : {E B : Type 0} → (E → String) → List (String × B) → List E → Type 0
Known id hs xs = all (λ x. any (has_head (id x)) hs) xs ≡ true

Known-more :
    {E B : Type 0} (id : E → String) (h : String × B) (hs : List (String × B)) (xs : List E)
    → Known id hs xs
    → Known id (h ∷ hs) xs
Known-more id h hs [] k = refl
Known-more id h hs (x ∷ xs) k = ground (arith, Known-more id h hs xs)

pub Known-heads : (rs : List QuestionRow) → Known (λ r. r.id) (map head rs) rs
Known-heads [] = refl
Known-heads (r ∷ rs) =
    ground (arith, Known-heads rs, Known-more (λ x. x.id) (head r) (map head rs) rs, eq_refl r.id)

pub Known-answer_heads : (rs : List Answer) → Known (λ r. r.id) (map answer_head rs) rs
Known-answer_heads [] = refl
Known-answer_heads (r ∷ rs) = ground (
  arith,
  Known-answer_heads rs,
  Known-more (λ x. x.id) (answer_head r) (map answer_head rs) rs,
  eq_refl r.id,
)

pub Known-select :
    {E B : Type 0} (id : E → String) (hs : List (String × B)) (p : E → Bool) (xs : List E)
    → Known id hs xs
    → Known id hs (select p xs)
Known-select id hs p [] k = refl
Known-select id hs p (x ∷ xs) k = ground (arith, Known-select id hs p xs)

abbrev pub names_in : String → QuestionRow → Bool
names_in id r = names id r.ancestors

abbrev pub named_by_answer : String → Answer → Bool
named_by_answer id a = names id a.ancestors

module _ {Db Doc : Type 0} (t : Table Db) (repo : AnswerRepository Db) (services : Services Db Doc)
    (rows : Db → List QuestionRow) (answers : Db → List Answer) (table : IsTable t rows answers)
    (is_answers : IsAnswers repo rows answers) (apart : IsApart services rows answers) where
  pub answers_unlisted :
      (xs : List Answer) (db : Db)
      → (db' : Db) × (each (λ (a : Answer). services.sync_answer (delete a.id)) xs db
          ≡ (ok tt, db'))
        × (rows db' ≡ rows db)
        × (answers db' ≡ answers db)
  answers_unlisted xs db =
      let (db', done, (same, same2)) =
        each-ends (λ (a : Answer). services.sync_answer (delete a.id))
          (λ db' ys. (rows db' ≡ rows db) × (answers db' ≡ answers db))
          (λ a ys db1 kept.
            let (db2, done, same, same2) = apart.answer_synced (delete a.id) db1 in
            (db2, done, (same ∙ kept.0, same2 ∙ kept.1)))
          xs db (refl, refl) in
      (db', done, same, same2)

  pub still_there :
      (q : String) (db : Db) (hs : List (String × Option String))
      → map head (rows db) ≡ hs
      → any (has_head q) hs ≡ true
      → any (has_id q) (rows db) ≡ true
  still_there q db hs same h = sym (any-head q (rows db)) ∙ ap (any (has_head q)) same ∙ h

  pub children_detached :
      (id : String) (xs : List QuestionModel) (db : Db)
      → Known (λ q. q.id) (map head (rows db)) xs
      → (db' : Db) × (each (detach t repo services id) xs db ≡ (ok tt, db'))
        × (map head (rows db') ≡ map head (rows db))
        × (answers db' ≡ answers db)
  children_detached id xs db k =
      let (db', done, (heads, same, _)) =
        each-ends (detach t repo services id)
          (λ db' ys.
            (map head (rows db') ≡ map head (rows db))
            × (answers db' ≡ answers db)
            × Known (λ q. q.id) (map head (rows db)) ys)
          (λ q ys db1 kept.
            let here : any (has_head q.id) (map head (rows db)) ≡ true = ground (arith, kept.2) in
            let rest : Known (λ x. x.id) (map head (rows db)) ys = ground (arith, kept.2) in
            let (db2, done, after, same) =
              detach-done t repo services rows answers table is_answers apart id q db1
                (still_there q.id db1 (map head (rows db)) kept.0 here) in
            (
              db2,
              done,
              (
                ap (map head) after
                    ∙ heads-changed q.id (stripped id q.ancestors) (rows db1)
                    ∙ kept.0,
                same ∙ kept.1,
                rest,
              ),
            ))
          xs db (refl, refl, k) in
      (db', done, heads, same)

  forgotten-step :
      (id x : String) (zs : List AncestorReference) (xs : List String) (rs : List QuestionRow)
      → names id (some zs) ≡ false
      → Covered (names_in id) (λ r. r.id) (x ∷ xs) rs
      → Covered (names_in id) (λ r. r.id) xs (map (changed x (ancestors_to zs)) rs)
  unfolding columns_of
  forgotten-step id x zs xs rs clean =
      Covered-map (names_in id) (λ r. r.id) x xs (changed x (ancestors_to zs))
        (λ r. elim (Bool-cases (r.id === x)) [
          | inl same ↦ rw same refl
          | inr other ↦ rw other refl
        ])
        (λ r same. rw same clean) (λ r other. rw other refl) rs

  clean :
      (id : String) (o : Option (List AncestorReference))
      → names id (some (reindexed 0 (stripped id o))) ≡ false
  clean id none = refl
  clean id (some xs) = any-reindexed id 0 (stripped id (some xs)) ∙ stripped-gone id xs

  pub questions_forgotten :
      (id : String) (xs : List QuestionModel) (db : Db)
      → Known (λ q. q.id) (map head (rows db)) xs
      → Covered (names_in id) (λ r. r.id) (map (λ q. q.id) xs) (rows db)
      → (db' : Db) × (each (forget_in_question t repo services id) xs db ≡ (ok tt, db'))
        × (map head (rows db') ≡ map head (rows db))
        × (answers db' ≡ answers db)
        × (any (names_in id) (rows db') ≡ false)
  questions_forgotten id xs db k cover =
      let (db', done, (heads, same, _, covered)) =
        each-ends (forget_in_question t repo services id)
          (λ db' ys.
            (map head (rows db') ≡ map head (rows db))
            × (answers db' ≡ answers db)
            × Known (λ q. q.id) (map head (rows db)) ys
            × Covered (names_in id) (λ r. r.id) (map (λ q. q.id) ys) (rows db'))
          (λ q ys db1 kept.
            let here : any (has_head q.id) (map head (rows db)) ≡ true = ground (arith, kept.2) in
            let rest : Known (λ x. x.id) (map head (rows db)) ys = ground (arith, kept.2) in
            let zs : List AncestorReference = reindexed 0 (stripped id q.ancestors) in
            let (db2, done, after, same) =
              forget_in_question-done t repo services rows answers table is_answers apart id q db1
                (still_there q.id db1 (map head (rows db)) kept.0 here) in
            (
              db2,
              done,
              (
                ap (map head) after ∙ heads-changed q.id zs (rows db1) ∙ kept.0,
                same ∙ kept.1,
                rest,
                rw after (
                    forgotten-step id q.id zs (map (λ x. x.id) ys) (rows db1) (clean id q.ancestors)
                      kept.3),
              ),
            ))
          xs db (refl, refl, k, cover) in
      (db', done, heads, same, Covered-nothing (names_in id) (λ r. r.id) (rows db') covered)

  answer_there :
      (q : String) (db : Db) (hs : List (String × String))
      → map answer_head (answers db) ≡ hs
      → any (has_head q) hs ≡ true
      → any (answer_has_id q) (answers db) ≡ true
  answer_there q db hs same h =
      sym (any-answer_head q (answers db)) ∙ ap (any (has_head q)) same ∙ h

  answer_forgotten-step :
      (id x : String) (zs : List AncestorReference) (xs : List String) (rs : List Answer)
      → names id (some zs) ≡ false
      → Covered (named_by_answer id) (λ r. r.id) (x ∷ xs) rs
      → Covered (named_by_answer id) (λ r. r.id) xs (map (with_ancestors x zs) rs)
  answer_forgotten-step id x zs xs rs clean =
      Covered-map (named_by_answer id) (λ r. r.id) x xs (with_ancestors x zs)
        (λ r. elim (Bool-cases (r.id === x)) [
          | inl same ↦ rw same refl
          | inr other ↦ rw other refl
        ])
        (λ r same. rw same clean) (λ r other. rw other refl) rs

  pub answers_forgotten :
      (id : String) (xs : List Answer) (db : Db)
      → Known (λ q. q.id) (map answer_head (answers db)) xs
      → Covered (named_by_answer id) (λ r. r.id) (map (λ q. q.id) xs) (answers db)
      → (db' : Db) × (each (forget_in_answer t repo services id) xs db ≡ (ok tt, db'))
        × (rows db' ≡ rows db)
        × (map answer_head (answers db') ≡ map answer_head (answers db))
        × (any (named_by_answer id) (answers db') ≡ false)
  answers_forgotten id xs db k cover =
      let (db', done, (same, heads, _, covered)) =
        each-ends (forget_in_answer t repo services id)
          (λ db' ys.
            (rows db' ≡ rows db)
            × (map answer_head (answers db') ≡ map answer_head (answers db))
            × Known (λ q. q.id) (map answer_head (answers db)) ys
            × Covered (named_by_answer id) (λ r. r.id) (map (λ q. q.id) ys) (answers db'))
          (λ a ys db1 kept.
            let here : any (has_head a.id) (map answer_head (answers db)) ≡ true =
              ground (arith, kept.2) in
            let rest : Known (λ x. x.id) (map answer_head (answers db)) ys =
              ground (arith, kept.2) in
            let zs : List AncestorReference = reindexed 0 (stripped id a.ancestors) in
            let (db2, done, same, after) =
              forget_in_answer-done t repo services rows answers table is_answers apart id a db1
                (answer_there a.id db1 (map answer_head (answers db)) kept.1 here) in
            (
              db2,
              done,
              (
                same ∙ kept.0,
                ap (map answer_head) after ∙ answer_heads-changed a.id zs (answers db1) ∙ kept.1,
                rest,
                rw after (
                    answer_forgotten-step id a.id zs (map (λ x. x.id) ys) (answers db1)
                      (clean id a.ancestors) kept.3),
              ),
            ))
          xs db (refl, refl, k, cover) in
      (
        db',
        done,
        same,
        heads,
        Covered-nothing (named_by_answer id) (λ r. r.id) (answers db') covered,
      )
