-- ===== src/Answer/Synced.antt =====
-- What the manager of answers leaves behind when the search index fails and when it does not.
use qa_api.Common.{String, ◌≡◌, ◌⊎◌, refl, Option, none, some, arith, inl, inr}
use qa_api.Content.{ContentType, question, answer, ParentReference, Answer, Question}
use qa_api.Effect.{ok, Outcome-cases}
use qa_api.Ancestry.Chain.{Lineage, under_question, under_answer, inherited, listed}
use qa_api.Ancestry.Depths.{
  CountsFrom, under_question-CountsFrom, under_answer-CountsFrom, inherited-CountsFrom,
}
use qa_api.Answer.Source.{DataSource}
use qa_api.Answer.Repository
use qa_api.Answer.Manager.{QuestionRepository, IndexClient, lineage_of, like_answer}

module _ {Db Index Doc : Type 0} (source : DataSource Db) (questions : QuestionRepository Db)
    (client : IndexClient Index Doc) where
  -- Liking an answer gives what the repository gives, value or error, and leaves the database as
  -- the repository leaves it, whatever the index does.
  pub like_ignores_index :
      (id user_id : String) (db : Db) (i : Index)
      → let (r, s) = like_answer source questions client id user_id (db, i) in
        let (r', db') = Repository.like_answer source id user_id db in (r ≡ r') × (s.0 ≡ db')
  unfolding like_answer
  like_ignores_index id user_id db i = ground arith

type-cases : (t : ContentType) → (t ≡ question) ⊎ (t ≡ answer)
type-cases question = inl refl
type-cases answer = inr refl

module _ {Db : Type 0} (source : DataSource Db) (questions : QuestionRepository Db) where
  -- The question whose chain is carried on: that of the new answer, the parent that is asked for,
  -- or the question of the answer that is asked for as the parent.
  abbrev pub IsReadFor : Question → Option ParentReference → Db → Question → Type 0
  IsReadFor q none db r = r ≡ q
  IsReadFor q (some p) db r =
      ((p.type ≡ question) × ((questions.find_by_id p.id db).0 ≡ ok r))
      ⊎ ((a : Answer) × (p.type ≡ answer)
          × ((Repository.find_by_id source p.id db).0 ≡ ok a)
          × ((questions.find_by_id a.question (Repository.find_by_id source p.id db).1).0 ≡ ok r))

  under_question_found :
      (p : ParentReference) (q : Question) (db : Db) (l : Lineage)
      → ((r : Question) → IsReadFor q (some p) db r → CountsFrom 0 (listed r.ancestors))
      → p.type ≡ question
      → (lineage_of source questions q (some p) db).0 ≡ ok l
      → CountsFrom 0 l.ancestors
  unfolding lineage_of
  under_question_found p q db l counts t e = elim (Outcome-cases (questions.find_by_id p.id db).0) [
    | inr (x, r) ↦ absurd (ground arith)
    | inl (found, r) ↦
        let same : l ≡ under_question found = ground arith in
        rw same (under_question-CountsFrom found (counts found (inl (t, r))))
  ]

  under_answer_found :
      (p : ParentReference) (q : Question) (db : Db) (l : Lineage)
      → ((r : Question) → IsReadFor q (some p) db r → CountsFrom 0 (listed r.ancestors))
      → p.type ≡ answer
      → (lineage_of source questions q (some p) db).0 ≡ ok l
      → CountsFrom 0 l.ancestors
  unfolding lineage_of
  under_answer_found p q db l counts t e =
      elim (Outcome-cases (Repository.find_by_id source p.id db).0) [
        | inr (x, r) ↦ absurd (ground arith)
        | inl (found, r) ↦
            let db' : Db = (Repository.find_by_id source p.id db).1 in
            elim (Outcome-cases (questions.find_by_id found.question db').0) [
              | inr (x, r') ↦ absurd (ground arith)
              | inl (its_question, r') ↦
                  let same : l ≡ under_answer found its_question = ground arith in
                  rw same (
                    under_answer-CountsFrom found its_question
                      (counts its_question (inr (found, t, r, r'))))
            ]
      ]

  -- Where the one question whose chain is carried on has a chain that counts 0, 1, 2, …, so has the
  -- chain that a new answer is given, whatever parent is asked for, when the parent is found. That
  -- question is the answer's own, the parent, or the question of the parent.
  pub lineage_of-CountsFrom :
      (q : Question) (p : Option ParentReference) (db : Db) (l : Lineage)
      → ((r : Question) → IsReadFor q p db r → CountsFrom 0 (listed r.ancestors))
      → (lineage_of source questions q p db).0 ≡ ok l
      → CountsFrom 0 l.ancestors
  unfolding lineage_of
  lineage_of-CountsFrom q none db l counts e =
      let same : l ≡ inherited q = ground arith in rw same (inherited-CountsFrom q (counts q refl))
  lineage_of-CountsFrom q (some p) db l counts e = elim (type-cases p.type) [
    | inl t ↦ under_question_found p q db l counts t e
    | inr t ↦ under_answer_found p q db l counts t e
  ]
