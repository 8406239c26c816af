-- ===== src/Ancestry/Backfilled.antt =====
-- What scripts/backfill-ancestors.ts writes to questions and to answers.
use qa_api.Common.{
  ℕ, zero, suc, ◌≤◌, String, false, ◌≡◌, refl, ◌===◌, inl, sym, ◌∙◌, take, drop, inr, some, List,
  [], ◌∷◌, ◌++◌, map, length, arith, ap, length-drop, Option-cases,
}
use qa_api.Content.{answer, AncestorReference}
use qa_api.Ancestry.Chain.{entry, deeper}
use qa_api.Ancestry.Depths.{CountsFrom, mentions, mentions-map-deeper}
use qa_api.Ancestry.Backfill.{
  QuestionDoc, AnswerDoc, Documents, get_question, truthy, chain_of, question_update, Update,
  answer_update, write_batches, or_question, type_of, first_reference, write_batch,
}
use qa_api.Ancestry.Climb.{compute_ancestors-Returns}
use qa_api.Ancestry.Collected.{IsDistinct, IsLinked, compute_ancestors-IsCollected}

-- A chain as the script means it: depths from 0, no id twice, not the question itself, each entry
-- under the next, at most 50 of them.
abbrev pub IsChain : Documents → String → List AncestorReference → Type 0
IsChain c id xs =
    CountsFrom 0 xs × IsDistinct xs × (mentions id xs ≡ false) × IsLinked c xs × (length xs ≤ 50)

chain_of-Returns :
    (c : Documents) (q : QuestionDoc)
    → (xs : List AncestorReference) × (chain_of c q ≡ some xs) × IsChain c q.id xs
unfolding chain_of
chain_of-Returns c q = elim (Option-cases (truthy q.parent_content_id)) [
  | inl alone ↦ ([], ground arith, (tt, tt, refl, tt, omega arith))
  | inr (p, e) ↦
      let type = or_question (type_of c p) in
      let (xs, ends) = compute_ancestors-Returns c 50 p type (q.id ∷ []) 0 50 (omega arith) in
      let (_, counts, distinct, (avoids, _), linked, len) =
        compute_ancestors-IsCollected c 51 p type (q.id ∷ []) 0 50 xs ends in
      (xs, ground arith, (counts, distinct, avoids, linked, len))
]

-- For every question the script ends with an update of that question, whatever the documents refer
-- to, cycles included: its chain counts up from depth 0, holds no id twice and not the question
-- itself, links each entry to the next by the documents, has at most 50 entries, and the parent
-- that is written is the first of them.
pub question_update-Returns :
    (c : Documents) (q : QuestionDoc)
    → (u : Update) × (question_update c q ≡ some u)
      × (u.id ≡ q.id)
      × IsChain c q.id u.ancestors
      × (u.parent ≡ first_reference u.ancestors)
unfolding question_update
question_update-Returns c q =
    let (xs, e, chain) = chain_of-Returns c q in
    (
      record { id = q.id; ancestors = xs; parent = first_reference xs },
      ground arith,
      refl,
      chain,
      refl,
    )

-- After the questions come the answers: the chain of an answer begins with the answer itself, and
-- when its question was given a chain that is not empty, the question is not in the answer's chain.
pub answer_update_skips_question :
    (before after : Documents) (a : AnswerDoc) (q stored : QuestionDoc) (u : Update)
    (first : AncestorReference) (rest : List AncestorReference)
    → question_update before q ≡ some u
    → u.ancestors ≡ first ∷ rest
    → stored ≡ record q { ancestors = some u.ancestors }
    → get_question after.questions a.question ≡ some stored
    → (a.id === q.id) ≡ false
    → (answer_update after a).ancestors ≡ entry a.id answer 0 ∷ map deeper u.ancestors
      × (mentions q.id (answer_update after a).ancestors ≡ false)
unfolding answer_update
answer_update_skips_question before after a q stored u first rest e some_chain same found ne =
    let (u', e', _, (_, _, out, _, _), _) = question_update-Returns before q in
    let behind_question : (answer_update after a).ancestors
        ≡ entry a.id answer 0 ∷ map deeper u.ancestors =
      ground arith in
    (
      behind_question,
      ap (mentions q.id) behind_question ∙ ground (arith, mentions-map-deeper q.id u.ancestors),
    )

take-drop {ℓ} : {A : Type ℓ} (n : ℕ) (xs : List A) → take n xs ++ drop n xs ≡ xs
take-drop zero xs = refl
take-drop (suc n) [] = refl
take-drop (suc n) (x ∷ xs) = rw (take-drop n xs)

map-append {ℓ ℓ'} :
    {A : Type ℓ} {B : Type ℓ'} (f : A → B) (xs ys : List A)
    → map f (xs ++ ys) ≡ map f xs ++ map f ys
map-append f [] ys = refl
map-append f (x ∷ xs) ys = rw (map-append f xs ys)

append-nil {ℓ} : {A : Type ℓ} (xs : List A) → xs ++ [] ≡ xs
append-nil [] = refl
append-nil (x ∷ xs) = rw (append-nil xs)

module _ {Db D : Type 0} (bulk_write : List Update → Db → Db) (update_of : D → Update)
    (in_order : (us vs : List Update) (db : Db)
      → bulk_write (us ++ vs) db ≡ bulk_write vs (bulk_write us db)) where
  write_batch-append :
      (ds es : List D) (db : Db)
      → write_batch bulk_write update_of es (write_batch bulk_write update_of ds db)
        ≡ write_batch bulk_write update_of (ds ++ es) db
  write_batch-append [] es db = refl
  write_batch-append (d ∷ ds) [] db = rw (append-nil ds)
  write_batch-append (d ∷ ds) (e ∷ es) db =
      rw (map-append update_of ds (e ∷ es))
        (sym (in_order (map update_of (d ∷ ds)) (map update_of (e ∷ es)) db))

  -- With fuel for each document the loop over batches ends, and it writes what one bulk write of
  -- the updates of all documents, in their order, would write, where two bulk writes one after the
  -- other write what a bulk write of both lists writes.
  write_batches-write_batch :
      (fuel : ℕ) (ds : List D) (db : Db)
      → length ds ≤ fuel
      → write_batches bulk_write update_of fuel ds db
        ≡ some (write_batch bulk_write update_of ds db)
  unfolding write_batches
  write_batches-write_batch fuel [] db h = refl
  write_batches-write_batch zero (d ∷ ds) db h = absurd (omega arith)
  write_batches-write_batch (suc fuel) (d ∷ ds) db h =
      write_batches-write_batch fuel (drop 100 (d ∷ ds))
        (write_batch bulk_write update_of (take 100 (d ∷ ds)) db) (omega (arith, length-drop 99 ds))
      ∙ ap some (
          write_batch-append (take 100 (d ∷ ds)) (drop 100 (d ∷ ds)) db
          ∙ ap (λ es. write_batch bulk_write update_of es db) (take-drop 100 (d ∷ ds)))
