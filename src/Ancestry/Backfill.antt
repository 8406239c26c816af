-- ===== src/Ancestry/Backfill.antt =====
-- scripts/backfill-ancestors.ts: the chains that the script writes to the documents that have none
-- yet. A document is modelled by the fields that the script reads; `parentType` is one of the two
-- content types. The script's output on the console is left out.
use qa_api.Common.{
  ℕ, zero, suc, ◌+◌, String, Bool, true, false, ◌||◌, leb, ◌===◌, if◌then◌else◌, Option, none, some,
  List, [], ◌∷◌, map, take, drop, includes,
}
use qa_api.Content.{ContentType, question, answer, ParentReference, AncestorReference}
use qa_api.Ancestry.Chain.{entry, deeper, listed}

-- The documents of the collections `questions` and `answers`.
pub record QuestionDoc : Type 0 where
  pub id : String
  pub parent_content_id : Option String
  pub ancestors : Option (List AncestorReference)

pub record AnswerDoc : Type 0 where
  pub id : String
  pub question : String

-- `allQuestions` and `allAnswers`
pub record Documents : Type 0 where
  pub questions : List QuestionDoc
  pub answers : List AnswerDoc

-- `map.get(id)` of a map into which the documents are put one after the other: the last wins.
abbrev pub get_question : List QuestionDoc → String → Option QuestionDoc
get_question [] id = none
get_question (q ∷ qs) id = elim (get_question qs id) [
  | some later ↦ some later
  | none ↦ if q.id === id then some q else none
]

abbrev pub get_answer : List AnswerDoc → String → Option AnswerDoc
get_answer [] id = none
get_answer (a ∷ rest) id = elim (get_answer rest id) [
  | some later ↦ some later
  | none ↦ if a.id === id then some a else none
]

-- An absent id and an empty one are both false to `if`.
abbrev pub truthy : Option String → Option String
truthy none = none
truthy (some s) = if s === "" then none else some s

-- In which collection an id is found; questions come first.
abbrev pub type_of : Documents → String → Option ContentType
type_of c id = elim (get_question c.questions id) [
  | some _ ↦ some question
  | none ↦ elim (get_answer c.answers id) [ some _ ↦ some answer | none ↦ none ]
]

abbrev typed : Documents → String → Option (String × ContentType)
typed c id = elim (type_of c id) [ some t ↦ some (id, t) | none ↦ none ]

-- The next parent of a parent: the question of an answer, or what a question was asked under.
unfoldable pub next_parent : Documents → String → ContentType → Option (String × ContentType)
next_parent c id answer = elim (get_answer c.answers id) [
  | none ↦ none
  | some a ↦ elim (truthy (some a.question)) [ none ↦ none | some q ↦ some (q, question) ]
]
next_parent c id question = elim (get_question c.questions id) [
  | none ↦ none
  | some q ↦ elim (truthy q.parent_content_id) [ none ↦ none | some p ↦ typed c p ]
]

-- `computeAncestors`, on fuel: `none` is a recursion that has not ended. `visited` is the set of
-- ids, the latest first; each call is given a copy.
unfoldable pub compute_ancestors :
    Documents → ℕ → String → ContentType → List String → ℕ → ℕ → Option (List AncestorReference)
compute_ancestors c zero id type visited depth max = none
compute_ancestors c (suc fuel) id type visited depth max =
    let above : String × ContentType → Option (List AncestorReference) = λ p.
      elim (compute_ancestors c fuel p.0 p.1 (id ∷ visited) (depth + 1) max) [
        | none ↦ none
        | some xs ↦ some (entry id type 0 ∷ map deeper xs)
      ] in
    elim (leb max depth || includes visited id) [
      | true ↦ some []
      | false ↦ elim (next_parent c id type) [
        | none ↦ some (entry id type 0 ∷ [])
        | some p ↦ above p
      ]
    ]

-- `{ $set: { ancestors, parent } }` for one document
pub record Update : Type 0 where
  pub id : String
  pub ancestors : List AncestorReference
  pub parent : Option ParentReference

abbrev pub or_question : Option ContentType → ContentType
or_question none = question
or_question (some t) = t

-- `new Set([String(question._id)])`, depth 0 and at most 50
unfoldable pub chain_of : Documents → QuestionDoc → Option (List AncestorReference)
unfolding compute_ancestors
chain_of c q = elim (truthy q.parent_content_id) [
  | none ↦ some []
  | some p ↦ compute_ancestors c 51 p (or_question (type_of c p)) (q.id ∷ []) 0 50
]

abbrev pub first_reference : List AncestorReference → Option ParentReference
first_reference [] = none
first_reference (a ∷ _) = some (record { id = a.id; type = a.type })

unfoldable pub question_update : Documents → QuestionDoc → Option Update
unfolding chain_of
question_update c q = elim (chain_of c q) [
  | none ↦ none
  | some xs ↦ some (record { id = q.id; ancestors = xs; parent = first_reference xs })
]

abbrev question_entry : String → AncestorReference
question_entry id = entry id question 1

-- The chain of an answer: the answer itself, then its question or the ancestors of it.
abbrev behind : Option QuestionDoc → String → List AncestorReference
behind none id = []
behind (some q) id = elim (listed q.ancestors) [
  | [] ↦ question_entry id ∷ []
  | a ∷ xs ↦ map deeper (a ∷ xs)
]

unfoldable pub answer_update : Documents → AnswerDoc → Update
answer_update c a = record {
  id = a.id;
  ancestors = entry a.id answer 0 ∷ behind (get_question c.questions a.question) a.question;
  parent = none;
}

-- `parentContentId` is there, or `ancestors` is absent or empty.
abbrev pub needs_chain : QuestionDoc → Bool
needs_chain q = elim q.parent_content_id [
  | some _ ↦ true
  | none ↦ elim (listed q.ancestors) [ [] ↦ true | _ ∷ _ ↦ false ]
]

-- The collection that is written, a parameter: `bulkWrite` of a list of updates that is not empty.
module _ {Db D : Type 0} (bulk_write : List Update → Db → Db) (update_of : D → Update) where
  abbrev pub write_batch : List D → Db → Db
  write_batch [] db = db
  write_batch (d ∷ ds) db = bulk_write (map update_of (d ∷ ds)) db

  -- `for (let i = 0; i < docs.length; i += BATCH_SIZE)`, on fuel: `none` is a loop that has not
  -- ended.
  unfoldable pub write_batches : ℕ → List D → Db → Option Db
  write_batches fuel [] db = some db
  write_batches zero (d ∷ ds) db = none
  write_batches (suc fuel) (d ∷ ds) db =
      write_batches fuel (drop 100 (d ∷ ds)) (write_batch (take 100 (d ∷ ds)) db)
