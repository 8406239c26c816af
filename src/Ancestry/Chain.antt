-- ===== src/Ancestry/Chain.antt =====
-- computeAncestors and computeAncestorsForAnswer, and the parent that createAnswer gives an answer.
use qa_api.Common.{ℕ, ◌+◌, String, Option, none, some, List, [], ◌∷◌, map}
use qa_api.Content.{
  ContentType, question, answer, ParentReference, AncestorReference, Answer, Question,
}

abbrev pub entry : String → ContentType → ℕ → AncestorReference
entry id type depth = record { id = id; type = type; depth = depth }

-- `{ …, depth: ancestor.depth + 1 }`
abbrev pub deeper : AncestorReference → AncestorReference
deeper a = entry a.id a.type (a.depth + 1)

-- `parentContent.ancestors`, which may be absent
abbrev pub listed : Option (List AncestorReference) → List AncestorReference
listed none = []
listed (some xs) = xs

unfoldable pub compute_ancestors :
    String → ContentType → Option (List AncestorReference) → List AncestorReference
compute_ancestors id type ancestors = entry id type 0 ∷ map deeper (listed ancestors)

-- The rest of the chain behind an answer: the ancestors of its question, or else the question.
abbrev pub behind_answer : Question → List AncestorReference → List AncestorReference
behind_answer q [] = entry q.id question 1 ∷ []
behind_answer q (a ∷ xs) = map deeper (a ∷ xs)

unfoldable pub compute_ancestors_for_answer : Answer → Question → List AncestorReference
compute_ancestors_for_answer a q = entry a.id answer 0 ∷ behind_answer q (listed q.ancestors)

-- Where a new answer stands: its parent and its ancestors.
pub record Lineage : Type 0 where
  pub parent : Option ParentReference
  pub ancestors : List AncestorReference

abbrev pub reference : String → ContentType → ParentReference
reference id type = record { id = id; type = type }

unfoldable pub under_question : Question → Lineage
unfolding compute_ancestors
under_question q = record {
  parent = some (reference q.id question);
  ancestors = compute_ancestors q.id question q.ancestors;
}

unfoldable pub under_answer : Answer → Question → Lineage
unfolding compute_ancestors_for_answer
under_answer a q = record {
  parent = some (reference a.id answer);
  ancestors = compute_ancestors_for_answer a q;
}

-- With no explicit parent: the parent of the question, and the chain from the question on.
unfoldable pub inherited : Question → Lineage
unfolding compute_ancestors
inherited q = elim q.parent [
  | none ↦ record { parent = none; ancestors = [] }
  | some parent ↦ record {
    parent = some (reference parent.id parent.type);
    ancestors = compute_ancestors q.id question q.ancestors;
  }
]
