-- ===== src/Ancestry/Depths.antt =====
-- Depths and identities in the chains that are computed.
use qa_api.Common.{
  ℕ, suc, String, Bool, false, ◌≡◌, refl, ◌===◌, ◌||◌, some, List, [], ◌∷◌, map, arith,
  Option-cases, eq_refl, inl, inr,
}
use qa_api.Content.{question, answer, ParentReference, AncestorReference, Answer, Question}
use qa_api.Ancestry.Chain.{
  entry, deeper, listed, behind_answer, Lineage, reference, under_question, under_answer, inherited,
}

-- The depths count up from `n`.
abbrev pub CountsFrom : ℕ → List AncestorReference → Type 0
CountsFrom n [] = Unit
CountsFrom n (a ∷ xs) = (a.depth ≡ n) × CountsFrom (suc n) xs

abbrev pub mentions : String → List AncestorReference → Bool
mentions id [] = false
mentions id (a ∷ xs) = a.id === id || mentions id xs

pub CountsFrom-map-deeper :
    (n : ℕ) (xs : List AncestorReference) → CountsFrom n xs → CountsFrom (suc n) (map deeper xs)
CountsFrom-map-deeper n [] h = tt
CountsFrom-map-deeper n (a ∷ xs) h = (omega arith, CountsFrom-map-deeper (suc n) xs h.1)

pub mentions-map-deeper :
    (id : String) (xs : List AncestorReference) → mentions id (map deeper xs) ≡ mentions id xs
mentions-map-deeper id [] = refl
mentions-map-deeper id (a ∷ xs) = rw (mentions-map-deeper id xs)

behind_answer-CountsFrom :
    (q : Question) (xs : List AncestorReference)
    → CountsFrom 0 xs
    → CountsFrom 1 (behind_answer q xs)
behind_answer-CountsFrom q [] h = (refl, tt)
behind_answer-CountsFrom q (a ∷ xs) h = CountsFrom-map-deeper 0 (a ∷ xs) h

pub under_question-CountsFrom :
    (q : Question) → CountsFrom 0 (listed q.ancestors) → CountsFrom 0 (under_question q).ancestors
unfolding under_question
under_question-CountsFrom q h = (refl, CountsFrom-map-deeper 0 (listed q.ancestors) h)

pub under_answer-CountsFrom :
    (a : Answer) (q : Question)
    → CountsFrom 0 (listed q.ancestors)
    → CountsFrom 0 (under_answer a q).ancestors
unfolding under_answer
under_answer-CountsFrom a q h = (refl, behind_answer-CountsFrom q (listed q.ancestors) h)

pub inherited-CountsFrom :
    (q : Question) → CountsFrom 0 (listed q.ancestors) → CountsFrom 0 (inherited q).ancestors
unfolding inherited
inherited-CountsFrom q h = elim (Option-cases q.parent) [
  | inl alone ↦ rw alone tt
  | inr (p, e) ↦ rw e (refl, CountsFrom-map-deeper 0 (listed q.ancestors) h)
]

-- Under an explicit parent the chain begins with that parent.
abbrev pub StartsAtParent : Lineage → Type 0
StartsAtParent l =
    (p : ParentReference) × (l.parent ≡ some p)
    × (rest : List AncestorReference) × (l.ancestors ≡ entry p.id p.type 0 ∷ rest)

inherited_head :
    (q : Question) (p : ParentReference)
    → q.parent ≡ some p
    → StartsAtParent (inherited q)
    → q.id ≡ p.id
unfolding inherited
inherited_head q p e (r, same, rest, head) = ground arith

-- A new answer under an explicit question or answer has that parent at the head of its chain. One
-- that inherits the parent of its question, where the question is not its own parent, has not.
lineage_head :
    (q : Question) (a : Answer) (p : ParentReference)
    → q.parent ≡ some p
    → (q.id === p.id) ≡ false
    → StartsAtParent (under_question q)
      × StartsAtParent (under_answer a q)
      × (StartsAtParent (inherited q) → ⊥)
unfolding under_question under_answer inherited
lineage_head q a p e ne = (
  (reference q.id question, refl, map deeper (listed q.ancestors), refl),
  (reference a.id answer, refl, behind_answer q (listed q.ancestors), refl),
  λ h. cc (inherited_head q p e h, ne, eq_refl q.id),
)

-- An answer under an answer of a question that has ancestors: the question itself is missing from
-- the chain, although it stands between the answer and those ancestors.
under_answer_skips_question :
    (a : Answer) (q : Question) (first : AncestorReference) (rest : List AncestorReference)
    → q.ancestors ≡ some (first ∷ rest)
    → mentions q.id (first ∷ rest) ≡ false
    → (a.id === q.id) ≡ false
    → mentions q.id (under_answer a q).ancestors ≡ false
unfolding under_answer
under_answer_skips_question a q first rest e out ne =
    rw (e, mentions-map-deeper q.id (first ∷ rest), out, ne)
