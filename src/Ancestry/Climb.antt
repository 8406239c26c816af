-- ===== src/Ancestry/Climb.antt =====
-- The chains of scripts/backfill-ancestors.ts: that the climb ends, where it ends, and what it
-- collects on the way.
use qa_api.Common.{
  ℕ, zero, suc, ◌+◌, ◌≤◌, String, true, false, ◌≡◌, refl, ◌||◌, leb, ◌⊎◌, inl, inr, none, some,
  List, [], ◌∷◌, map, includes, arith, Option-cases, Bool-cases,
}
use qa_api.Content.{ContentType, AncestorReference}
use qa_api.Ancestry.Chain.{entry, deeper}
use qa_api.Ancestry.Backfill.{Documents, next_parent, compute_ancestors}

-- One step of the climb: it stops, it reaches the top, or it goes on.
module _ (c : Documents) (fuel : ℕ) (id : String) (type : ContentType) (visited : List String)
    (depth max : ℕ) where
  climb_stops :
      (leb max depth || includes visited id) ≡ true
      → compute_ancestors c (suc fuel) id type visited depth max ≡ some []
  unfolding compute_ancestors
  climb_stops h = ground arith

  climb_tops :
      (leb max depth || includes visited id) ≡ false
      → next_parent c id type ≡ none
      → compute_ancestors c (suc fuel) id type visited depth max ≡ some (entry id type 0 ∷ [])
  unfolding compute_ancestors
  climb_tops h top = ground arith

  climb_goes_on :
      (p : String × ContentType) (xs : List AncestorReference)
      → (leb max depth || includes visited id) ≡ false
      → next_parent c id type ≡ some p
      → compute_ancestors c fuel p.0 p.1 (id ∷ visited) (depth + 1) max ≡ some xs
      → compute_ancestors c (suc fuel) id type visited depth max
        ≡ some (entry id type 0 ∷ map deeper xs)
  unfolding compute_ancestors
  climb_goes_on p xs h up above = ground arith

  climb_hangs :
      (p : String × ContentType)
      → (leb max depth || includes visited id) ≡ false
      → next_parent c id type ≡ some p
      → compute_ancestors c fuel p.0 p.1 (id ∷ visited) (depth + 1) max ≡ none
      → compute_ancestors c (suc fuel) id type visited depth max ≡ none
  unfolding compute_ancestors
  climb_hangs p h up above = ground arith

-- The climb ends: one call more than the depths that are left gives a chain, whatever the
-- documents refer to.
pub compute_ancestors-Returns :
    (c : Documents) (left : ℕ) (id : String) (type : ContentType) (visited : List String)
    (depth max : ℕ)
    → max ≤ depth + left
    → (xs : List AncestorReference) × (compute_ancestors c (suc left) id type visited depth max
        ≡ some xs)
compute_ancestors-Returns c zero id type visited depth max h =
    ([], climb_stops c 0 id type visited depth max (ground arith))
compute_ancestors-Returns c (suc left) id type visited depth max h =
    elim (Bool-cases (leb max depth || includes visited id)) [
      | inl stop ↦ ([], climb_stops c (suc left) id type visited depth max stop)
      | inr go ↦ elim (Option-cases (next_parent c id type)) [
        | inl top ↦ (_, climb_tops c (suc left) id type visited depth max go top)
        | inr (p, up) ↦
            let (xs, e) =
              compute_ancestors-Returns c left p.0 p.1 (id ∷ visited) (depth + 1) max
                (omega arith) in
            (_, climb_goes_on c (suc left) id type visited depth max p xs go up e)
      ]
    ]

-- The cases of a step, read off the result.
pub climb_cases :
    (c : Documents) (fuel : ℕ) (id : String) (type : ContentType) (visited : List String)
    (depth max : ℕ) (xs : List AncestorReference)
    → compute_ancestors c (suc fuel) id type visited depth max ≡ some xs
    → (xs ≡ [])
      ⊎ ((leb max depth ≡ false)
          × (includes visited id ≡ false)
          × (ys : List AncestorReference) × (xs ≡ entry id type 0 ∷ map deeper ys)
          × ((ys ≡ [])
              ⊎ ((p : String × ContentType) × (next_parent c id type ≡ some p)
                  × (compute_ancestors c fuel p.0 p.1 (id ∷ visited) (depth + 1) max ≡ some ys))))
unfolding compute_ancestors
climb_cases c fuel id type visited depth max xs h =
    elim (Bool-cases (leb max depth || includes visited id)) [
      | inl stop ↦ inl (ground (arith, climb_stops c fuel id type visited depth max stop))
      | inr go ↦ elim (Option-cases (next_parent c id type)) [
        | inl top ↦ inr (
          ground arith,
          ground arith,
          [],
          ground (arith, climb_tops c fuel id type visited depth max go top),
          inl refl,
        )
        | inr (p, up) ↦
            elim (Option-cases (compute_ancestors c fuel p.0 p.1 (id ∷ visited) (depth + 1) max)) [
              | inl never ↦
                  absurd (cc (climb_hangs c fuel id type visited depth max p go up never, h))
              | inr (ys, above) ↦ inr (
                ground arith,
                ground arith,
                ys,
                ground (arith, climb_goes_on c fuel id type visited depth max p ys go up above),
                inr (p, up, above),
              )
            ]
      ]
    ]
