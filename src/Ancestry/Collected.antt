-- ===== src/Ancestry/Collected.antt =====
-- What computeAncestors of scripts/backfill-ancestors.ts collects.
use qa_api.Common.{
  ℕ, zero, suc, ◌+◌, ◌-◌, ◌≤◌, String, false, ◌≡◌, refl, inl, inr, some, List, [], ◌∷◌, map,
  includes, length, arith, eq_iff,
}
use qa_api.Content.{ContentType, AncestorReference}
use qa_api.Ancestry.Chain.{entry, deeper}
use qa_api.Ancestry.Depths.{CountsFrom, mentions, CountsFrom-map-deeper, mentions-map-deeper}
use qa_api.Ancestry.Backfill.{Documents, next_parent, compute_ancestors}
use qa_api.Ancestry.Climb.{climb_cases}

-- No id stands twice.
abbrev pub IsDistinct : List AncestorReference → Type 0
IsDistinct [] = Unit
IsDistinct (a ∷ xs) = (mentions a.id xs ≡ false) × IsDistinct xs

-- Each entry stands under the next.
abbrev pub IsLinked : Documents → List AncestorReference → Type 0
IsLinked c [] = Unit
IsLinked c (a ∷ []) = Unit
IsLinked c (a ∷ b ∷ xs) = (next_parent c a.id a.type ≡ some (b.id, b.type)) × IsLinked c (b ∷ xs)

-- No id of the set is mentioned.
abbrev pub Avoids : List String → List AncestorReference → Type 0
Avoids [] xs = Unit
Avoids (v ∷ vs) xs = (mentions v xs ≡ false) × Avoids vs xs

IsDistinct-map-deeper : (xs : List AncestorReference) → IsDistinct xs → IsDistinct (map deeper xs)
IsDistinct-map-deeper [] h = tt
IsDistinct-map-deeper (a ∷ xs) h =
    (rw (mentions-map-deeper a.id xs, h.0) refl, IsDistinct-map-deeper xs h.1)

IsLinked-map-deeper :
    (c : Documents) (xs : List AncestorReference) → IsLinked c xs → IsLinked c (map deeper xs)
IsLinked-map-deeper c [] h = tt
IsLinked-map-deeper c (a ∷ []) h = tt
IsLinked-map-deeper c (a ∷ b ∷ xs) h = (h.0, IsLinked-map-deeper c (b ∷ xs) h.1)

length-map-deeper : (xs : List AncestorReference) → length (map deeper xs) ≡ length xs
length-map-deeper [] = refl
length-map-deeper (a ∷ xs) = rw (length-map-deeper xs)

-- An id that is not in the set may be put in front of a chain that avoids the set.
Avoids-entry :
    (visited : List String) (id : String) (type : ContentType) (xs : List AncestorReference)
    → includes visited id ≡ false
    → Avoids visited xs
    → Avoids visited (entry id type 0 ∷ map deeper xs)
Avoids-entry [] id type xs h k = tt
Avoids-entry (v ∷ vs) id type xs h k = (
  ground (arith, mentions-map-deeper v xs, eq_iff v id, eq_iff id v),
  Avoids-entry vs id type xs (ground arith) k.1,
)

Avoids-nil : (visited : List String) → Avoids visited []
Avoids-nil [] = tt
Avoids-nil (v ∷ vs) = (refl, Avoids-nil vs)

-- The chain begins with the parent that the climb began at.
abbrev pub BeginsWith : String → ContentType → List AncestorReference → Type 0
BeginsWith id type [] = Unit
BeginsWith id type (a ∷ xs) = (a.id ≡ id) × (a.type ≡ type)

abbrev pub IsCollected :
    Documents → String → ContentType → List String → ℕ → List AncestorReference → Type 0
IsCollected c id type visited bound xs =
    BeginsWith id type xs
    × CountsFrom 0 xs
    × IsDistinct xs
    × Avoids visited xs
    × IsLinked c xs
    × (length xs ≤ bound)

link_entry :
    (c : Documents) (id : String) (type : ContentType) (p : String × ContentType)
    (ys : List AncestorReference)
    → next_parent c id type ≡ some p
    → BeginsWith p.0 p.1 ys
    → IsLinked c ys
    → IsLinked c (entry id type 0 ∷ map deeper ys)
link_entry c id type p [] up b h = tt
link_entry c id type p (y ∷ ys) up b h = (rw (up, b.0, b.1) refl, IsLinked-map-deeper c (y ∷ ys) h)

collect_entry :
    (c : Documents) (id : String) (type : ContentType) (p : String × ContentType)
    (visited : List String) (bound n : ℕ) (ys : List AncestorReference)
    → suc bound ≤ n
    → includes visited id ≡ false
    → next_parent c id type ≡ some p
    → IsCollected c p.0 p.1 (id ∷ visited) bound ys
    → IsCollected c id type visited n (entry id type 0 ∷ map deeper ys)
collect_entry c id type p visited bound n ys room new up
      (b, counts, distinct, (fresh, avoids), linked, len) =
    (
      (refl, refl),
      (refl, CountsFrom-map-deeper 0 ys counts),
      (rw (mentions-map-deeper id ys, fresh) refl, IsDistinct-map-deeper ys distinct),
      Avoids-entry visited id type ys new avoids,
      link_entry c id type p ys up b linked,
      omega (arith, length-map-deeper ys),
    )

pub compute_ancestors-IsCollected :
    (c : Documents) (fuel : ℕ) (id : String) (type : ContentType) (visited : List String)
    (depth max : ℕ) (xs : List AncestorReference)
    → compute_ancestors c fuel id type visited depth max ≡ some xs
    → IsCollected c id type visited (max - depth) xs
unfolding compute_ancestors
compute_ancestors-IsCollected c zero id type visited depth max xs h = ground arith
compute_ancestors-IsCollected c (suc fuel) id type visited depth max xs h =
    elim (climb_cases c fuel id type visited depth max xs h) [
      | inl e ↦ rw e (tt, tt, tt, Avoids-nil visited, tt, omega arith)
      | inr (below, new, ys, e, inl alone) ↦
          rw (e, alone)
            (
              (refl, refl),
              (refl, tt),
              (refl, tt),
              Avoids-entry visited id type [] new (Avoids-nil visited),
              tt,
              ground arith,
            )
      | inr (below, new, ys, e, inr (p, up, above)) ↦ rw e (
          collect_entry c id type p visited (max - (depth + 1)) (max - depth) ys (ground arith) new
            up
            (compute_ancestors-IsCollected c fuel p.0 p.1 (id ∷ visited) (depth + 1) max ys above))
    ]
