-- ===== src/Question/Loops.antt =====
-- Loops that update elements of a list one after the other.
use qa_api.Common.{
  ℕ, suc, String, Bool, true, false, not, ◌≡◌, refl, ◌||◌, ◌===◌, List, [], ◌∷◌, map, select, any,
  all, includes, arith, eq_iff, eq_refl, Bool-cases, inl, inr,
}
use qa_api.Content.{AncestorReference}
use qa_api.Effect.{ok, Action}
use qa_api.Question.Manager.{each, is_entry, reindexed}

each-next :
    {Db A : Type 0} (f : A → Action Db (Unit {0})) (x : A) (xs : List A) (db db1 db2 : Db)
    → f x db ≡ (ok tt, db1)
    → each f xs db1 ≡ (ok tt, db2)
    → each f (x ∷ xs) db ≡ (ok tt, db2)
each-next f x xs db db1 db2 h l = ground arith

-- A loop each of whose steps ends, and keeps an invariant about the elements to come, ends.
pub each-ends :
    {Db A : Type 0} (f : A → Action Db (Unit {0})) (I : Db → List A → Type 0)
    → ((x : A) (xs : List A) (db : Db)
        → I db (x ∷ xs)
        → (db' : Db) × (f x db ≡ (ok tt, db')) × I db' xs)
    → (xs : List A) (db : Db) → I db xs
    → (db' : Db) × (each f xs db ≡ (ok tt, db')) × I db' []
each-ends f I step [] db h = (db, refl, h)
each-ends f I step (x ∷ xs) db h =
    let (db1, first, kept) = step x xs db h in
    let (db2, rest, last) = each-ends f I step xs db1 kept in
    (db2, each-next f x xs db db1 db2 first rest, last)

-- The elements that are bad are all among those to come, which are named by their ids.
abbrev pub Covered : {E : Type 0} → (E → Bool) → (E → String) → List String → List E → Type 0
Covered bad id xs rows = all (λ r. not (bad r) || includes xs (id r)) rows ≡ true

pub Covered-map :
    {E : Type 0} (bad : E → Bool) (id : E → String) (x : String) (xs : List String) (f : E → E)
    → ((r : E) → id (f r) ≡ id r)
    → ((r : E) → (id r === x) ≡ true → bad (f r) ≡ false)
    → ((r : E) → (id r === x) ≡ false → f r ≡ r)
    → (rows : List E) → Covered bad id (x ∷ xs) rows
    → Covered bad id xs (map f rows)
Covered-map bad id x xs f same good other [] h = refl
Covered-map bad id x xs f same good other (r ∷ rows) h =
    let rest : Covered bad id xs (map f rows) =
      Covered-map bad id x xs f same good other rows (ground arith) in
    elim (Bool-cases (id r === x)) [
      | inl here ↦ rw (good r here) rest
      | inr there ↦
          let apart : (x === id r) ≡ false = ground (arith, eq_iff x (id r), eq_iff (id r) x) in
          rw (other r there) (ground arith)
    ]

Covered-more :
    {E : Type 0} (bad : E → Bool) (id : E → String) (xs : List String) (x : String) (rows : List E)
    → Covered bad id xs rows
    → Covered bad id (x ∷ xs) rows
Covered-more bad id xs x [] h = refl
Covered-more bad id xs x (r ∷ rows) h = ground (arith, Covered-more bad id xs x rows)

pub Covered-select :
    {E : Type 0} (bad : E → Bool) (id : E → String) (rows : List E)
    → Covered bad id (map id (select bad rows)) rows
Covered-select bad id [] = refl
Covered-select bad id (r ∷ rows) = ground (
  arith,
  Covered-select bad id rows,
  Covered-more bad id (map id (select bad rows)) (id r) rows,
  eq_refl (id r),
)

pub Covered-nothing :
    {E : Type 0} (bad : E → Bool) (id : E → String) (rows : List E)
    → Covered bad id [] rows
    → any bad rows ≡ false
Covered-nothing bad id [] h = refl
Covered-nothing bad id (r ∷ rows) h = ground (arith, Covered-nothing bad id rows)

pub stripped-gone :
    (id : String) (xs : List AncestorReference)
    → any (is_entry id) (select (λ a. not (is_entry id a)) xs) ≡ false
stripped-gone id [] = refl
stripped-gone id (a ∷ xs) = ground (arith, stripped-gone id xs)

pub any-reindexed :
    (id : String) (n : ℕ) (xs : List AncestorReference)
    → any (is_entry id) (reindexed n xs) ≡ any (is_entry id) xs
any-reindexed id n [] = refl
any-reindexed id n (a ∷ xs) = rw (any-reindexed id (suc n) xs) refl
