-- ===== src/Bookmark/Rows.antt =====
-- Lists of rows under the writes of the table: what a row that is put in, taken out or changed does
-- to a selection and to a search by id.
use qa_api.Common.{
  String, Bool, true, false, not, ◌≡◌, refl, ◌===◌, some, List, [], ◌∷◌, ◌++◌, map, select, find,
  any, arith, eq_iff, if◌then◌else◌, sym, Bool-cases, inl, inr, ap, ◌∙◌,
}
use qa_api.Bookmark.Table.{BookmarkRow, RowPatch, has_id, changed, patched, IsKeyed}

pub select_put :
    (p : BookmarkRow → Bool) (front back : List BookmarkRow) (r : BookmarkRow)
    → p r ≡ false
    → select p (front ++ r ∷ back) ≡ select p (front ++ back)
select_put p [] back r h = rw h refl
select_put p (x ∷ front) back r h = rw (select_put p front back r h) refl

pub find_put :
    (p : BookmarkRow → Bool) (front back : List BookmarkRow) (r : BookmarkRow)
    → p r ≡ false
    → find p (front ++ r ∷ back) ≡ find p (front ++ back)
find_put p [] back r h = rw h refl
find_put p (x ∷ front) back r h = rw (find_put p front back r h) refl

select_absent :
    (id : String) (rs : List BookmarkRow)
    → any (has_id id) rs ≡ false
    → select (λ r. not (has_id id r)) rs ≡ rs
select_absent id [] h = refl
select_absent id (r ∷ rs) h = ground (arith, select_absent id rs)

absent-same :
    (a b : String) (rs : List BookmarkRow)
    → a ≡ b
    → any (has_id a) rs ≡ false
    → any (has_id b) rs ≡ false
absent-same a b rs e h = rw (sym e) h

pub select_removed :
    (p : BookmarkRow → Bool) (id : String) (rs : List BookmarkRow) (r : BookmarkRow)
    → IsKeyed rs
    → find (has_id id) rs ≡ some r
    → p r ≡ false
    → select p (select (λ x. not (has_id id x)) rs) ≡ select p rs
select_removed p id [] r keyed found h = refl
select_removed p id (x ∷ rs) r keyed found h = elim (Bool-cases (x.id === id)) [
  | inl same ↦
      let gone =
        select_absent id rs (absent-same x.id id rs (ground (arith, eq_iff x.id id)) keyed.0) in
      let head : p x ≡ false = ground arith in ground arith
  | inr other ↦ let rest = select_removed p id rs r keyed.1 (ground arith) h in ground arith
]

pub find_removed :
    (id j : String) (rs : List BookmarkRow)
    → (id === j) ≡ false
    → find (has_id j) (select (λ x. not (has_id id x)) rs) ≡ find (has_id j) rs
find_removed id j [] ne = refl
find_removed id j (x ∷ rs) ne =
    ground (arith, find_removed id j rs ne, eq_iff x.id id, eq_iff x.id j, eq_iff id j)

changed_absent :
    (id : String) (q : RowPatch) (rs : List BookmarkRow)
    → any (has_id id) rs ≡ false
    → map (changed id q) rs ≡ rs
changed_absent id q [] h = refl
changed_absent id q (r ∷ rs) h = ground (arith, changed_absent id q rs)

if_cons :
    {A : Type 0} (f : BookmarkRow → A) (b : Bool) (x : BookmarkRow) (xs ys : List BookmarkRow)
    → map f xs ≡ map f ys
    → map f (if b then x ∷ xs else xs) ≡ map f (if b then x ∷ ys else ys)
if_cons f true x xs ys h = ap (λ zs. f x ∷ zs) h
if_cons f false x xs ys h = h

pub find-changed :
    (id j : String) (q : RowPatch) (rs : List BookmarkRow)
    → ((x : BookmarkRow) → (patched q x).id ≡ x.id)
    → (id === j) ≡ false
    → find (has_id j) (map (changed id q) rs) ≡ find (has_id j) rs
find-changed id j q [] keeps ne = refl
find-changed id j q (x ∷ rs) keeps ne =
    let rest = find-changed id j q rs keeps ne in
    elim (Bool-cases (x.id === id)) [
      | inl same ↦
          let here : (x.id === j) ≡ false = ground (arith, eq_iff x.id id) in
          let now : ((patched q x).id === j) ≡ false = ap (λ i. i === j) (keeps x) ∙ here in
          rw (same, now, here) rest
      | inr other ↦ rw (other, rest) refl
    ]

-- A change of the row of one id that leaves the selection of each row as it is.
pub select-changed :
    {A : Type 0} (f : BookmarkRow → A) (p : BookmarkRow → Bool) (id : String) (q : RowPatch)
    (rs : List BookmarkRow) (r : BookmarkRow)
    → ((x : BookmarkRow) → p (patched q x) ≡ p x)
    → IsKeyed rs
    → find (has_id id) rs ≡ some r
    → p r ≡ false
    → map f (select p (map (changed id q) rs)) ≡ map f (select p rs)
select-changed f p id q [] r keeps keyed found h = refl
select-changed f p id q (x ∷ rs) r keeps keyed found h = elim (Bool-cases (x.id === id)) [
  | inl same ↦
      let gone =
        changed_absent id q rs (absent-same x.id id rs (ground (arith, eq_iff x.id id)) keyed.0) in
      let head : p x ≡ false = ground arith in
      let now : p (patched q x) ≡ false = keeps x ∙ head in rw (same, now, head, gone) refl
  | inr other ↦
      let rest = select-changed f p id q rs r keeps keyed.1 (ground arith) h in
      rw other (if_cons f (p x) x (select p (map (changed id q) rs)) (select p rs) rest)
]
