-- ===== src/Role/Memory.antt =====
-- A table of the roles of users in memory that meets the laws of Role/Table.antt: the parameter of
-- the witnesses, not a model of any code. A new row gets an id that is longer than every other.
use Prim.Native.String.{len}
use text.Mathlib.TextPositions.{len-append}
use qa_api.Common.{
  ◌≤◌, ◌<◌, String, true, false, ◌≡◌, refl, ◌===◌, ◌+++◌, ◌⊎◌, inl, inr, Option, none, some, List,
  [], ◌∷◌, ◌++◌, map, select, find, any, arith, eq_iff, Bool-cases, Option-cases, ap, ◌∙◌,
}
use qa_api.Effect.{Outcome, ok, err}
use qa_api.Error.Handler.{Thrown, application}
use qa_api.Error.Application.{not_found_error}
use qa_api.Role.Rows.{any-put}
use qa_api.Role.Table.{
  UserRole, NewUserRole, UserRolePatch, Table, IsTable, IsKeyed, has_id, is_pair, of_user, changed,
  data_of,
}

abbrev pub Rows : Type 0
Rows = (rs : List UserRole) × IsKeyed rs

abbrev refused : Thrown
refused = application (not_found_error "No such row, or one too many")

-- All ids behind one another, and one letter.
abbrev pub new_id : List UserRole → String
new_id [] = "x"
new_id (r ∷ rs) = r.id +++ new_id rs

new_id-longer : (rs : List UserRole) → 0 < len (new_id rs)
new_id-longer [] = omega arith
new_id-longer (r ∷ rs) = omega (arith, new_id-longer rs, len-append r.id (new_id rs))

-- No id is as long as a text that is longer than all of them together.
short-absent :
    (s : String) (rs : List UserRole) → len (new_id rs) ≤ len s → any (has_id s) rs ≡ false
short-absent s [] h = refl
short-absent s (r ∷ rs) h = elim (Bool-cases (r.id === s)) [
  | inl same ↦
      let id : len r.id ≡ len s = ap len (ground (arith, eq_iff r.id s)) in
      absurd (omega (arith, new_id-longer rs, len-append r.id (new_id rs)))
  | inr other ↦ rw other (short-absent s rs (omega (arith, len-append r.id (new_id rs))))
]

pub new_id-absent : (rs : List UserRole) → any (has_id (new_id rs)) rs ≡ false
new_id-absent rs = short-absent (new_id rs) rs (omega arith)

pub append-IsKeyed :
    (rs : List UserRole) (r : UserRole)
    → IsKeyed rs
    → any (has_id r.id) rs ≡ false
    → any (is_pair r.user_id r.role_id) rs ≡ false
    → IsKeyed (rs ++ r ∷ [])
append-IsKeyed [] r k h l = (refl, refl, tt)
append-IsKeyed (x ∷ rs) r k h l =
    let id : (r.id === x.id) ≡ false = ground (arith, eq_iff r.id x.id, eq_iff x.id r.id) in
    let pair : is_pair x.user_id x.role_id r ≡ false = ground (
      arith,
      eq_iff r.user_id x.user_id,
      eq_iff x.user_id r.user_id,
      eq_iff r.role_id x.role_id,
      eq_iff x.role_id r.role_id,
    ) in
    (
      any-put (has_id x.id) rs r ∙ ground arith,
      any-put (is_pair x.user_id x.role_id) rs r ∙ ground arith,
      append-IsKeyed rs r k.2 (ground arith) (ground arith),
    )

same_row :
    (id : String) (p : UserRolePatch) (r : UserRole)
    → p.user_id ≡ none
    → p.role_id ≡ none
    → ((changed id p r).id ≡ r.id)
      × ((changed id p r).user_id ≡ r.user_id)
      × ((changed id p r).role_id ≡ r.role_id)
same_row id p r h l = elim (Bool-cases (r.id === id)) [
  | inl same ↦ rw same (refl, rw h refl, rw l refl)
  | inr other ↦ rw other (refl, refl, refl)
]

any-id-changed :
    (a id : String) (p : UserRolePatch) (rs : List UserRole)
    → p.user_id ≡ none
    → p.role_id ≡ none
    → any (has_id a) (map (changed id p) rs) ≡ any (has_id a) rs
any-id-changed a id p [] h l = refl
any-id-changed a id p (r ∷ rs) h l = rw ((same_row id p r h l).0, any-id-changed a id p rs h l) refl

any-pair-changed :
    (u role id : String) (p : UserRolePatch) (rs : List UserRole)
    → p.user_id ≡ none
    → p.role_id ≡ none
    → any (is_pair u role) (map (changed id p) rs) ≡ any (is_pair u role) rs
any-pair-changed u role id p [] h l = refl
any-pair-changed u role id p (r ∷ rs) h l =
    rw ((same_row id p r h l).1, (same_row id p r h l).2, any-pair-changed u role id p rs h l) refl

pub changed-IsKeyed :
    (id : String) (p : UserRolePatch) (rs : List UserRole)
    → p.user_id ≡ none
    → p.role_id ≡ none
    → IsKeyed rs
    → IsKeyed (map (changed id p) rs)
changed-IsKeyed id p [] h l k = tt
changed-IsKeyed id p (r ∷ rs) h l k =
    let (its_id, its_user, its_role) = same_row id p r h l in
    (
      rw (its_id, any-id-changed r.id id p rs h l) k.0,
      rw (its_user, its_role, any-pair-changed r.user_id r.role_id id p rs h l) k.1,
      changed-IsKeyed id p rs h l k.2,
    )

abbrev row_of : NewUserRole → String → UserRole
row_of d id = record {
  id = id;
  user_id = d.user_id;
  role_id = d.role_id;
  assigned_by = d.assigned_by;
  expires_at = d.expires_at;
  is_active = d.is_active;
}

abbrev put_at :
    (d : NewUserRole) (db : Rows)
    → (any (is_pair d.user_id d.role_id) db.0 ≡ true)
      ⊎ (any (is_pair d.user_id d.role_id) db.0 ≡ false)
    → Outcome UserRole × Rows
put_at d db (inl taken) = (err refused, db)
put_at d db (inr fresh) = (
  ok (row_of d (new_id db.0)),
  (
    db.0 ++ row_of d (new_id db.0) ∷ [],
    append-IsKeyed db.0 (row_of d (new_id db.0)) db.1 (new_id-absent db.0) fresh,
  ),
)

-- An update that changes the user or the role is refused here.
abbrev change_at :
    (id : String) (p : UserRolePatch) (db : Rows)
    → (p.user_id ≡ none) ⊎ ((u : String) × (p.user_id ≡ some u))
    → (p.role_id ≡ none) ⊎ ((r : String) × (p.role_id ≡ some r))
    → Option UserRole
    → Outcome UserRole × Rows
change_at id p db (inl h) (inl l) (some r) =
    (ok r, (map (changed id p) db.0, changed-IsKeyed id p db.0 h l db.1))
change_at id p db _ _ _ = (err refused, db)

abbrev pub table : Table Rows
table = record {
  find_by_user = λ db u. select (of_user u) db.0;
  find_by_role = λ db role. select (λ r. r.role_id === role) db.0;
  create_row = λ d db. put_at d db (Bool-cases (any (is_pair d.user_id d.role_id) db.0));
  update_row = λ id p db.
      change_at id p db (Option-cases p.user_id) (Option-cases p.role_id)
        (find (has_id id) (map (changed id p) db.0));
}

put_at-free :
    (d : NewUserRole) (db : Rows)
    (c : (any (is_pair d.user_id d.role_id) db.0 ≡ true)
      ⊎ (any (is_pair d.user_id d.role_id) db.0 ≡ false))
    → any (is_pair d.user_id d.role_id) db.0 ≡ false
    → (r : UserRole) × ((put_at d db c).0 ≡ ok r)
      × (data_of r ≡ d)
      × ((put_at d db c).1.0 ≡ db.0 ++ r ∷ [])
put_at-free d db (inl taken) h = absurd (ground arith)
put_at-free d db (inr fresh) h = (row_of d (new_id db.0), refl, refl, refl)

put_at-taken :
    (d : NewUserRole) (db : Rows)
    (c : (any (is_pair d.user_id d.role_id) db.0 ≡ true)
      ⊎ (any (is_pair d.user_id d.role_id) db.0 ≡ false))
    → any (is_pair d.user_id d.role_id) db.0 ≡ true
    → (e : Thrown) × (put_at d db c ≡ (err e, db))
put_at-taken d db (inl taken) h = (refused, refl)
put_at-taken d db (inr fresh) h = absurd (ground arith)

find-none :
    (id : String) (rs : List UserRole) → find (has_id id) rs ≡ none → any (has_id id) rs ≡ false
find-none id [] h = refl
find-none id (r ∷ rs) h = ground (arith, find-none id rs)

find-any :
    (id : String) (rs : List UserRole)
    → any (has_id id) rs ≡ true
    → (r : UserRole) × (find (has_id id) rs ≡ some r)
find-any id rs h = elim (Option-cases (find (has_id id) rs)) [
  | inl gone ↦ absurd (ground (arith, find-none id rs))
  | inr found ↦ found
]

change_at-done :
    (id : String) (p : UserRolePatch) (db : Rows)
    (a : (p.user_id ≡ none) ⊎ ((u : String) × (p.user_id ≡ some u)))
    (b : (p.role_id ≡ none) ⊎ ((r : String) × (p.role_id ≡ some r))) (o : Option UserRole)
    (r : UserRole)
    → p.user_id ≡ none
    → p.role_id ≡ none
    → o ≡ some r
    → ((change_at id p db a b o).0 ≡ ok r)
      × ((change_at id p db a b o).1.0 ≡ map (changed id p) db.0)
change_at-done id p db (inl a) (inl b) (some x) r h l e = (ground arith, refl)
change_at-done id p db (inl a) (inl b) none r h l e = absurd (ground arith)
change_at-done id p db (inl a) (inr (s, b)) o r h l e = absurd (ground arith)
change_at-done id p db (inr (s, a)) b o r h l e = absurd (ground arith)

pub table-IsTable : IsTable table (λ (db : Rows). db.0)
table-IsTable = record {
  keyed = λ db. db.1;
  by_user = λ db u. refl;
  created = λ d db h. put_at-free d db (Bool-cases (any (is_pair d.user_id d.role_id) db.0)) h;
  refused = λ d db h. put_at-taken d db (Bool-cases (any (is_pair d.user_id d.role_id) db.0)) h;
  updated = λ id p db h l there.
      let (r, found) =
        find-any id (map (changed id p) db.0) (any-id-changed id id p db.0 h l ∙ there) in
      let (done, after) =
        change_at-done id p db (Option-cases p.user_id) (Option-cases p.role_id)
          (find (has_id id) (map (changed id p) db.0)) r h l found in
      (r, done, after);
}
