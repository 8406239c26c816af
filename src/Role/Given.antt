-- ===== src/Role/Given.antt =====
-- What assigning and removing a role does to the roles that a user holds.
use qa_api.Common.{
  String, Bool, true, false, ◌≡◌, refl, ◌&&◌, ◌||◌, ◌===◌, if◌then◌else◌, Option, none, some, List,
  [], ◌∷◌, map, select, find, any, all, includes, arith, eq_iff, eq_refl, Bool-cases, inl, inr, sym,
  ap, ◌∙◌,
}
use qa_api.Effect.{ok, err}
use qa_api.Error.Handler.{Thrown}
use qa_api.Role.Table.{NewUserRole, UserRole, Table, IsTable, of_user, is_pair, patched, changed}
use qa_api.Role.Assigned.{
  assign_role_to_user, remove_role_from_user, find_by_user_id_and_role_id, has_any_role,
  has_all_roles, deactivation,
}
use qa_api.Role.Rows.{gives, holds, any-put, find-pair, holds-changed}

-- The test of `hasAllRoles` for one role, over the rows.
includes-holds :
    (u role : String) (rs : List UserRole)
    → includes (map (λ r. r.role_id) (select (λ r. r.is_active) (select (of_user u) rs))) role
      ≡ holds rs u role
includes-holds u role [] = refl
includes-holds u role (r ∷ rs) = ground (arith, includes-holds u role rs)

any-false {ℓ} : {A : Type ℓ} (xs : List A) → any (λ x. false) xs ≡ false
any-false [] = refl
any-false (x ∷ xs) = any-false xs

any-or {ℓ} :
    {A : Type ℓ} (p q : A → Bool) (xs : List A) → any (λ x. p x || q x) xs ≡ (any p xs || any q xs)
any-or p q [] = refl
any-or p q (x ∷ xs) = ground (arith, any-or p q xs)

-- The roles of a list that one row gives a user.
row_gives :
    (u : String) (r : UserRole) (roles : List String)
    → any (λ role. gives u role r) roles
      ≡ (r.user_id === u && (r.is_active && includes roles r.role_id))
row_gives u r [] = ground arith
row_gives u r (role ∷ roles) =
    ground (arith, row_gives u r roles, eq_iff r.role_id role, eq_iff role r.role_id)

any-holds :
    (u : String) (roles : List String) (rs : List UserRole)
    → any (λ r. includes roles r.role_id) (select (λ r. r.is_active) (select (of_user u) rs))
      ≡ any (holds rs u) roles
any-holds u roles [] = sym (any-false roles)
any-holds u roles (r ∷ rs) =
    let apart = any-or (λ role. gives u role r) (holds rs u) roles in
    let one = row_gives u r roles in
    let rest = any-holds u roles rs in
    let head : any (λ x. includes roles x.role_id)
          (select (λ x. x.is_active) (select (of_user u) (r ∷ rs)))
        ≡ ((r.user_id === u && (r.is_active && includes roles r.role_id))
            || any (λ x. includes roles x.role_id)
                (select (λ x. x.is_active) (select (of_user u) rs))) =
      ground arith in
    head ∙ rw (rest, sym one) (sym apart)

all-cong {ℓ} :
    {A : Type ℓ} (p q : A → Bool) (xs : List A) → ((x : A) → p x ≡ q x) → all p xs ≡ all q xs
all-cong p q [] h = refl
all-cong p q (x ∷ xs) h = rw (h x, all-cong p q xs h) refl

module _ {Db : Type 0} (t : Table Db) (rows : Db → List UserRole) (table : IsTable t rows) where
  -- hasAnyRole and hasAllRoles answer, without a write, whether the user holds one or each of the
  -- roles: whether a row that is active gives it, whatever its time of expiry is.
  pub has_roles_iff :
      (u : String) (roles : List String) (db : Db)
      → (has_any_role t u roles db ≡ (ok (any (holds (rows db) u) roles), db))
        × (has_all_roles t u roles db ≡ (ok (all (holds (rows db) u) roles), db))
  unfolding has_any_role has_all_roles
  has_roles_iff u roles db = (
    ap (λ rs. (ok (any (λ r. includes roles r.role_id) (select (λ r. r.is_active) rs)), db))
          (table.by_user db u)
        ∙ ap (λ b. (ok b, db)) (any-holds u roles (rows db)),
    ap
          (λ rs. (
            ok (
                all (λ role. includes (map (λ r. r.role_id) (select (λ r. r.is_active) rs)) role)
                  roles),
            db,
          ))
          (table.by_user db u)
        ∙ ap (λ b. (ok b, db))
            (all-cong
              (λ role.
                includes
                  (map (λ r. r.role_id) (select (λ r. r.is_active) (select (of_user u) (rows db))))
                  role)
              (holds (rows db) u) roles (λ role. includes-holds u role (rows db))),
  )

  abbrev given : String → String → Option String → NewUserRole
  given u role by = record {
    user_id = u;
    role_id = role;
    assigned_by = by;
    expires_at = none;
    is_active = true;
  }

  -- A role that the user has never been given is assigned: the user holds it, and every user holds
  -- the other roles as before.
  pub assign_role-gives :
      (u role : String) (by : Option String) (db : Db)
      → any (is_pair u role) (rows db) ≡ false
      → let (o, db') = assign_role_to_user t u role by db in
        ((r : UserRole) × (o ≡ ok r))
        × ((u' role' : String)
            → holds (rows db') u' role'
              ≡ (holds (rows db) u' role' || (u === u' && role === role')))
  unfolding assign_role_to_user
  assign_role-gives u role by db fresh =
      let (r, made, same, after) = table.created (given u role by) db fresh in
      (
        (r, made),
        λ u' role'.
            let its_user : r.user_id ≡ u = ap (λ d. d.user_id) same in
            let its_role : r.role_id ≡ role = ap (λ d. d.role_id) same in
            let active : r.is_active ≡ true = ap (λ d. d.is_active) same in
            rw (after, any-put (gives u' role') (rows db) r, its_user, its_role, active)
              (ground arith),
      )

  remove_role-run :
      (u role : String) (r : UserRole) (db : Db)
      → find (λ x. x.role_id === role) (select (of_user u) (rows db)) ≡ some r
      → remove_role_from_user t u role db ≡ t.update_row r.id (deactivation t) db
  unfolding remove_role_from_user find_by_user_id_and_role_id
  remove_role-run u role r db found = ground (arith, table.by_user db u)

  gives-deactivated :
      (u role : String) (x : UserRole) → gives u role (patched (deactivation t) x) ≡ false
  gives-deactivated u role x = ground arith

  pair-deactivated :
      (u role id : String) (rs : List UserRole)
      → any (is_pair u role) (map (changed id (deactivation t)) rs) ≡ any (is_pair u role) rs
  pair-deactivated u role id [] = refl
  pair-deactivated u role id (r ∷ rs) = elim (Bool-cases (r.id === id)) [
    | inl same ↦ rw (same, pair-deactivated u role id rs) refl
    | inr other ↦ rw (other, pair-deactivated u role id rs) refl
  ]

  -- A role that the user has a row of is removed: the row stays, not active any more, the user does
  -- not hold the role, and every user holds the other roles as before.
  pub remove_role-takes :
      (u role : String) (r : UserRole) (db : Db)
      → find (λ x. x.role_id === role) (select (of_user u) (rows db)) ≡ some r
      → let (o, db') = remove_role_from_user t u role db in
        ((x : UserRole) × (o ≡ ok x))
        × (rows db' ≡ map (changed r.id (deactivation t)) (rows db))
        × ((u' role' : String)
            → holds (rows db') u' role'
              ≡ (if u === u' && role === role' then false else holds (rows db) u' role'))
  remove_role-takes u role r db found =
      let (x, done, after) =
        table.updated r.id (deactivation t) db refl refl (find-pair u role (rows db) r found).0 in
      let run = remove_role-run u role r db found in
      (
        (x, ap (λ o. o.0) run ∙ done),
        ap (λ o. rows o.1) run ∙ after,
        λ u' role'.
            ap (λ o. holds (rows o.1) u' role') run
            ∙ ap (λ rs. holds rs u' role') after
            ∙ holds-changed u role u' role' (deactivation t) (rows db) r
                (gives-deactivated u' role') (table.keyed db) found,
      )

  -- A role that was removed from a user cannot be assigned to that user again: the row that stays
  -- refuses the new one, nothing is written, and the user is without the role.
  pub removed_role_is_refused :
      (u role : String) (by : Option String) (r : UserRole) (db : Db)
      → find (λ x. x.role_id === role) (select (of_user u) (rows db)) ≡ some r
      → let removed = (remove_role_from_user t u role db).1 in
        (e : Thrown) × (assign_role_to_user t u role by removed ≡ (err e, removed))
        × (holds (rows removed) u role ≡ false)
  unfolding assign_role_to_user
  removed_role_is_refused u role by r db found =
      let removed : Db = (remove_role_from_user t u role db).1 in
      let (_, after, held) = remove_role-takes u role r db found in
      let taken : any (is_pair u role) (rows removed) ≡ true =
        ap (any (is_pair u role)) after
        ∙ pair-deactivated u role r.id (rows db)
        ∙ (find-pair u role (rows db) r found).1 in
      let (e, refusal) = table.refused (given u role by) removed taken in
      (e, refusal, held u role ∙ rw (eq_refl u, eq_refl role) refl)
