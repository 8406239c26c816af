-- ===== src/Role/Assigned.antt =====
-- repositories/postgresql/UserRolePostgreSQLDataSource.ts, as far as it is called,
-- repositories/UserRoleRepository.ts and services/managers/UserRoleManager.ts. An entity has the
-- fields of its row.
use qa_api.Common.{
  ℕ, String, Bool, true, false, ◌===◌, Option, none, some, List, map, select, find, any, all,
  includes,
}
use qa_api.Effect.{Action, pure, ◌>>=◌, gets, or_throw}
use qa_api.Error.Application.{not_found_error}
use qa_api.Role.Table.{UserRole, UserRolePatch, Table}

abbrev no_change : UserRolePatch
no_change = record {
  user_id = none;
  role_id = none;
  assigned_by = none;
  expires_at = none;
  is_active = none;
}

module _ {Db : Type 0} (t : Table Db) where
  unfoldable pub find_by_role_id : String → Action Db (List UserRole)
  find_by_role_id role = gets (λ db. t.find_by_role db role)

  unfoldable pub find_by_user_id : String → Action Db (List UserRole)
  find_by_user_id u = gets (λ db. t.find_by_user db u)

  unfoldable pub assign_role_to_user : String → String → Option String → Action Db UserRole
  assign_role_to_user u role assigned_by = t.create_row (record {
    user_id = u;
    role_id = role;
    assigned_by = assigned_by;
    expires_at = none;
    is_active = true;
  })

  unfoldable pub find_by_user_id_and_role_id : String → String → Action Db UserRole
  unfolding find_by_user_id
  find_by_user_id_and_role_id u role = do
    user_roles ← find_by_user_id u
    or_throw (find (λ r. r.role_id === role) user_roles) (not_found_error "User role not found")

  abbrev pub deactivation : UserRolePatch
  deactivation = record no_change { is_active = some false }

  unfoldable pub remove_role_from_user : String → String → Action Db UserRole
  unfolding find_by_user_id_and_role_id
  remove_role_from_user u role = do
    r ← find_by_user_id_and_role_id u role
    t.update_row r.id deactivation

  unfoldable pub find_by_user_id_and_active : String → Action Db (List UserRole)
  unfolding find_by_user_id
  find_by_user_id_and_active u = do
    user_roles ← find_by_user_id u
    pure (select (λ r. r.is_active) user_roles)

  -- It does nothing yet.
  unfoldable pub deactivate_expired_roles : Action Db ℕ
  deactivate_expired_roles = pure 0

  unfoldable pub has_role : String → String → Action Db Bool
  unfolding find_by_user_id_and_role_id
  has_role u role = do r ← find_by_user_id_and_role_id u role; pure r.is_active

  unfoldable pub has_any_role : String → List String → Action Db Bool
  unfolding find_by_user_id_and_active
  has_any_role u roles = do
    active ← find_by_user_id_and_active u
    pure (any (λ r. includes roles r.role_id) active)

  unfoldable pub has_all_roles : String → List String → Action Db Bool
  unfolding find_by_user_id_and_active
  has_all_roles u roles = do
    active ← find_by_user_id_and_active u
    pure (all (λ role. includes (map (λ r. r.role_id) active) role) roles)
