-- ===== src/Role/Catalog.antt =====
-- Roles and permissions themselves: repositories/postgresql/RolePostgreSQLDataSource.ts and
-- RoleRepository.ts, services/managers/RoleManager.ts, and the creation of permissions
-- (PermissionManager.ts, PermissionPostgreSQLDataSource.ts). The Prisma client is a parameter; its
-- reads do not fail, its writes may. The lists of roles and permissions are left out.
use qa_api.Common.{String, Bool, false, true, Option, none, some, List, [], ◌∷◌}
use qa_api.Effect.{ok, err, Action, pure, throw_if, ◌>>=◌, ◌>>◌, gets, or_throw, is_object}
use qa_api.Error.Handler.{Thrown, application, other}
use qa_api.Error.Application.{ApplicationError, not_found_error, business_error_of, system_error_of}

-- A role with the ids of its permissions.
pub record Role : Type 0 where
  pub id : String
  pub name : String
  pub description : String
  pub permissions : List String
  pub is_system : Bool
  pub is_active : Bool

-- `Partial<IRoleModel>`: a field that is `none` is absent.
pub record RolePatch : Type 0 where
  pub name : Option String
  pub description : Option String
  pub permissions : Option (List String)
  pub is_system : Option Bool
  pub is_active : Option Bool

pub record NewRole : Type 0 where
  pub name : String
  pub description : String
  pub permissions : List String
  pub is_system : Option Bool
  pub is_active : Option Bool

pub record Permission : Type 0 where
  pub id : String
  pub name : String
  pub description : String
  pub resource : String
  pub action : String
  pub category : String
  pub is_active : Bool

pub record NewPermission : Type 0 where
  pub name : String
  pub description : String
  pub resource : String
  pub action : String
  pub category : String
  pub is_active : Option Bool

-- The calls of the Prisma client: of `role`, of `rolePermission`, and of `permission`. A row of a
-- role comes with the ids of its permissions; the links of a role and permissions are made (those
-- that are there are skipped) and deleted by lists.
pub record Catalog (Db : Type 0) : Type 0 where
  pub find_role : Db → String → Option Role
  pub find_role_named : Db → String → Option Role
  pub create_role : String → String → Bool → Bool → Action Db Role
  pub update_role : String → RolePatch → Action Db Role
  pub delete_role : String → Action Db Role
  pub link : String → List String → Action Db (Unit {0})
  pub unlink : String → List String → Action Db (Unit {0})
  pub find_permission_named : Db → String → Option Permission
  pub create_permission : NewPermission → Action Db Permission

abbrev or_default : Option Bool → Bool → Bool
or_default none d = d
or_default (some b) d = b

-- `catch`: an error of the application goes on, any other becomes `e`.
abbrev pub keep_application : ApplicationError → Thrown → Thrown
keep_application e (application a) = application a
keep_application e (other _) = application e

abbrev pub guarded : {Db A : Type 0} → ApplicationError → Action Db A → Action Db A
guarded e m db =
    let (r, db') = m db in (elim r [ ok a ↦ ok a | err x ↦ err (keep_application e x) ], db')

-- `catch`: every error becomes `e`.
abbrev pub instead : {Db A : Type 0} → ApplicationError → Action Db A → Action Db A
instead e m db = let (r, db') = m db in (elim r [ ok a ↦ ok a | err x ↦ err (application e) ], db')

abbrev not_there : ApplicationError
not_there = not_found_error "Database error in BaseRepository.findById"

abbrev pub not_named : ApplicationError
not_named = not_found_error "Database error in BaseRepository.findByFieldValue"

module _ {Db : Type 0} (c : Catalog Db) where
  -- RolePostgreSQLDataSource
  unfoldable pub source_find_by_id : String → Action Db Role
  source_find_by_id id = do found ← gets (λ db. c.find_role db id); or_throw found not_there

  unfoldable pub source_find_by_name : String → Action Db Role
  source_find_by_name name = do
    found ← gets (λ db. c.find_role_named db name)
    or_throw found not_named

  -- `createMany` is called for a list that is not empty.
  abbrev link_some : String → List String → Action Db (Unit {0})
  link_some id [] db = (ok tt, db)
  link_some id (p ∷ ps) db = c.link id (p ∷ ps) db

  unfoldable pub source_create : NewRole → Action Db Role
  source_create d = do
    r ←
        c.create_role d.name d.description (or_default d.is_system false)
          (or_default d.is_active true)
    link_some r.id d.permissions
    pure (record r { permissions = d.permissions })

  -- The permissions of the patch are not written.
  unfoldable pub source_update_by_id : String → RolePatch → Action Db Role
  source_update_by_id id d = c.update_role id (record d { permissions = none })

  unfoldable pub assign_permission : String → String → Action Db Role
  unfolding source_find_by_id
  assign_permission id permission = do c.link id (permission ∷ []); source_find_by_id id

  unfoldable pub remove_permission : String → String → Action Db Role
  unfolding source_find_by_id
  remove_permission id permission = do c.unlink id (permission ∷ []); source_find_by_id id

  unfoldable pub add_permissions_to_role : String → List String → Action Db Role
  unfolding source_find_by_id
  add_permissions_to_role id permissions = do c.link id permissions; source_find_by_id id

  unfoldable pub remove_permissions_from_role : String → List String → Action Db Role
  unfolding source_find_by_id
  remove_permissions_from_role id permissions = do c.unlink id permissions; source_find_by_id id

  -- RoleManager over RoleRepository, which passes these calls on.
  abbrev create_error : ApplicationError
  create_error = system_error_of "Database error during role creation" 500

  abbrev update_error : ApplicationError
  update_error = system_error_of "Database error during role update" 500

  unfoldable pub create : NewRole → Action Db Role
  unfolding source_find_by_name source_create
  create d = guarded create_error (do
    existing ← source_find_by_name d.name
    throw_if (is_object existing) (business_error_of "Role already exists" 400)
    source_create d)

  unfoldable pub find_by_id : String → Action Db Role
  unfolding source_find_by_id
  find_by_id id = instead (not_found_error "Role not found") (source_find_by_id id)

  unfoldable pub find_by_name : String → Action Db Role
  unfolding source_find_by_name
  find_by_name name = instead (not_found_error "Role not found") (source_find_by_name name)

  unfoldable pub update_by_id : String → RolePatch → Action Db Role
  unfolding source_update_by_id
  update_by_id id d = guarded update_error (source_update_by_id id d)

  unfoldable pub delete_by_id : String → Action Db Bool
  delete_by_id id =
      guarded (system_error_of "Database error during role delete" 500)
        (do c.delete_role id; pure true)

  unfoldable pub get_default_role : Action Db Role
  unfolding source_find_by_name
  get_default_role = guarded (not_found_error "Default role not found") (source_find_by_name "user")

  unfoldable pub assign_permission_to_role : String → String → Action Db Role
  unfolding assign_permission
  assign_permission_to_role id permission = guarded update_error (assign_permission id permission)

  unfoldable pub remove_permission_from_role : String → String → Action Db Role
  unfolding remove_permission
  remove_permission_from_role id permission = guarded update_error (remove_permission id permission)

  unfoldable pub manager_add_permissions : String → List String → Action Db Role
  unfolding add_permissions_to_role
  manager_add_permissions id permissions =
      guarded update_error (add_permissions_to_role id permissions)

  unfoldable pub manager_remove_permissions : String → List String → Action Db Role
  unfolding remove_permissions_from_role
  manager_remove_permissions id permissions =
      guarded update_error (remove_permissions_from_role id permissions)

  -- PermissionManager over PermissionRepository and its data source.
  unfoldable pub find_permission_by_name : String → Action Db Permission
  find_permission_by_name name = do
    found ← gets (λ db. c.find_permission_named db name)
    or_throw found not_named

  unfoldable pub create_permission : NewPermission → Action Db Permission
  unfolding find_permission_by_name
  create_permission d =
      guarded (system_error_of "Database error during permission creation" 500) (do
        existing ← find_permission_by_name d.name
        throw_if (is_object existing) (business_error_of "Permission already exists" 400)
        c.create_permission d)
