-- ===== src/Role/Tests.antt =====
-- The theorems on roles at concrete inputs: ann holds the role of an editor, bob holds none.
use qa_api.Common.{
  String, true, false, ◌≡◌, refl, ◌&&◌, ◌===◌, if◌then◌else◌, none, some, [], ◌∷◌, map,
}
use qa_api.Effect.{ok, err}
use qa_api.Error.Handler.{Thrown, application}
use qa_api.Error.Application.{ApplicationError}
use qa_api.Role.Table.{UserRole, changed}
use qa_api.Role.Rows.{holds}
use qa_api.Role.Assigned.{
  has_any_role, has_all_roles, assign_role_to_user, remove_role_from_user, deactivation,
}
use qa_api.Role.Given.{has_roles_iff, remove_role-takes, removed_role_is_refused}
use qa_api.Role.Memory.{Rows, table, table-IsTable}
use qa_api.Role.Catalog.{
  Catalog, NewRole, NewPermission, Role, Permission, create, create_permission,
}
use qa_api.Role.Made.{nothing_is_made}

abbrev ann_edits : UserRole
ann_edits = record {
  id = "1";
  user_id = "ann";
  role_id = "editor";
  assigned_by = none;
  expires_at = some 5;
  is_active = true;
}

abbrev db : Rows
db = (ann_edits ∷ [], (refl, refl, tt))

has_roles_iff_example :
    (has_any_role table "ann" ("admin" ∷ "editor" ∷ []) db ≡ (ok true, db))
    × (has_all_roles table "ann" ("admin" ∷ "editor" ∷ []) db ≡ (ok false, db))
has_roles_iff_example =
    has_roles_iff table (λ x. x.0) table-IsTable "ann" ("admin" ∷ "editor" ∷ []) db

remove_role-takes_example :
    let (o, db') = remove_role_from_user table "ann" "editor" db in
    ((r : UserRole) × (o ≡ ok r))
    × (db'.0 ≡ map (changed "1" (deactivation table)) db.0)
    × ((u role : String)
        → holds db'.0 u role
          ≡ (if "ann" === u && "editor" === role then false else holds db.0 u role))
remove_role-takes_example =
    remove_role-takes table (λ x. x.0) table-IsTable "ann" "editor" ann_edits db refl

removed_role_is_refused_example :
    let removed = (remove_role_from_user table "ann" "editor" db).1 in
    (e : Thrown) × (assign_role_to_user table "ann" "editor" none removed ≡ (err e, removed))
    × (holds removed.0 "ann" "editor" ≡ false)
removed_role_is_refused_example =
    removed_role_is_refused table (λ x. x.0) table-IsTable "ann" "editor" none ann_edits db refl

abbrev editor : Role
editor = record {
  id = "editor";
  name = "Editor";
  description = "";
  permissions = [];
  is_system = false;
  is_active = true;
}

abbrev write : Permission
write = record {
  id = "write";
  name = "Write";
  description = "";
  resource = "answers";
  action = "create";
  category = "content";
  is_active = true;
}

-- The role Editor, and no permission.
abbrev catalog : Catalog Rows
catalog = record {
  find_role = λ db id. if id === "editor" then some editor else none;
  find_role_named = λ db name. if name === "Editor" then some editor else none;
  create_role = λ name d s a db. (ok editor, db);
  update_role = λ id p db. (ok editor, db);
  delete_role = λ id db. (ok editor, db);
  link = λ id ps db. (ok tt, db);
  unlink = λ id ps db. (ok tt, db);
  find_permission_named = λ db name. none;
  create_permission = λ d db. (ok write, db);
}

abbrev new_editor : NewRole
new_editor = record {
  name = "Editor";
  description = "";
  permissions = [];
  is_system = none;
  is_active = none;
}

abbrev new_write : NewPermission
new_write = record {
  name = "Write";
  description = "";
  resource = "answers";
  action = "create";
  category = "content";
  is_active = none;
}

nothing_is_made_example :
    ((e : ApplicationError) × (create catalog new_editor db ≡ (err (application e), db))
      × (e.status_code ≡ 400))
    × ((e : ApplicationError) × (create_permission catalog new_write db ≡ (err (application e), db))
        × (e.status_code ≡ 404))
nothing_is_made_example = nothing_is_made catalog new_editor new_write db
