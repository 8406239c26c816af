-- ===== src/Access/Permission.antt =====
-- middlewares/authorization/permissionMiddleware.ts.
use qa_api.Common.{
  String, Bool, if◌then◌else◌, Option, none, some, List, [], ◌∷◌, ◌++◌, map, any, all, includes,
}
use qa_api.Effect.{Outcome, ok, err}
use qa_api.Access.Gate.{SessionUser, Request, Next, next, unauthorized, refuse}

-- An entry of `role.permissions`: a text, or an object with an id.
pub data PermissionRef : Type 0 where
  text_id object_id : String → PermissionRef

pub record Role : Type 0 where
  pub is_active : Bool
  pub permissions : Option (List PermissionRef)

pub record Permission : Type 0 where
  pub name : String
  pub is_active : Bool

-- The three services: the ids of the active roles of a user, a role, a permission.
pub record Directory : Type 0 where
  pub get_user_active_roles : String → Outcome (List String)
  pub find_role : String → Outcome (Option Role)
  pub find_permission : String → Outcome (Option Permission)

-- `Promise.all` over a list: the first error, or all the results.
abbrev pub cons_ok : {A : Type 0} → Outcome A → Outcome (List A) → Outcome (List A)
cons_ok (ok a) (ok l) = ok (a ∷ l)
cons_ok (ok a) (err e) = err e
cons_ok (err e) r = err e

abbrev pub promise_all : {A B : Type 0} → (A → Outcome B) → List A → Outcome (List B)
promise_all f [] = ok []
promise_all f (x ∷ xs) = cons_ok (f x) (promise_all f xs)

abbrev pub id_of : PermissionRef → String
id_of (text_id s) = s
id_of (object_id s) = s

abbrev pub ids_of : Option (List PermissionRef) → List String
ids_of none = []
ids_of (some refs) = map id_of refs

-- The ids of the permissions of the roles that exist and are active.
abbrev pub permission_ids : List (Option Role) → List String
permission_ids [] = []
permission_ids (none ∷ rest) = permission_ids rest
permission_ids (some r ∷ rest) =
    if r.is_active then ids_of r.permissions ++ permission_ids rest else permission_ids rest

abbrev pub active_names : List (Option Permission) → List String
active_names [] = []
active_names (none ∷ rest) = active_names rest
active_names (some p ∷ rest) = if p.is_active then p.name ∷ active_names rest else active_names rest

abbrev pub or_nothing : Outcome (List String) → List String
or_nothing (ok names) = names
or_nothing (err e) = []

-- `await`, inside the `try`
abbrev pub then_do : {A B : Type 0} → Outcome A → (A → Outcome B) → Outcome B
then_do (ok a) f = f a
then_do (err e) f = err e

module _ (d : Directory) where
  abbrev pub names_of_roles : List String → Outcome (List String)
  names_of_roles [] = ok []
  names_of_roles (id ∷ ids) = then_do (promise_all d.find_role (id ∷ ids)) (λ roles.
      then_do (promise_all d.find_permission (permission_ids roles))
        (λ permissions. ok (active_names permissions)))

  -- Whatever is thrown on the way is caught, and nothing is granted.
  unfoldable pub get_user_permissions : String → List String
  get_user_permissions user_id =
      or_nothing (then_do (d.get_user_active_roles user_id) names_of_roles)

  abbrev pub gate : (List String → Bool) → Request → Option SessionUser → Next
  gate test req none = unauthorized
  gate test req (some user) =
      if test (get_user_permissions user.id)
      then next req
      else refuse "Insufficient permissions" 403

  unfoldable pub require_permission : String → Request → Next
  require_permission permission req = gate (λ own. includes own permission) req req.user

  unfoldable pub require_any_permission : List String → Request → Next
  require_any_permission permissions req = gate (λ own. any (includes own) permissions) req req.user

  unfoldable pub require_all_permissions : List String → Request → Next
  require_all_permissions permissions req =
      gate (λ own. all (includes own) permissions) req req.user

  abbrev pub require_admin : Request → Next
  require_admin = require_permission "system:admin"
