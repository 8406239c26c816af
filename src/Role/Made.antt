-- ===== src/Role/Made.antt =====
-- Whether roles and permissions can be made.
use qa_api.Common.{ℕ, ◌≡◌, Option, none, some, arith, Option-cases, inl, inr}
use qa_api.Effect.{err}
use qa_api.Error.Handler.{application}
use qa_api.Error.Application.{of_kind, new_error, business_error_of, ApplicationError}
use qa_api.Role.Catalog.{
  Catalog, NewRole, NewPermission, not_named, source_find_by_name, find_permission_by_name, create,
  create_permission,
}

-- The status of a refusal, by whether the name was found.
abbrev pub refusal {ℓ} : {A : Type ℓ} → Option A → ℕ
refusal none = 404
refusal (some _) = 400

module _ {Db : Type 0} (c : Catalog Db) where
  role_refused :
      (role : NewRole) (db : Db)
      → (e : ApplicationError) × (create c role db ≡ (err (application e), db))
        × (e.status_code ≡ refusal (c.find_role_named db role.name))
  unfolding create source_find_by_name of_kind new_error
  role_refused role db = elim (Option-cases (c.find_role_named db role.name)) [
    | inl free ↦ (not_named, ground arith, ground arith)
    | inr (r, taken) ↦ (business_error_of "Role already exists" 400, ground arith, ground arith)
  ]

  permission_refused :
      (permission : NewPermission) (db : Db)
      → (e : ApplicationError) × (create_permission c permission db ≡ (err (application e), db))
        × (e.status_code ≡ refusal (c.find_permission_named db permission.name))
  unfolding create_permission find_permission_by_name of_kind new_error
  permission_refused permission db =
      elim (Option-cases (c.find_permission_named db permission.name)) [
        | inl free ↦ (not_named, ground arith, ground arith)
        | inr (p, taken) ↦
            (business_error_of "Permission already exists" 400, ground arith, ground arith)
      ]

  -- No role and no permission is ever made: a name that is taken is refused with status 400, and a
  -- name that is free with status 404, because the search for it throws; nothing is written.
  pub nothing_is_made :
      (role : NewRole) (permission : NewPermission) (db : Db)
      → ((e : ApplicationError) × (create c role db ≡ (err (application e), db))
          × (e.status_code ≡ refusal (c.find_role_named db role.name)))
        × ((e : ApplicationError) × (create_permission c permission db ≡ (err (application e), db))
            × (e.status_code ≡ refusal (c.find_permission_named db permission.name)))
  nothing_is_made role permission db = (role_refused role db, permission_refused permission db)
