-- ===== src/Access/Grants.antt =====
-- What permission a user has, and what the three gates let through.
use qa_api.Common.{
  eq_refl, String, Bool, true, false, eq_iff, ◌⊎◌, ◌||◌, ◌&&◌, ◌≡◌, ◌≢◌, ◌↔◌, refl, ◌===◌, Option,
  none, some, List, [], ◌∷◌, ◌++◌, map, any, includes, arith, Bool-cases, Option-cases, inl, inr,
}
use qa_api.Effect.{Outcome, ok, err, Outcome-cases}
use qa_api.Error.Handler.{Thrown}
use qa_api.Access.Gate.{SessionUser, Request, next, refuse}
use qa_api.Access.Permission.{
  Role, Permission, Directory, promise_all, ids_of, permission_ids, active_names,
  get_user_permissions, require_permission, require_any_permission, require_all_permissions,
}

-- The permission under an id is active and has the name; a role grants it: the role exists, is
-- active and lists such an id.
abbrev pub is_named : (String → Option Permission) → String → String → Bool
is_named permission p id = elim (permission id) [
  | none ↦ false
  | some found ↦ found.is_active && (found.name === p)
]

abbrev pub role_grants : (String → Option Permission) → String → Option Role → Bool
role_grants permission p none = false
role_grants permission p (some r) =
    r.is_active && any (is_named permission p) (ids_of r.permissions)

module _ (d : Directory) (role : String → Option Role)
    (permission : String → Option Permission) where
  all_roles :
      (ids : List String)
      → ((id : String) → includes ids id ≡ true → d.find_role id ≡ ok (role id))
      → promise_all d.find_role ids ≡ ok (map role ids)
  all_roles [] finds = refl
  all_roles (id ∷ ids) finds =
      let rest = all_roles ids (λ x h. finds x (ground arith)) in
      ground (arith, finds id (ground (arith, eq_refl id)))

  all_permissions :
      (ids : List String)
      → ((id : String) → includes ids id ≡ true → d.find_permission id ≡ ok (permission id))
      → promise_all d.find_permission ids ≡ ok (map permission ids)
  all_permissions [] finds = refl
  all_permissions (id ∷ ids) finds =
      let rest = all_permissions ids (λ x h. finds x (ground arith)) in
      ground (arith, finds id (ground (arith, eq_refl id)))

  names_of_ids :
      (p : String) (ids : List String)
      → includes (active_names (map permission ids)) p ≡ any (is_named permission p) ids
  names_of_ids p [] = refl
  names_of_ids p (id ∷ ids) = ground (arith, names_of_ids p ids)

  any-append :
      (f : String → Bool) (ids more : List String) → any f (ids ++ more) ≡ (any f ids || any f more)
  any-append f [] more = refl
  any-append f (id ∷ ids) more = ground (arith, any-append f ids more)

  ids_of_roles :
      (p : String) (ids : List String)
      → any (is_named permission p) (permission_ids (map role ids))
        ≡ any (λ id. role_grants permission p (role id)) ids
  ids_of_roles p [] = refl
  ids_of_roles p (id ∷ ids) = elim (Option-cases (role id)) [
    | inl e ↦ rw e (ids_of_roles p ids)
    | inr (r, e) ↦ elim (Bool-cases r.is_active) [
      | inl on ↦ ground (
        arith,
        e,
        ids_of_roles p ids,
        any-append (is_named permission p) (ids_of r.permissions) (permission_ids (map role ids)),
      )
      | inr off ↦ ground (arith, e, ids_of_roles p ids)
    ]
  ]

  names-granted :
      (user_id p id : String) (ids : List String)
      → d.get_user_active_roles user_id ≡ ok (id ∷ ids)
      → promise_all d.find_role (id ∷ ids) ≡ ok (map role (id ∷ ids))
      → promise_all d.find_permission (permission_ids (map role (id ∷ ids)))
        ≡ ok (map permission (permission_ids (map role (id ∷ ids))))
      → includes (get_user_permissions d user_id) p
        ≡ any (λ x. role_grants permission p (role x)) (id ∷ ids)
  unfolding get_user_permissions
  names-granted user_id p id ids h roles permissions =
      ground
        (arith, names_of_ids p (permission_ids (map role (id ∷ ids))), ids_of_roles p (id ∷ ids))

  -- While the lookups of the user's own roles, and of the permissions that the active ones among
  -- them list, succeed: a user has a permission exactly when one of the user's active roles is
  -- itself active and lists the id of a permission that is active and has that name.
  pub permission-IsGranted :
      (user_id p : String) (ids : List String)
      → d.get_user_active_roles user_id ≡ ok ids
      → ((id : String) → includes ids id ≡ true → d.find_role id ≡ ok (role id))
      → ((id : String)
          → includes (permission_ids (map role ids)) id ≡ true
          → d.find_permission id ≡ ok (permission id))
      → includes (get_user_permissions d user_id) p
        ≡ any (λ id. role_grants permission p (role id)) ids
  unfolding get_user_permissions
  permission-IsGranted user_id p [] h roles permissions = ground arith
  permission-IsGranted user_id p (id ∷ ids) h roles permissions =
      let found_roles = all_roles (id ∷ ids) roles in
      let found = all_permissions (permission_ids (map role (id ∷ ids))) permissions in
      names-granted user_id p id ids h found_roles found

-- A lookup of one of the ids fails, and so does `Promise.all`.
promise_all-fails :
    {B : Type 0} (f : String → Outcome B) (ids : List String) (id : String) (e : Thrown)
    → includes ids id ≡ true
    → f id ≡ err e
    → (e' : Thrown) × (promise_all f ids ≡ err e')
promise_all-fails f [] id e h fails = absurd (ground arith)
promise_all-fails f (x ∷ ids) id e h fails = elim (Bool-cases (x === id)) [
  | inl eq ↦ (e, ground (arith, (eq_iff x id).0 eq))
  | inr ne ↦
      let (e', rest) = promise_all-fails f ids id e (ground arith) fails in
      elim (Outcome-cases (f x)) [
        | inl (b, r) ↦ (e', ground arith)
        | inr (e'', r) ↦ (e'', ground arith)
      ]
]

-- The roles of the user cannot be read, or one of them cannot be.
abbrev pub Fails : Directory → String → Type 0
Fails d user_id =
    (e : Thrown) × ((d.get_user_active_roles user_id ≡ err e)
      ⊎ ((ids : List String) × (id : String) × (d.get_user_active_roles user_id ≡ ok ids)
          × (includes ids id ≡ true)
          × (d.find_role id ≡ err e)))

module _ (d : Directory) where
  nothing_of_Fails : (user_id : String) → Fails d user_id → get_user_permissions d user_id ≡ []
  unfolding get_user_permissions
  nothing_of_Fails user_id (e, inl h) = ground arith
  nothing_of_Fails user_id (e, inr ([], id, h, is_in, bad)) = absurd (ground arith)
  nothing_of_Fails user_id (e, inr (x ∷ ids, id, h, is_in, bad)) =
      let (e', all_bad) = promise_all-fails d.find_role (x ∷ ids) id e is_in bad in ground arith

  none_of_none : (ps : List String) → any (includes []) ps ≡ false
  none_of_none [] = refl
  none_of_none (p ∷ ps) = ground (arith, none_of_none ps)

  -- When a lookup of the roles throws, the gates for one permission and for any of several refuse,
  -- and the gate for all of several refuses unless it asks for none.
  lookup_failure_refuses :
      (req : Request) (user : SessionUser) (p : String) (ps : List String)
      → req.user ≡ some user
      → Fails d user.id
      → (require_permission d p req ≡ refuse "Insufficient permissions" 403)
        × (require_any_permission d ps req ≡ refuse "Insufficient permissions" 403)
        × (require_all_permissions d (p ∷ ps) req ≡ refuse "Insufficient permissions" 403)
        × (require_all_permissions d [] req ≡ next req)
  unfolding require_permission require_any_permission require_all_permissions
  lookup_failure_refuses req user p ps u fails =
      let h = nothing_of_Fails user.id fails in
      (ground arith, ground (arith, none_of_none ps), ground arith, ground arith)

  -- For a request with a user: the gate for all of several permissions opens exactly when the gate
  -- for each does, and the gate for any of them exactly when the gate for one does.
  gates_iff :
      (req : Request) (user : SessionUser) (p : String) (ps : List String)
      → req.user ≡ some user
      → ((require_all_permissions d (p ∷ ps) req ≡ next req) ↔ (
          (require_permission d p req ≡ next req) × (require_all_permissions d ps req ≡ next req)))
        × ((require_any_permission d (p ∷ ps) req ≡ next req) ↔ (
            (require_permission d p req ≡ next req) ⊎ (require_any_permission d ps req ≡ next req)))
        × (require_all_permissions d [] req ≡ next req)
        × (require_any_permission d [] req ≢ next req)
  unfolding require_permission require_any_permission require_all_permissions
  gates_iff req user p ps u = (ground arith, ground arith, ground arith, ground arith)
