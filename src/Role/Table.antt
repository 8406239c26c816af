-- ===== src/Role/Table.antt =====
-- The table `UserRole` of prisma/schema.prisma as the Prisma client serves it: a parameter, with
-- the documented behaviour of findMany, create and update, and the table's unique constraints, as
-- laws. Times other than the one of expiry are left out.
use qa_api.Common.{
  ℕ, String, Bool, true, false, ◌≡◌, ◌&&◌, ◌===◌, if◌then◌else◌, Option, none, some, List, [], ◌∷◌,
  ◌++◌, map, select, any,
}
use qa_api.Error.Handler.{Thrown}
use qa_api.Effect.{ok, err, Action}

pub record UserRole : Type 0 where
  pub id : String
  pub user_id : String
  pub role_id : String
  pub assigned_by : Option String
  pub expires_at : Option ℕ
  pub is_active : Bool

-- `data` of `userRole.create`; the id is the database's.
pub record NewUserRole : Type 0 where
  pub user_id : String
  pub role_id : String
  pub assigned_by : Option String
  pub expires_at : Option ℕ
  pub is_active : Bool

-- `data` of `userRole.update`: a column that is `none` is left alone.
pub record UserRolePatch : Type 0 where
  pub user_id : Option String
  pub role_id : Option String
  pub assigned_by : Option String
  pub expires_at : Option ℕ
  pub is_active : Option Bool

abbrev or_old {ℓ} : {A : Type ℓ} → Option A → A → A
or_old none a = a
or_old (some b) a = b

abbrev or_kept {ℓ} : {A : Type ℓ} → Option A → Option A → Option A
or_kept none b = b
or_kept (some a) b = some a

abbrev pub patched : UserRolePatch → UserRole → UserRole
patched p r = record {
  id = r.id;
  user_id = or_old p.user_id r.user_id;
  role_id = or_old p.role_id r.role_id;
  assigned_by = or_kept p.assigned_by r.assigned_by;
  expires_at = or_kept p.expires_at r.expires_at;
  is_active = or_old p.is_active r.is_active;
}

abbrev pub changed : String → UserRolePatch → UserRole → UserRole
changed id p r = if r.id === id then patched p r else r

abbrev pub of_user : String → UserRole → Bool
of_user u r = r.user_id === u

-- The pair of a user and a role, which is unique.
abbrev pub is_pair : String → String → UserRole → Bool
is_pair u role r = r.user_id === u && r.role_id === role

abbrev pub has_id : String → UserRole → Bool
has_id id r = r.id === id

-- The primary key, and the unique pair.
abbrev pub IsKeyed : List UserRole → Type 0
IsKeyed [] = Unit
IsKeyed (r ∷ rs) =
    (any (has_id r.id) rs ≡ false) × (any (is_pair r.user_id r.role_id) rs ≡ false) × IsKeyed rs

abbrev pub data_of : UserRole → NewUserRole
data_of r = record {
  user_id = r.user_id;
  role_id = r.role_id;
  assigned_by = r.assigned_by;
  expires_at = r.expires_at;
  is_active = r.is_active;
}

pub record Table (Db : Type 0) : Type 0 where
  pub find_by_user : Db → String → List UserRole
  pub find_by_role : Db → String → List UserRole
  pub create_row : NewUserRole → Action Db UserRole
  pub update_row : String → UserRolePatch → Action Db UserRole

-- `rows db` are all rows. A new row stands at the end; an update of a row that
-- is there, and that leaves its user and its role, succeeds.
pub record IsTable {Db : Type 0} (t : Table Db) (rows : Db → List UserRole) : Type 0 where
  pub keyed : (db : Db) → IsKeyed (rows db)
  pub by_user : (db : Db) (u : String) → t.find_by_user db u ≡ select (of_user u) (rows db)
  pub created :
      (d : NewUserRole) (db : Db)
      → any (is_pair d.user_id d.role_id) (rows db) ≡ false
      → (r : UserRole) × ((t.create_row d db).0 ≡ ok r)
        × (data_of r ≡ d)
        × (rows (t.create_row d db).1 ≡ rows db ++ r ∷ [])
  pub refused :
      (d : NewUserRole) (db : Db)
      → any (is_pair d.user_id d.role_id) (rows db) ≡ true
      → (e : Thrown) × (t.create_row d db ≡ (err e, db))
  pub updated :
      (id : String) (p : UserRolePatch) (db : Db)
      → p.user_id ≡ none
      → p.role_id ≡ none
      → any (has_id id) (rows db) ≡ true
      → (r : UserRole) × ((t.update_row id p db).0 ≡ ok r)
        × (rows (t.update_row id p db).1 ≡ map (changed id p) (rows db))
