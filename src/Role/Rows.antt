-- ===== src/Role/Rows.antt =====
-- Lists of rows of UserRole: who holds which role, and what a row that is put in or made inactive
-- does to that.
use qa_api.Common.{
  String, Bool, true, false, ◌≡◌, refl, ◌&&◌, ◌||◌, ◌===◌, if◌then◌else◌, none, some, List, [], ◌∷◌,
  ◌++◌, map, select, find, any, arith, eq_iff, eq_refl, Bool-cases, inl, inr, sym, ap, ◌∙◌,
}
use qa_api.Role.Table.{UserRole, UserRolePatch, of_user, is_pair, has_id, patched, changed, IsKeyed}

-- A row that gives a user a role now.
abbrev pub gives : String → String → UserRole → Bool
gives u role r = is_pair u role r && r.is_active

abbrev pub holds : List UserRole → String → String → Bool
holds rs u role = any (gives u role) rs

pub any-put :
    (p : UserRole → Bool) (rs : List UserRole) (r : UserRole)
    → any p (rs ++ r ∷ []) ≡ (any p rs || p r)
any-put p [] r = ground arith
any-put p (x ∷ rs) r = ground (arith, any-put p rs r)

pub find-pair :
    (u role : String) (rs : List UserRole) (r : UserRole)
    → find (λ x. x.role_id === role) (select (of_user u) rs) ≡ some r
    → (any (has_id r.id) rs ≡ true) × (any (is_pair u role) rs ≡ true)
find-pair u role [] r h = absurd (ground arith)
find-pair u role (x ∷ rs) r h = ground (arith, find-pair u role rs r, eq_refl x.id)

pub find-no-pair :
    (u role : String) (rs : List UserRole)
    → find (λ x. x.role_id === role) (select (of_user u) rs) ≡ none
    → any (is_pair u role) rs ≡ false
find-no-pair u role [] h = refl
find-no-pair u role (x ∷ rs) h = ground (arith, find-no-pair u role rs)

changed_absent :
    (id : String) (p : UserRolePatch) (rs : List UserRole)
    → any (has_id id) rs ≡ false
    → map (changed id p) rs ≡ rs
changed_absent id p [] h = refl
changed_absent id p (r ∷ rs) h = ground (arith, changed_absent id p rs)

no_pair-gives :
    (u role : String) (rs : List UserRole)
    → any (is_pair u role) rs ≡ false
    → any (gives u role) rs ≡ false
no_pair-gives u role [] h = refl
no_pair-gives u role (r ∷ rs) h = ground (arith, no_pair-gives u role rs)

here_case :
    (u role u' role' : String) (x : UserRole) (rs : List UserRole)
    → x.user_id ≡ u
    → x.role_id ≡ role
    → any (gives u role) rs ≡ false
    → (now : Bool) → now ≡ false
    → (rest : List UserRole) → rest ≡ rs
    → (now || any (gives u' role') rest)
      ≡ (if u === u' && role === role' then false else gives u' role' x || any (gives u' role') rs)
here_case u role u' role' x rs user its_role alone now off rest kept =
    elim (Bool-cases (u === u' && role === role')) [
      | inl same ↦
          let a : u ≡ u' = ground (arith, eq_iff u u') in
          let b : role ≡ role' = ground (arith, eq_iff role role') in
          rw (same, off, kept) (rw (a, b) at alone)
      | inr other ↦
          let none_of_x : gives u' role' x ≡ false = rw (user, its_role) (ground arith) in
          rw (other, off, kept, none_of_x) refl
    ]

there_case :
    (u role u' role' : String) (x y : UserRole)
    → y ≡ x
    → is_pair u role x ≡ false
    → (now before : Bool) → now ≡ (if u === u' && role === role' then false else before)
    → (gives u' role' y || now)
      ≡ (if u === u' && role === role' then false else gives u' role' x || before)
there_case u role u' role' x y same other now before h =
    elim (Bool-cases (u === u' && role === role')) [
      | inl pair ↦
          let a : u ≡ u' = ground (arith, eq_iff u u') in
          let b : role ≡ role' = ground (arith, eq_iff role role') in
          let other' : is_pair u' role' x ≡ false = rw (sym a, sym b) other in
          rw same (ground arith)
      | inr apart ↦ rw same (ground arith)
    ]

-- A row of a user and a role is made inactive: that role is taken from that user, and no other is.
pub holds-changed :
    (u role u' role' : String) (p : UserRolePatch) (rs : List UserRole) (r : UserRole)
    → ((x : UserRole) → gives u' role' (patched p x) ≡ false)
    → IsKeyed rs
    → find (λ x. x.role_id === role) (select (of_user u) rs) ≡ some r
    → holds (map (changed r.id p) rs) u' role'
      ≡ (if u === u' && role === role' then false else holds rs u' role')
holds-changed u role u' role' p [] r off keyed h = absurd (ground arith)
holds-changed u role u' role' p (x ∷ rs) r off keyed h = elim (Bool-cases (is_pair u role x)) [
  | inl pair ↦
      let same : x ≡ r = ground arith in
      let user : x.user_id ≡ u = ground (arith, eq_iff x.user_id u) in
      let its_role : x.role_id ≡ role = ground (arith, eq_iff x.role_id role) in
      let now : gives u' role' (changed r.id p x) ≡ false =
        ap (λ i. gives u' role' (if x.id === i then patched p x else x)) (ap (λ y. y.id) (sym same))
        ∙ rw (eq_refl x.id) (off x) in
      let kept : map (changed r.id p) rs ≡ rs =
        changed_absent r.id p rs (rw (ap (λ y. y.id) (sym same)) keyed.0) in
      let alone : any (gives u role) rs ≡ false =
        no_pair-gives u role rs (rw (sym user, sym its_role) keyed.1) in
      here_case u role u' role' x rs user its_role alone (gives u' role' (changed r.id p x)) now
        (map (changed r.id p) rs) kept
  | inr other ↦
      let found : find (λ y. y.role_id === role) (select (of_user u) rs) ≡ some r = ground arith in
      let rest = holds-changed u role u' role' p rs r off keyed.2 found in
      let apart : (x.id === r.id) ≡ false = elim (Bool-cases (x.id === r.id)) [
        | inr different ↦ different
        | inl same ↦
            let id : x.id ≡ r.id = ground (arith, eq_iff x.id r.id) in
            absurd (cc ((find-pair u role rs r found).0, keyed.0, ap (λ i. any (has_id i) rs) id))
      ] in
      there_case u role u' role' x (changed r.id p x) (rw apart refl) other
        (any (gives u' role') (map (changed r.id p) rs)) (any (gives u' role') rs) rest
]
