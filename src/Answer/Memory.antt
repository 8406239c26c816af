-- ===== src/Answer/Memory.antt =====
-- A database in memory that meets the laws of Answer/Prisma.antt: the parameter of the witnesses,
-- not a model of any code. A reaction that stands behind another of its user on the same content
-- is never seen.
use qa_api.Common.{
  String, Bool, false, not, ◌&&◌, ◌≡◌, refl, ◌===◌, if◌then◌else◌, Option, none, some, List, [],
  ◌∷◌, ◌++◌, arith, select, find, eq_iff,
}
use qa_api.Content.{ContentType}
use qa_api.Effect.{pure, modify}
use qa_api.Answer.Prisma.{
  Reaction, AnswerRow, RowPatch, Prisma, IsLawful, kind_of, has_row_of, is_about, same_type, IsOnce,
  or_else,
}

pub record Tables : Type 0 where
  pub answers : List AnswerRow
  pub reactions : List Reaction

unfoldable pub drop_user : String → List Reaction → List Reaction
drop_user u [] = []
drop_user u (r ∷ rs) = let rest = drop_user u rs in if r.user_id === u then rest else r ∷ rest

unfoldable pub firsts : List Reaction → List Reaction
unfolding drop_user
firsts [] = []
firsts (r ∷ rs) = r ∷ drop_user r.user_id (firsts rs)

has_row_of-drop_user :
    (u v : String) (rs : List Reaction)
    → has_row_of v (drop_user u rs) ≡ (if u === v then false else has_row_of v rs)
unfolding drop_user
has_row_of-drop_user u v [] = ground arith
has_row_of-drop_user u v (r ∷ rs) =
    ground (arith, has_row_of-drop_user u v rs, eq_iff r.user_id u, eq_iff r.user_id v, eq_iff u v)

drop_user-IsOnce : (u : String) (rs : List Reaction) → IsOnce rs → IsOnce (drop_user u rs)
unfolding drop_user
drop_user-IsOnce u [] h = tt
drop_user-IsOnce u (r ∷ rs) h =
    ground (arith, drop_user-IsOnce u rs h.1, has_row_of-drop_user u r.user_id rs)

firsts-IsOnce : (rs : List Reaction) → IsOnce (firsts rs)
unfolding firsts
firsts-IsOnce [] = tt
firsts-IsOnce (r ∷ rs) = ground (
  arith,
  drop_user-IsOnce r.user_id (firsts rs) (firsts-IsOnce rs),
  has_row_of-drop_user r.user_id r.user_id (firsts rs),
  eq_iff r.user_id r.user_id,
)

kind_of-drop_user :
    (u v : String) (rs : List Reaction)
    → (u === v) ≡ false
    → kind_of v (drop_user u rs) ≡ kind_of v rs
unfolding drop_user
kind_of-drop_user u v [] h = refl
kind_of-drop_user u v (r ∷ rs) h =
    ground (arith, kind_of-drop_user u v rs h, eq_iff r.user_id u, eq_iff r.user_id v, eq_iff u v)

kind_of-firsts : (u : String) (rs : List Reaction) → kind_of u (firsts rs) ≡ kind_of u rs
unfolding firsts
kind_of-firsts u [] = refl
kind_of-firsts u (r ∷ rs) =
    ground (arith, kind_of-firsts u rs, kind_of-drop_user r.user_id u (firsts rs))

kind_of-select_append :
    (u : String) (q : Reaction → Bool) (rs ss : List Reaction)
    → kind_of u (select q (rs ++ ss)) ≡ or_else (kind_of u (select q rs)) (kind_of u (select q ss))
kind_of-select_append u q [] ss = refl
kind_of-select_append u q (r ∷ rs) ss = ground (arith, kind_of-select_append u q rs ss)

select_gone :
    (t : ContentType) (c : String) (rs : List Reaction)
    → select (is_about t c) (select (λ r. not (is_about t c r)) rs) ≡ []
select_gone t c [] = refl
select_gone t c (r ∷ rs) = ground (arith, select_gone t c rs)

select_elsewhere :
    (t t' : ContentType) (c c' : String) (rs : List Reaction)
    → (same_type t t' && c === c') ≡ false
    → select (is_about t' c') (select (λ r. not (is_about t c r)) rs) ≡ select (is_about t' c') rs
select_elsewhere t t' c c' [] h = refl
select_elsewhere t t' c c' (r ∷ rs) h = ground (
  arith,
  select_elsewhere t t' c c' rs h,
  eq_iff r.content_id c,
  eq_iff r.content_id c',
  eq_iff c c',
)

abbrev or_value {ℓ} : {A : Type ℓ} → Option A → A → A
or_value none d = d
or_value (some a) d = a

-- The columns that the patch names.
abbrev patched : RowPatch → AnswerRow → AnswerRow
patched d row = record row { content = or_value d.content row.content }

abbrev blank : AnswerRow
blank = record {
  id = "new";
  content = "";
  user_id = "";
  question_id = "";
  is_accepted = false;
  created_at = 0;
  parent_id = none;
  parent_type = none;
  ancestors = none;
}

abbrev replace : String → RowPatch → List AnswerRow → List AnswerRow
replace id d [] = []
replace id d (row ∷ rows) =
    let rest = replace id d rows in if row.id === id then patched d row ∷ rows else row ∷ rest

abbrev pub memory : Prisma
memory = record {
  Db = Tables;
  find_unique = λ db id. find (λ row. row.id === id) db.answers;
  find_many = λ db. db.answers;
  create_row =
      λ d db. pure (patched d blank) (record db { answers = patched d blank ∷ db.answers });
  update_row = λ id d. modify (λ db. record db { answers = replace id d db.answers });
  delete_row =
      λ id. modify (λ db. record db { answers = select (λ row. not (row.id === id)) db.answers });
  find_reactions = λ db t c. firsts (select (is_about t c) db.reactions);
  delete_reactions =
      λ t c db. record db { reactions = select (λ r. not (is_about t c r)) db.reactions };
  create_reactions = λ rows db. record db { reactions = db.reactions ++ rows };
}

pub memory-IsLawful : IsLawful memory
unfolding firsts
memory-IsLawful = record {
  once = λ db t c. firsts-IsOnce (select (is_about t c) db.reactions);
  deleted = λ db t c. rw (select_gone t c db.reactions);
  deleted_elsewhere = λ db t t' c c' h. rw (select_elsewhere t t' c c' db.reactions h);
  created = λ db rows t c u. ground (
    arith,
    kind_of-firsts u (select (is_about t c) (db.reactions ++ rows)),
    kind_of-firsts u (select (is_about t c) db.reactions),
    kind_of-select_append u (is_about t c) db.reactions rows,
  );
  row_after_delete = λ db t c id. refl;
  row_after_create = λ db rows id. refl;
}
