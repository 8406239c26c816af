-- ===== src/Answer/Kinds.antt =====
-- Lists of users and rows of reactions: what a user's reaction is, read off either.
use qa_api.Common.{
  String, Bool, false, ◌≡◌, refl, ◌===◌, if◌then◌else◌, Option, none, some, List, [], ◌∷◌, ◌++◌,
  arith, includes, select, eq_iff, eq_refl,
}
use qa_api.Content.{question, answer}
use qa_api.Answer.Prisma.{Kind, Reaction, kind_of, has_row_of, is_about, IsOnce}
use qa_api.Answer.Source.{users_of, rows_of}

abbrev pub is_of : (Kind → Bool) → Option Kind → Bool
is_of p none = false
is_of p (some k) = p k

kind_of_absent : (u : String) (rs : List Reaction) → has_row_of u rs ≡ false → kind_of u rs ≡ none
kind_of_absent u [] h = refl
kind_of_absent u (r ∷ rs) h = ground (arith, kind_of_absent u rs)

-- The users of a kind are those whose reaction it is.
pub includes-users_of :
    (p : Kind → Bool) (u : String) (rs : List Reaction)
    → IsOnce rs
    → includes (users_of p rs) u ≡ is_of p (kind_of u rs)
includes-users_of p u [] h = refl
includes-users_of p u (r ∷ rs) h =
    ground
      (arith, includes-users_of p u rs h.1, kind_of_absent r.user_id rs h.0, eq_iff r.user_id u)

-- Of the rows written for one answer none is about another.
kind_of-select_rows :
    (k : Kind) (id u : String) (us : List String)
    → kind_of u (select (is_about answer id) (rows_of k id us))
      ≡ (if includes us u then some k else none)
kind_of-select_rows k id u [] = refl
kind_of-select_rows k id u (v ∷ us) = ground (arith, kind_of-select_rows k id u us, eq_refl id)

pub kind_of-written :
    (j k : Kind) (id u : String) (us vs : List String)
    → kind_of u (select (is_about answer id) (rows_of j id us ++ rows_of k id vs))
      ≡ (if includes us u then some j else if includes vs u then some k else none)
kind_of-written j k id u [] vs = kind_of-select_rows k id u vs
kind_of-written j k id u (v ∷ us) vs = ground (arith, kind_of-written j k id u us vs, eq_refl id)

-- Nothing is written for another answer.
pub kind_of-elsewhere :
    (j k : Kind) (id other u : String) (us vs : List String)
    → (id === other) ≡ false
    → kind_of u (select (is_about answer other) (rows_of j id us ++ rows_of k id vs)) ≡ none
kind_of-elsewhere j k id other u [] [] h = refl
kind_of-elsewhere j k id other u [] (v ∷ vs) h =
    ground (arith, kind_of-elsewhere j k id other u [] vs)
kind_of-elsewhere j k id other u (v ∷ us) vs h =
    ground (arith, kind_of-elsewhere j k id other u us vs)

-- Nothing is written for a question.
pub kind_of-questions :
    (j k : Kind) (id other u : String) (us vs : List String)
    → kind_of u (select (is_about question other) (rows_of j id us ++ rows_of k id vs)) ≡ none
kind_of-questions j k id other u [] [] = refl
kind_of-questions j k id other u [] (v ∷ vs) = kind_of-questions j k id other u [] vs
kind_of-questions j k id other u (v ∷ us) vs = kind_of-questions j k id other u us vs
