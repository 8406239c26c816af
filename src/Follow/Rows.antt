-- ===== src/Follow/Rows.antt =====
-- Lists of rows of UserFollow: who follows whom, and what the calls of Prisma do to that.
use qa_api.Common.{
  String, Bool, true, false, not, ◌≡◌, refl, ◌&&◌, ◌||◌, ◌===◌, if◌then◌else◌, List, [], ◌∷◌, ◌++◌,
  map, select, any, includes, arith, eq_iff, sym, ◌∙◌, Bool-cases, inl, inr,
}
use qa_api.Follow.Table.{UserFollow, is_follow, put_all}

-- `a` follows `b`.
abbrev pub follows : List UserFollow → String → String → Bool
follows rows a b = any (is_follow a b) rows

abbrev pub follows_anyone : List UserFollow → String → Bool
follows_anyone rows a = any (λ r. r.follower_id === a) rows

abbrev pub has_follower : List UserFollow → String → Bool
has_follower rows a = any (λ r. r.following_id === a) rows

follows-append :
    (rows : List UserFollow) (r : UserFollow) (a b : String)
    → follows (rows ++ r ∷ []) a b ≡ (follows rows a b || is_follow a b r)
follows-append [] r a b = ground arith
follows-append (x ∷ rows) r a b = ground (arith, follows-append rows r a b)

follows-put :
    (rows : List UserFollow) (r : UserFollow) (a b : String) (there : Bool)
    → any (is_follow r.follower_id r.following_id) rows ≡ there
    → follows (if there then rows else rows ++ r ∷ []) a b ≡ (follows rows a b || is_follow a b r)
follows-put rows r a b false h = follows-append rows r a b
follows-put rows r a b true h = elim (Bool-cases (is_follow a b r)) [
  | inr other ↦ ground arith
  | inl same ↦
      let its_a : r.follower_id ≡ a = ground (arith, eq_iff r.follower_id a) in
      let its_b : r.following_id ≡ b = ground (arith, eq_iff r.following_id b) in
      let there : follows rows a b ≡ true = rw (sym its_a, sym its_b) h in rw there refl
]

pub follows-put_all :
    (xs : List UserFollow) (a b : String) (rows : List UserFollow)
    → follows (put_all rows xs) a b ≡ (follows rows a b || follows xs a b)
follows-put_all [] a b rows = ground arith
follows-put_all (x ∷ xs) a b rows =
    let put = follows-put rows x a b (any (is_follow x.follower_id x.following_id) rows) refl in
    follows-put_all xs a b
      (if any (is_follow x.follower_id x.following_id) rows then rows else rows ++ x ∷ [])
    ∙ rw put (ground arith)

pub follows-without_follower :
    (rows : List UserFollow) (id a b : String)
    → follows (select (λ r. not (r.follower_id === id)) rows) a b
      ≡ (not (a === id) && follows rows a b)
follows-without_follower [] id a b = ground arith
follows-without_follower (r ∷ rows) id a b =
    ground (arith, follows-without_follower rows id a b, eq_iff r.follower_id a)

pub follows-without_following :
    (rows : List UserFollow) (id a b : String)
    → follows (select (λ r. not (r.following_id === id)) rows) a b
      ≡ (not (b === id) && follows rows a b)
follows-without_following [] id a b = ground arith
follows-without_following (r ∷ rows) id a b =
    ground (arith, follows-without_following rows id a b, eq_iff r.following_id b)

pub follows-following :
    (id : String) (others : List String) (a b : String)
    → follows (map (λ other. record { follower_id = id; following_id = other }) others) a b
      ≡ (id === a && includes others b)
follows-following id [] a b = ground arith
follows-following id (o ∷ others) a b = ground (arith, follows-following id others a b)

pub follows-followers :
    (id : String) (others : List String) (a b : String)
    → follows (map (λ other. record { follower_id = other; following_id = id }) others) a b
      ≡ (id === b && includes others a)
follows-followers id [] a b = ground arith
follows-followers id (o ∷ others) a b = ground (arith, follows-followers id others a b)

-- What the two relations of a user name: the user, once for each row.
pub following_self :
    (rows : List UserFollow) (id other : String)
    → includes (map (λ r. r.following_id) (select (λ r. r.following_id === id) rows)) other
      ≡ (id === other && has_follower rows id)
following_self [] id other = ground arith
following_self (r ∷ rows) id other =
    ground (arith, following_self rows id other, eq_iff r.following_id id)

pub followers_self :
    (rows : List UserFollow) (id other : String)
    → includes (map (λ r. r.follower_id) (select (λ r. r.follower_id === id) rows)) other
      ≡ (id === other && follows_anyone rows id)
followers_self [] id other = ground arith
followers_self (r ∷ rows) id other =
    ground (arith, followers_self rows id other, eq_iff r.follower_id id)

pub includes-put :
    (xs : List String) (x y : String) → includes (xs ++ x ∷ []) y ≡ (includes xs y || x === y)
includes-put [] x y = ground arith
includes-put (z ∷ xs) x y = ground (arith, includes-put xs x y)
