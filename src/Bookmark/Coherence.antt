-- ===== src/Bookmark/Coherence.antt =====
-- The cached bookmark lists agree with the repository, whatever calls the users make.
use qa_api.Common.{
  String, Bool, false, ◌≡◌, ◌===◌, ◌⊎◌, inl, inr, Option, some, List, [], ◌∷◌, arith, eq_iff,
  Bool-cases, Option-cases,
}
use text.Mathlib.TextLemmas.{append_cancel_left}
use qa_api.Effect.{Outcome, ok, err, Outcome-cases}
use qa_api.Error.Handler.{Thrown}
use qa_api.Bookmark.Model.{
  Bookmark, Stats, AddBookmark, UpdateBookmark, BookmarkRepository, CacheProvider, bookmarks,
  collections, stats,
}
use qa_api.Bookmark.Manager.{
  user_key, stats_key, new_bookmark, add_bookmark, remove_bookmark, update_bookmark,
  get_user_bookmarks,
}
use qa_api.Bookmark.Collections.{get_bookmark_stats}
use qa_api.Bookmark.Laws.{IsLawful, IsKept}
use qa_api.Bookmark.Owner.{
  cleared, TouchesOwn, add-touches_own, remove-TouchesOwn, update-TouchesOwn,
}

-- The calls that read or write the list of a user's bookmarks, or the cache next to it; the first
-- argument is the caller.
pub data Call : Type 0 where
  add : String → AddBookmark → Call
  remove : String → String → Call
  update : String → String → UpdateBookmark → Call
  read_list : String → Call
  read_stats : String → Call

module _ {Db Cache : Type 0} (repo : BookmarkRepository Db) (cache : CacheProvider Cache)
    (valid : String → Bool) where
  -- One call, whether it succeeds or throws, and any number of them in a row.
  abbrev pub step : Call → Db × Cache → Db × Cache
  step (add u d) s = (add_bookmark repo cache valid u d s).1
  step (remove u id) s = (remove_bookmark repo cache valid u id s).1
  step (update u id d) s = (update_bookmark repo cache valid u id d s).1
  step (read_list u) s = (get_user_bookmarks repo cache valid u s).1
  step (read_stats u) s = (get_bookmark_stats repo cache valid u s).1

  abbrev pub run : List Call → Db × Cache → Db × Cache
  run [] s = s
  run (call ∷ calls) s = run calls (step call s)

module _ {Db Cache : Type 0} (repo : BookmarkRepository Db) (cache : CacheProvider Cache)
    (valid : String → Bool) (row : Db → String → Option Bookmark)
    (list : Db → String → List Bookmark) (lawful : IsLawful repo row list)
    (kept : IsKept cache) where
  -- A list that the cache holds for a user is the list that the repository would read.
  abbrev pub Coherent : Db × Cache → Type 0
  Coherent (db, c) =
      (v : String) (l : List Bookmark)
      → cache.get c (user_key v) ≡ some (bookmarks l)
      → l ≡ list db v

  cleared-Coherent :
      (db db' : Db) (c : Cache) (u : String)
      → ((v : String) → (u === v) ≡ false → list db' v ≡ list db v)
      → Coherent (db, c)
      → Coherent (db', cleared repo cache valid row list lawful db c u)
  cleared-Coherent db db' c u same h v l e =
      let first = kept.del_keeps (cache.del (user_key u) c) (stats_key u) (user_key v) _ e in
      elim (Bool-cases (u === v)) [
        | inl eq ↦ cc (first, kept.deleted c (user_key u), (eq_iff u v).0 eq)
        | inr ne ↦ cc (same v ne, h v l (kept.del_keeps c (user_key u) (user_key v) _ first))
      ]

  -- From the two cases of `TouchesOwn`, for a change of one user's bookmark.
  touched-Coherent :
      (id u : String) (db db' : Db) (c : Cache) (s : Db × Cache)
      → ((b : Bookmark) (v : String)
          → row db id ≡ some b
          → (b.user_id === v) ≡ false
          → list db' v ≡ list db v)
      → TouchesOwn repo cache valid row list lawful db c u id db' s
      → Coherent (db, c)
      → Coherent s
  touched-Coherent id u db db' c s same (inl e) h = rw e h
  touched-Coherent id u db db' c s same (inr (b, stored, owns, e)) h = rw e (
      cleared-Coherent db db' c u (λ v ne. same b v stored (rw ((eq_iff b.user_id u).0 owns) ne)) h)

  -- The three ways `get_user_bookmarks` ends: with the cached list, with what the repository read
  -- and the cache now holds, or with the error of the repository.
  abbrev Lists : String → Db → Cache → Outcome (List Bookmark) × (Db × Cache) → Type 0
  Lists u db c r =
      ((l : List Bookmark) × (cache.get c (user_key u) ≡ some (bookmarks l))
        × (r ≡ (ok l, (db, c))))
      ⊎ ((l : List Bookmark) × ((repo.find_by_user u db).0 ≡ ok l)
          × (r ≡ (ok l, (db, cache.set (user_key u) (bookmarks l) 300 c))))
      ⊎ ((e : Thrown) × ((repo.find_by_user u db).0 ≡ err e) × (r ≡ (err e, (db, c))))

  get_user_bookmarks-Lists :
      (u : String) (db : Db) (c : Cache)
      → Lists u db c (get_user_bookmarks repo cache valid u (db, c))
  unfolding get_user_bookmarks
  get_user_bookmarks-Lists u db c = elim (Outcome-cases (repo.find_by_user u db).0) [
    | inl (l, r) ↦ elim (Option-cases (cache.get c (user_key u))) [
      | inl e ↦ inr (inl (l, r, ground (arith, lawful.user_reads u db)))
      | inr (bookmarks l', e) ↦ inl (l', e, ground arith)
      | inr (collections x, e) ↦ inr (inl (l, r, ground (arith, lawful.user_reads u db)))
      | inr (stats x, e) ↦ inr (inl (l, r, ground (arith, lawful.user_reads u db)))
    ]
    | inr (x, r) ↦ elim (Option-cases (cache.get c (user_key u))) [
      | inl e ↦ inr (inr (x, r, ground (arith, lawful.user_reads u db)))
      | inr (bookmarks l', e) ↦ inl (l', e, ground arith)
      | inr (collections y, e) ↦ inr (inr (x, r, ground (arith, lawful.user_reads u db)))
      | inr (stats y, e) ↦ inr (inr (x, r, ground (arith, lawful.user_reads u db)))
    ]
  ]

  -- Putting a user's own list into the cache.
  listed-Coherent :
      (u : String) (l : List Bookmark) (db : Db) (c : Cache)
      → l ≡ list db u
      → Coherent (db, c)
      → Coherent (db, cache.set (user_key u) (bookmarks l) 300 c)
  listed-Coherent u l db c current h v l' e =
      let given = kept.set_gives c (user_key u) (user_key v) (bookmarks l) _ 300 e in
      elim (Bool-cases (user_key u === user_key v)) [
        | inl eq ↦
            let new : bookmarks l' ≡ bookmarks l = rw eq at given in
            cc (
              append_cancel_left "bookmarks:user:" u v ((eq_iff (user_key u) (user_key v)).0 eq),
              current,
              new,
            )
        | inr ne ↦ h v l' (rw ne at given)
      ]

  counted-Coherent :
      (key : String) (x : Stats) (db : Db) (c : Cache)
      → Coherent (db, c)
      → Coherent (db, cache.set key (stats x) 600 c)
  counted-Coherent key x db c h v l' e =
      let given = kept.set_gives c key (user_key v) (stats x) _ 600 e in
      elim (Bool-cases (key === user_key v)) [
        | inl eq ↦ let new : bookmarks l' ≡ stats x = rw eq at given in cc new
        | inr ne ↦ h v l' (rw ne at given)
      ]

  read_list-Coherent :
      (u : String) (db : Db) (c : Cache)
      → Coherent (db, c)
      → Coherent (get_user_bookmarks repo cache valid u (db, c)).1
  read_list-Coherent u db c h = elim (get_user_bookmarks-Lists u db c) [
    | inl (l, hit, r) ↦ rw r h
    | inr (inl (l, found, r)) ↦ rw r (listed-Coherent u l db c (lawful.user_lists u db l found) h)
    | inr (inr (x, failed, r)) ↦ rw r h
  ]

  get_bookmark_stats-Counts :
      (u : String) (db : Db) (c : Cache)
      → let s = (get_bookmark_stats repo cache valid u (db, c)).1 in
        (s ≡ (db, c)) ⊎ ((x : Stats) × (s ≡ (db, cache.set (stats_key u) (stats x) 600 c)))
  unfolding get_bookmark_stats
  get_bookmark_stats-Counts u db c = elim (Outcome-cases (repo.get_bookmark_stats u db).0) [
    | inl (x, r) ↦ elim (Option-cases (cache.get c (stats_key u))) [
      | inl e ↦ inr (x, ground (arith, lawful.stats_reads u db))
      | inr (stats x', e) ↦ inl (ground arith)
      | inr (collections y, e) ↦ inr (x, ground (arith, lawful.stats_reads u db))
      | inr (bookmarks y, e) ↦ inr (x, ground (arith, lawful.stats_reads u db))
    ]
    | inr (x, r) ↦ inl (elim (Option-cases (cache.get c (stats_key u))) [
      | inl e ↦ ground (arith, lawful.stats_reads u db)
      | inr (stats x', e) ↦ ground arith
      | inr (collections y, e) ↦ ground (arith, lawful.stats_reads u db)
      | inr (bookmarks y, e) ↦ ground (arith, lawful.stats_reads u db)
    ])
  ]

  read_stats-Coherent :
      (u : String) (db : Db) (c : Cache)
      → Coherent (db, c)
      → Coherent (get_bookmark_stats repo cache valid u (db, c)).1
  read_stats-Coherent u db c h = elim (get_bookmark_stats-Counts u db c) [
    | inl r ↦ rw r h
    | inr (x, r) ↦ rw r (counted-Coherent (stats_key u) x db c h)
  ]

  step-Coherent :
      (call : Call) (s : Db × Cache) → Coherent s → Coherent (step repo cache valid call s)
  step-Coherent (add u d) (db, c) h =
      elim (add-touches_own repo cache valid row list lawful db c u d) [
        | inl e ↦ rw e h
        | inr e ↦
            rw e (cleared-Coherent db _ c u (lawful.create_list (new_bookmark valid u d) db) h)
      ]
  step-Coherent (remove u id) (db, c) h =
      touched-Coherent id u db _ c _ (lawful.delete_list id db)
        (remove-TouchesOwn repo cache valid row list lawful db c u id) h
  step-Coherent (update u id d) (db, c) h =
      touched-Coherent id u db _ c _ (lawful.update_list id d db)
        (update-TouchesOwn repo cache valid row list lawful db c u id d) h
  step-Coherent (read_list u) (db, c) h = read_list-Coherent u db c h
  step-Coherent (read_stats u) (db, c) h = read_stats-Coherent u db c h

  pub run-Coherent :
      (calls : List Call) (s : Db × Cache) → Coherent s → Coherent (run repo cache valid calls s)
  run-Coherent [] s h = h
  run-Coherent (call ∷ calls) s h =
      run-Coherent calls (step repo cache valid call s) (step-Coherent call s h)

  -- Over a lawful repository and cache, after any calls, which succeed or throw, from a state in which the cache agrees with the
  -- repository: the list that a user is given is the one the repository would read at that moment,
  -- from the cache or not; or the repository throws and so does the call.
  pub lists_are_current :
      (calls : List Call) (u : String) (s : Db × Cache)
      → Coherent s
      → let s' = run repo cache valid calls s in
        let r = (get_user_bookmarks repo cache valid u s').0 in
        (r ≡ ok (list s'.0 u))
        ⊎ ((e : Thrown) × ((repo.find_by_user u s'.0).0 ≡ err e) × (r ≡ err e))
  lists_are_current calls u s h =
      let (db, c) = run repo cache valid calls s in
      elim (get_user_bookmarks-Lists u db c) [
        | inl (l, hit, r) ↦ inl (cc (run-Coherent calls s h u l hit, r))
        | inr (inl (l, found, r)) ↦ inl (cc (lawful.user_lists u db l found, r))
        | inr (inr (x, failed, r)) ↦ inr (x, failed, cc r)
      ]
