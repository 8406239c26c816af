-- ===== src/Bookmark/Owner.antt =====
-- What adding, removing and updating a bookmark do to the store and the cache, and that none of
-- them touches a bookmark of another user.
use qa_api.Common.{
  String, Bool, true, false, ◌≡◌, ◌===◌, ◌⊎◌, inl, inr, Option, none, some, List, arith, eq_iff,
  Bool-cases,
}
use qa_api.Effect.{Outcome-cases}
use qa_api.Bookmark.Model.{Bookmark, AddBookmark, UpdateBookmark, BookmarkRepository, CacheProvider}
use qa_api.Bookmark.Manager.{
  user_key, stats_key, new_bookmark, add_bookmark, remove_bookmark, update_bookmark,
}
use qa_api.Bookmark.Laws.{IsLawful}

module _ {Db Cache : Type 0} (repo : BookmarkRepository Db) (cache : CacheProvider Cache)
    (valid : String → Bool) (row : Db → String → Option Bookmark)
    (list : Db → String → List Bookmark) (lawful : IsLawful repo row list) (db : Db) (c : Cache)
    (u : String) where
  -- The cache after both keys of the user were deleted.
  abbrev pub cleared : Cache
  cleared = cache.del (stats_key u) (cache.del (user_key u) c)

  -- A call has changed nothing, or has brought the store to `db'` and cleared the user's keys; it
  -- did the latter only with the bookmark `id` in the store and owned by the user.
  abbrev pub TouchesOwn : String → Db → Db × Cache → Type 0
  TouchesOwn id db' s =
      (s ≡ (db, c))
      ⊎ ((b : Bookmark) × (row db id ≡ some b) × ((b.user_id === u) ≡ true) × (s ≡ (db', cleared)))

  pub remove-TouchesOwn :
      (id : String)
      → TouchesOwn id (repo.delete_by_id id db).1 (remove_bookmark repo cache valid u id (db, c)).1
  unfolding remove_bookmark
  remove-TouchesOwn id = elim (Outcome-cases (repo.find_by_id id db).0) [
    | inl (none, e) ↦ inl (ground (arith, lawful.find_reads id db))
    | inl (some b, e) ↦ elim (Bool-cases (b.user_id === u)) [
      | inl owns ↦ elim (Outcome-cases (repo.delete_by_id id db).0) [
        | inl (some gone, d) ↦
            inr (b, lawful.find_finds id db b e, owns, ground (arith, lawful.find_reads id db))
        | inl (none, d) ↦ inl (
            ground
              (arith, lawful.find_reads id db, lawful.delete_refused id db (λ b' d'. cc (d, d'))))
        | inr (x, d) ↦ inl (
            ground
              (arith, lawful.find_reads id db, lawful.delete_refused id db (λ b' d'. cc (d, d'))))
      ]
      | inr other ↦ inl (ground (arith, lawful.find_reads id db))
    ]
    | inr (x, e) ↦ inl (ground (arith, lawful.find_reads id db))
  ]

  pub update-TouchesOwn :
      (id : String) (d : UpdateBookmark)
      → TouchesOwn id
          (repo.update_by_id id d db).1
          (update_bookmark repo cache valid u id d (db, c)).1
  unfolding update_bookmark
  update-TouchesOwn id d = elim (Outcome-cases (repo.find_by_id id db).0) [
    | inl (none, e) ↦ inl (ground (arith, lawful.find_reads id db))
    | inl (some b, e) ↦ elim (Bool-cases (b.user_id === u)) [
      | inl owns ↦ elim (Outcome-cases (repo.update_by_id id d db).0) [
        | inl (some new, r) ↦
            inr (b, lawful.find_finds id db b e, owns, ground (arith, lawful.find_reads id db))
        | inl (none, r) ↦ inl (
            ground
              (arith, lawful.find_reads id db, lawful.update_refused id d db (λ b' r'. cc (r, r'))))
        | inr (x, r) ↦ inl (
            ground
              (arith, lawful.find_reads id db, lawful.update_refused id d db (λ b' r'. cc (r, r'))))
      ]
      | inr other ↦ inl (ground (arith, lawful.find_reads id db))
    ]
    | inr (x, e) ↦ inl (ground (arith, lawful.find_reads id db))
  ]

  -- Adding has changed nothing, or has created the bookmark and cleared the user's keys.
  pub add-touches_own :
      (d : AddBookmark)
      → let s = (add_bookmark repo cache valid u d (db, c)).1 in
        (s ≡ (db, c)) ⊎ (s ≡ ((repo.create (new_bookmark valid u d) db).1, cleared))
  unfolding add_bookmark
  add-touches_own d = elim (Bool-cases (valid d.target_id)) [
    | inr bad ↦ inl (ground arith)
    | inl good ↦
        elim (Outcome-cases (repo.find_by_user_and_target u d.target_type d.target_id db).0) [
          | inl (some old, e) ↦
              inl (ground (arith, lawful.target_reads u d.target_type d.target_id db))
          | inl (none, e) ↦ elim (Outcome-cases (repo.create (new_bookmark valid u d) db).0) [
            | inl (b, r) ↦ inr (ground (arith, lawful.target_reads u d.target_type d.target_id db))
            | inr (x, r) ↦ inl (
                ground (
                  arith,
                  lawful.target_reads u d.target_type d.target_id db,
                  lawful.create_refused (new_bookmark valid u d) db (λ b' r'. cc (r, r')),
                ))
          ]
          | inr (x, e) ↦ inl (ground (arith, lawful.target_reads u d.target_type d.target_id db))
        ]
  ]

  -- What a call of the user may do to the bookmark `b` of another user under the id `j`: nothing.
  kept_of_TouchesOwn :
      (id j : String) (b : Bookmark) (db' : Db) (s : Db × Cache)
      → ((id === j) ≡ false → row db' j ≡ row db j)
      → row db j ≡ some b
      → (b.user_id === u) ≡ false
      → TouchesOwn id db' s
      → row s.0 j ≡ some b
  kept_of_TouchesOwn id j b db' s same h other (inl e) = ground arith
  kept_of_TouchesOwn id j b db' s same h other (inr (mine, stored, owns, e)) =
      elim (Bool-cases (id === j)) [
        | inl eq ↦ cc (stored, h, owns, other, (eq_iff id j).0 eq)
        | inr ne ↦ ground (arith, same ne)
      ]

  added_kept :
      (j : String) (b : Bookmark) (d : AddBookmark)
      → row db j ≡ some b
      → row (add_bookmark repo cache valid u d (db, c)).1.0 j ≡ some b
  added_kept j b d h = elim (add-touches_own d) [
    | inl same ↦ ground arith
    | inr made ↦ ground (arith, lawful.create_row (new_bookmark valid u d) db j b h)
  ]

  -- Over a lawful repository, whatever a user adds, removes or updates, and whether the call succeeds or throws: a bookmark
  -- of another user stays stored as it was.
  pub others_bookmarks_kept :
      (id j : String) (b : Bookmark) (d : AddBookmark) (updates : UpdateBookmark)
      → row db j ≡ some b
      → (b.user_id === u) ≡ false
      → (row (add_bookmark repo cache valid u d (db, c)).1.0 j ≡ some b)
        × (row (remove_bookmark repo cache valid u id (db, c)).1.0 j ≡ some b)
        × (row (update_bookmark repo cache valid u id updates (db, c)).1.0 j ≡ some b)
  others_bookmarks_kept id j b d updates h other = (
    added_kept j b d h,
    kept_of_TouchesOwn id j b _ _ (lawful.delete_row id db j) h other (remove-TouchesOwn id),
    kept_of_TouchesOwn id j b _ _ (lawful.update_row id updates db j) h other
        (update-TouchesOwn id updates),
  )
