-- ===== src/Bookmark/Laws.antt =====
-- What the manager relies on: a repository whose writes concern one owner, and a cache that is at
-- hand and keeps what was put in until it is deleted or lapses.
use qa_api.Common.{ℕ, String, false, ◌≡◌, ◌===◌, if◌then◌else◌, Option, none, some, List}
use qa_api.Effect.{Outcome, ok}
use qa_api.Bookmark.Model.{
  Bookmark, UpdateBookmark, NewBookmark, BookmarkRepository, TargetType, Cached, CacheProvider,
}

-- Reading does not write.
abbrev pub Reads : {Db A : Type 0} → (Db → Outcome A × Db) → Type 0
Reads {Db} m = (db : Db) → (m db).1 ≡ db

-- `row db id` is the bookmark that is stored under `id`, `list db u` the list of a user's
-- bookmarks as the repository reads it.
pub record IsLawful {Db : Type 0} (repo : BookmarkRepository Db)
    (row : Db → String → Option Bookmark) (list : Db → String → List Bookmark) : Type 0 where
  pub find_reads : (id : String) → Reads (repo.find_by_id id)
  pub find_finds :
      (id : String) (db : Db) (b : Bookmark)
      → (repo.find_by_id id db).0 ≡ ok (some b)
      → row db id ≡ some b
  pub target_reads :
      (u : String) (t : TargetType) (id : String) → Reads (repo.find_by_user_and_target u t id)
  pub user_reads : (u : String) → Reads (repo.find_by_user u)
  pub user_lists :
      (u : String) (db : Db) (l : List Bookmark) → (repo.find_by_user u db).0 ≡ ok l → l ≡ list db u
  pub stats_reads : (u : String) → Reads (repo.get_bookmark_stats u)
  -- A new bookmark changes the list of its owner alone, and nothing when it is refused.
  pub create_list :
      (d : NewBookmark) (db : Db) (u : String)
      → (d.user_id === u) ≡ false
      → list (repo.create d db).1 u ≡ list db u
  pub create_refused :
      (d : NewBookmark) (db : Db)
      → ((b : Bookmark) → (repo.create d db).0 ≡ ok b → ⊥)
      → (repo.create d db).1 ≡ db
  pub create_row :
      (d : NewBookmark) (db : Db) (j : String) (b : Bookmark)
      → row db j ≡ some b
      → row (repo.create d db).1 j ≡ some b
  -- Deleting and updating change the bookmark of that id, in the list of its owner, and nothing
  -- when no bookmark comes back.
  pub delete_list :
      (id : String) (db : Db) (b : Bookmark) (u : String)
      → row db id ≡ some b
      → (b.user_id === u) ≡ false
      → list (repo.delete_by_id id db).1 u ≡ list db u
  pub delete_refused :
      (id : String) (db : Db)
      → ((b : Bookmark) → (repo.delete_by_id id db).0 ≡ ok (some b) → ⊥)
      → (repo.delete_by_id id db).1 ≡ db
  pub delete_row :
      (id : String) (db : Db) (j : String)
      → (id === j) ≡ false
      → row (repo.delete_by_id id db).1 j ≡ row db j
  pub update_list :
      (id : String) (d : UpdateBookmark) (db : Db) (b : Bookmark) (u : String)
      → row db id ≡ some b
      → (b.user_id === u) ≡ false
      → list (repo.update_by_id id d db).1 u ≡ list db u
  pub update_refused :
      (id : String) (d : UpdateBookmark) (db : Db)
      → ((b : Bookmark) → (repo.update_by_id id d db).0 ≡ ok (some b) → ⊥)
      → (repo.update_by_id id d db).1 ≡ db
  pub update_row :
      (id : String) (d : UpdateBookmark) (db : Db) (j : String)
      → (id === j) ≡ false
      → row (repo.update_by_id id d db).1 j ≡ row db j

-- After `del` the key is gone; after `set` it may hold the new value; no other key gains a value.
pub record IsKept {Cache : Type 0} (cache : CacheProvider Cache) : Type 0 where
  pub deleted : (c : Cache) (key : String) → cache.get (cache.del key c) key ≡ none
  pub del_keeps :
      (c : Cache) (key other : String) (v : Cached)
      → cache.get (cache.del key c) other ≡ some v
      → cache.get c other ≡ some v
  pub set_gives :
      (c : Cache) (key other : String) (v w : Cached) (ttl : ℕ)
      → cache.get (cache.set key v ttl c) other ≡ some w
      → if key === other then w ≡ v else cache.get c other ≡ some w
