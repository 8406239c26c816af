-- ===== src/Bookmark/Repository.antt =====
-- repositories/BookmarkRepository.ts over the data source of bookmarks. The data sources of
-- collections and of their items are parameters, and so is the test for a text in another, both in
-- lower case (`a.toLowerCase().includes(b.toLowerCase())`). Logging is left out.
use qa_api.Common.{
  ℕ, suc, ◌+◌, ◌-◌, ◌*◌, ◌/◌, String, Bool, true, false, ◌||◌, ◌===◌, ltb, leb, if◌then◌else◌,
  Option, none, some, List, [], ◌∷◌, length, take, drop, select, any, includes,
}
use qa_api.Effect.{ok, err, Action, pure, ◌>>=◌}
use qa_api.Error.Application.{database_error}
use qa_api.Error.Handler.{application}
use qa_api.Bookmark.Model.{
  TargetType, question, answer, note, article, comment, Bookmark, Collection, Stats, UpdateBookmark,
  NewCollection, UpdateCollection, BookmarkRepository,
}
use qa_api.Bookmark.Table.{same_type, Table}
use qa_api.Bookmark.Source
use qa_api.Bookmark.Source.{Dates, BookmarkPatch}

-- IBookmarkCollectionDataSource and IBookmarkCollectionItemDataSource; an item is read as the id of
-- its bookmark.
pub record CollectionSource (Db : Type 0) : Type 0 where
  pub create : NewCollection → Action Db Collection
  pub find_by_user_id : String → Action Db (List Collection)
  pub update_by_id : String → UpdateCollection → Action Db (Option Collection)
  pub delete_by_id : String → Action Db Bool
  pub add_item : String → String → Action Db (Unit {0})
  pub remove_item : String → String → Action Db Bool
  pub find_items : String → Action Db (List String)

-- The update that a caller asks for; `isPublic` of it is no field of the entity.
abbrev pub patch_of : UpdateBookmark → BookmarkPatch
patch_of d = record {
  user_id = none;
  target_type = none;
  target_id = none;
  target_data = none;
  tags = d.tags;
  notes = d.notes;
  is_public = none;
}

abbrev pub first {ℓ} : {A : Type ℓ} → List A → Option A
first [] = none
first (x ∷ _) = some x

abbrev type_is : TargetType → Bookmark → Bool
type_is t b = same_type b.target_type t

abbrev has_tag_of : List String → Bookmark → Bool
has_tag_of tags b = any (λ tag. includes tags tag) b.tags

abbrev notes_match : (String → Bool) → Option String → Bool
notes_match p none = false
notes_match p (some s) = p s

-- `byType` as the source builds it: each bookmark adds one to its type.
abbrev pub count_of : TargetType → List Bookmark → ℕ
count_of t [] = 0
count_of t (b ∷ bs) = if type_is t b then suc (count_of t bs) else count_of t bs

abbrev pub counts : List Bookmark → List (TargetType × ℕ)
counts bs =
    (question, count_of question bs)
    ∷ (answer, count_of answer bs)
    ∷ (note, count_of note bs)
    ∷ (article, count_of article bs)
    ∷ (comment, count_of comment bs)
    ∷ []

-- The stable sort by `createdAt`, newest first.
abbrev pub insert : Bookmark → List Bookmark → List Bookmark
insert b [] = b ∷ []
insert b (c ∷ cs) =
    let later = c ∷ insert b cs in if leb c.created_at b.created_at then b ∷ c ∷ cs else later

unfoldable pub newest_first : List Bookmark → List Bookmark
newest_first [] = []
newest_first (b ∷ bs) = insert b (newest_first bs)

pub record Filters : Type 0 where
  pub page : Option ℕ
  pub limit : Option ℕ
  pub target_type : Option TargetType
  pub tags : Option (List String)
  pub search : Option String

pub record Page : Type 0 where
  pub items : List Bookmark
  pub page : ℕ
  pub limit : ℕ
  pub total : ℕ
  pub total_pages : ℕ
  pub has_next : Bool
  pub has_prev : Bool

-- `n || d`
abbrev or_number : Option ℕ → ℕ → ℕ
or_number none d = d
or_number (some n) d = if leb n 0 then d else n

module _ (contains : String → String → Bool) where
  abbrev pub matches : String → Bookmark → Bool
  matches query b =
      contains b.target_data.title query
      || contains b.target_data.content query
      || notes_match (λ s. contains s query) b.notes
      || any (λ tag. contains tag query) b.tags

  abbrev matches_target : String → Bookmark → Bool
  matches_target query b =
      contains b.target_data.title query || contains b.target_data.content query

  abbrev by_type : Option TargetType → List Bookmark → List Bookmark
  by_type none bs = bs
  by_type (some t) bs = select (type_is t) bs

  abbrev by_tags : Option (List String) → List Bookmark → List Bookmark
  by_tags none bs = bs
  by_tags (some []) bs = bs
  by_tags (some (t ∷ ts)) bs = select (has_tag_of (t ∷ ts)) bs

  abbrev by_search : Option String → List Bookmark → List Bookmark
  by_search none bs = bs
  by_search (some s) bs = if s === "" then bs else select (matches_target s) bs

  unfoldable pub filtered : Filters → List Bookmark → List Bookmark
  filtered f bs = by_search f.search (by_tags f.tags (by_type f.target_type bs))

unfoldable pub paginate : ℕ → ℕ → List Bookmark → Page
paginate page limit bs =
    let total_pages = (length bs + limit - 1) / limit in
    record {
      items = take limit (drop ((page - 1) * limit) bs);
      page = page;
      limit = limit;
      total = length bs;
      total_pages = total_pages;
      has_next = ltb page total_pages;
      has_prev = ltb 1 page;
    }

module _ {Db : Type 0} (dates : Dates) (t : Table Db) (cs : CollectionSource Db)
    (contains : String → String → Bool) where
  -- `delete`: whatever the data source throws becomes a database error.
  unfoldable pub delete : String → Action Db Bool
  delete id db =
      let (r, db') = Source.delete_by_id dates t id db in
      elim r [
        | ok _ ↦ (ok true, db')
        | err _ ↦ (err (application (database_error "Bookmark silinemedi" none)), db')
      ]

  unfoldable pub find_by_user : String → Action Db (List Bookmark)
  find_by_user u = Source.find_by_field dates t (Source.user_id u)

  unfoldable pub find_by_target : TargetType → String → Action Db (List Bookmark)
  find_by_target type id = Source.find_by_fields dates t none none (some type) (some id)

  unfoldable pub find_by_user_and_target :
      String → TargetType → String → Action Db (Option Bookmark)
  find_by_user_and_target u type id = do
    found ← Source.find_by_fields dates t none (some u) (some type) (some id)
    pure (first found)

  unfoldable pub search_by_user : String → String → Action Db (List Bookmark)
  unfolding find_by_user
  search_by_user u query = do bs ← find_by_user u; pure (select (matches contains query) bs)

  unfoldable pub find_by_type : String → TargetType → Action Db (List Bookmark)
  find_by_type u type = Source.find_by_fields dates t none (some u) (some type) none

  unfoldable pub find_by_tags : String → List String → Action Db (List Bookmark)
  unfolding find_by_user
  find_by_tags u tags = do bs ← find_by_user u; pure (select (has_tag_of tags) bs)

  unfoldable pub find_paginated : String → Filters → Action Db Page
  unfolding find_by_user filtered paginate
  find_paginated u f = do
    bs ← find_by_user u
    pure (paginate (or_number f.page 1) (or_number f.limit 10) (filtered contains f bs))

  -- The loop over the items; a bookmark that cannot be read is left out.
  abbrev pub read_items : List String → Db → List Bookmark × Db
  read_items [] db = ([], db)
  read_items (id ∷ ids) db =
      let (r, db') = Source.find_by_id dates t id db in
      let (bs, db'') = read_items ids db' in (elim r [ ok b ↦ b ∷ bs | err _ ↦ bs ], db'')

  unfoldable pub find_collection_items : String → Action Db (List Bookmark)
  find_collection_items id = do
    items ← cs.find_items id
    λ db. let (bs, db') = read_items items db in (ok bs, db')

  unfoldable pub get_bookmark_stats : String → Action Db Stats
  unfolding find_by_user newest_first
  get_bookmark_stats u = do
    bs ← find_by_user u
    pure (record { total = length bs; by_type = counts bs; recent = take 5 (newest_first bs) })

  abbrev pub maybe : {A : Type 0} → Action Db A → Action Db (Option A)
  maybe m = do a ← m; pure (some a)

  -- The class as the interface that the manager is given.
  abbrev pub repository : BookmarkRepository Db
  repository = record {
    create = Source.create dates t;
    find_by_id = λ id. maybe (Source.find_by_id dates t id);
    update_by_id = λ id d. maybe (Source.update_by_id dates t id (patch_of d));
    delete_by_id = λ id. maybe (Source.delete_by_id dates t id);
    find_by_user = find_by_user;
    find_by_user_and_target = find_by_user_and_target;
    search_by_user = search_by_user;
    create_collection = cs.create;
    find_collections_by_user = cs.find_by_user_id;
    update_collection = cs.update_by_id;
    delete_collection = cs.delete_by_id;
    add_to_collection = cs.add_item;
    remove_from_collection = cs.remove_item;
    find_collection_items = find_collection_items;
    get_bookmark_stats = get_bookmark_stats;
  }
