-- ===== src/Bookmark/Manager.antt =====
-- services/managers/BookmarkManager.ts. The log is left out.
use Prim.Native.String
use qa_api.Common.{
  String, Bool, true, false, not, ◌===◌, if◌then◌else◌, Option, none, some, List, [], ◌∷◌, any,
  includes, select,
}
use qa_api.Effect.{Outcome, ok, Action, pure, throw_if, ◌>>=◌, ◌>>◌, or_throw}
use qa_api.Error.Application.{validation_error_of, not_found_error, forbidden_error}
use qa_api.Bookmark.Model.{
  TargetType, question, answer, note, article, comment, TargetData, Bookmark, AddBookmark,
  UpdateBookmark, NewBookmark, BookmarkRepository, bookmarks, CacheProvider,
}

-- The keys of the cache.
abbrev pub user_key : String → String
user_key user_id = String.◌++◌ "bookmarks:user:" user_id

abbrev pub stats_key : String → String
stats_key user_id = String.◌++◌ "bookmarks:stats:" user_id

abbrev pub collections_key : String → String
collections_key user_id = String.◌++◌ "collections:user:" user_id

abbrev same_type : TargetType → TargetType → Bool
same_type question question = true
same_type answer answer = true
same_type note note = true
same_type article article = true
same_type comment comment = true
same_type _ _ = false

abbrev pub or_value {ℓ} : {A : Type ℓ} → Option A → A → A
or_value none d = d
or_value (some a) d = a

abbrev pub is_some {ℓ} : {A : Type ℓ} → Option A → Bool
is_some none = false
is_some (some _) = true

-- `bookmark && bookmark.user_id === userId`
abbrev pub owned_by : String → Option Bookmark → Bool
owned_by user_id none = false
owned_by user_id (some b) = b.user_id === user_id

-- An author id that is no id is dropped; `valid` is `isValidEntityId`.
abbrev pub sanitized : (String → Bool) → TargetData → TargetData
sanitized valid d = record d {
  author_id = elim d.author_id [ none ↦ none | some a ↦ if valid a then some a else none ];
}

abbrev pub new_bookmark : (String → Bool) → String → AddBookmark → NewBookmark
new_bookmark valid user_id d = record {
  user_id = user_id;
  target_type = d.target_type;
  target_id = d.target_id;
  target_data = sanitized valid d.target_data;
  tags = or_value d.tags [];
  notes = or_value d.notes "";
  is_public = or_value d.is_public false;
}

-- The filters of `searchBookmarks`.
abbrev by_type : Option TargetType → List Bookmark → List Bookmark
by_type none bs = bs
by_type (some t) bs = select (λ b. same_type b.target_type t) bs

abbrev by_tags : List String → List Bookmark → List Bookmark
by_tags [] bs = bs
by_tags (t ∷ ts) bs = select (λ b. any (λ tag. includes (t ∷ ts) tag) b.tags) bs

module _ {Db Cache : Type 0} (repo : BookmarkRepository Db) (cache : CacheProvider Cache)
    (valid : String → Bool) where
  -- A call of the repository, and a call of the cache that cannot fail.
  abbrev pub on_db : {A : Type 0} → Action Db A → Action (Db × Cache) A
  on_db m (db, c) = let (r, db') = m db in (r, (db', c))

  abbrev pub forget : String → Action (Db × Cache) (Unit {0})
  forget key (db, c) = (ok tt, (db, cache.del key c))

  abbrev pub forget_bookmarks : String → Action (Db × Cache) (Unit {0})
  forget_bookmarks user_id (db, c) =
      (ok tt, (db, cache.del (stats_key user_id) (cache.del (user_key user_id) c)))

  abbrev pub when : Bool → Action (Db × Cache) (Unit {0}) → Action (Db × Cache) (Unit {0})
  when b m s = elim b [ true ↦ m s | false ↦ (ok tt, s) ]

  unfoldable pub add_bookmark : String → AddBookmark → Action (Db × Cache) Bookmark
  add_bookmark user_id d = do
    throw_if (not (valid d.target_id)) (validation_error_of "Geçersiz hedef kimliği")
    existing ← on_db (repo.find_by_user_and_target user_id d.target_type d.target_id)
    throw_if (is_some existing) (validation_error_of "Bu öğe zaten bookmark'larınızda mevcut")
    b ← on_db (repo.create (new_bookmark valid user_id d))
    forget_bookmarks user_id
    pure b

  -- The first part of removing and updating: the bookmark exists, and the caller owns it.
  abbrev pub own_bookmark : String → String → String → Action (Db × Cache) Bookmark
  own_bookmark user_id id message = do
    found ← on_db (repo.find_by_id id)
    b ← or_throw found (not_found_error "Bookmark bulunamadı")
    throw_if (not (b.user_id === user_id)) (forbidden_error message)
    pure b

  unfoldable pub remove_bookmark : String → String → Action (Db × Cache) Bool
  remove_bookmark user_id id = do
    own_bookmark user_id id "Bu bookmark'ı silme yetkiniz yok"
    deleted ← on_db (repo.delete_by_id id)
    when (is_some deleted) (forget_bookmarks user_id)
    pure (is_some deleted)

  unfoldable pub update_bookmark :
      String → String → UpdateBookmark → Action (Db × Cache) (Option Bookmark)
  update_bookmark user_id id updates = do
    own_bookmark user_id id "Bu bookmark'ı güncelleme yetkiniz yok"
    updated ← on_db (repo.update_by_id id updates)
    when (is_some updated) (forget_bookmarks user_id)
    pure updated

  abbrev pub may_see : String → Option Bookmark → Bool
  may_see user_id none = true
  may_see user_id (some b) = if b.user_id === user_id then true else b.is_public

  unfoldable pub get_bookmark : String → String → Action (Db × Cache) (Option Bookmark)
  get_bookmark user_id id = do
    found ← on_db (repo.find_by_id id)
    throw_if (not (may_see user_id found)) (forbidden_error "Bu bookmark'a erişim yetkiniz yok")
    pure found

  -- `get`, and on a miss the repository and `set`, for five minutes.
  unfoldable pub get_user_bookmarks : String → Action (Db × Cache) (List Bookmark)
  get_user_bookmarks user_id (db, c) =
      let fresh : Outcome (List Bookmark) × (Db × Cache) =
        (do
          found ← on_db (repo.find_by_user user_id)
          λ (db', c'). (ok found, (db', cache.set (user_key user_id) (bookmarks found) 300 c')))
          (db, c) in
      elim (cache.get c (user_key user_id)) [ some (bookmarks l) ↦ (ok l, (db, c)) | _ ↦ fresh ]

  unfoldable pub check_bookmark_exists : String → TargetType → String → Action (Db × Cache) Bool
  check_bookmark_exists user_id target_type target_id = do
    b ← on_db (repo.find_by_user_and_target user_id target_type target_id)
    pure (is_some b)

  unfoldable pub search_bookmarks :
      String → String → Option TargetType → List String → Action (Db × Cache) (List Bookmark)
  search_bookmarks user_id query target_type tags = do
    found ← on_db (repo.search_by_user user_id query)
    pure (by_tags tags (by_type target_type found))
