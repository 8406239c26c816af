-- ===== src/Bookmark/Collections.antt =====
-- services/managers/BookmarkManager.ts: the operations on collections, and the statistics.
use qa_api.Common.{String, Bool, true, false, not, ◌===◌, Option, some, List, find}
use qa_api.Effect.{Outcome, ok, Action, pure, throw_if, ◌>>=◌, ◌>>◌, or_throw}
use qa_api.Error.Application.{not_found_error, forbidden_error}
use qa_api.Bookmark.Model.{
  Bookmark, Collection, Stats, CreateCollection, UpdateCollection, NewCollection,
  BookmarkRepository, collections, stats, CacheProvider,
}
use qa_api.Bookmark.Manager.{
  stats_key, collections_key, or_value, is_some, owned_by, on_db, forget, when,
}

abbrev new_collection : String → CreateCollection → NewCollection
new_collection user_id d = record {
  user_id = user_id;
  name = d.name;
  description = d.description;
  color = d.color;
  is_public = or_value d.is_public false;
}

module _ {Db Cache : Type 0} (repo : BookmarkRepository Db) (cache : CacheProvider Cache)
    (valid : String → Bool) where
  abbrev read : {A : Type 0} → Action Db A → Action (Db × Cache) A
  read = on_db repo cache valid

  unfoldable pub create_collection : String → CreateCollection → Action (Db × Cache) Collection
  create_collection user_id d = do
    made ← read (repo.create_collection (new_collection user_id d))
    forget repo cache valid (collections_key user_id)
    pure made

  unfoldable pub get_user_collections : String → Action (Db × Cache) (List Collection)
  get_user_collections user_id (db, c) =
      let fresh : Outcome (List Collection) × (Db × Cache) =
        (do
          found ← read (repo.find_collections_by_user user_id)
          λ (db', c').
              (ok found, (db', cache.set (collections_key user_id) (collections found) 300 c')))
          (db, c) in
      elim (cache.get c (collections_key user_id)) [
        | some (collections l) ↦ (ok l, (db, c))
        | _ ↦ fresh
      ]

  -- `collections.find(c => c._id === collectionId)` among the caller's collections
  abbrev find_own : String → String → Action (Db × Cache) (Option Collection)
  find_own user_id id = do
    own ← read (repo.find_collections_by_user user_id)
    pure (find (λ c. c.id === id) own)

  unfoldable pub update_collection :
      String → String → UpdateCollection → Action (Db × Cache) (Option Collection)
  update_collection user_id id updates = do
    found ← find_own user_id id
    or_throw found (not_found_error "Koleksiyon bulunamadı")
    updated ← read (repo.update_collection id updates)
    when repo cache valid (is_some updated) (forget repo cache valid (collections_key user_id))
    pure updated

  unfoldable pub delete_collection : String → String → Action (Db × Cache) Bool
  delete_collection user_id id = do
    found ← find_own user_id id
    or_throw found (not_found_error "Koleksiyon bulunamadı")
    deleted ← read (repo.delete_collection id)
    when repo cache valid deleted (forget repo cache valid (collections_key user_id))
    pure deleted

  -- The bookmark is the caller's, and so is the collection.
  abbrev check_both : String → String → String → String → String → Action (Db × Cache) (Unit {0})
  check_both user_id bookmark_id id no_bookmark no_collection = do
    b ← read (repo.find_by_id bookmark_id)
    throw_if (not (owned_by user_id b)) (forbidden_error no_bookmark)
    found ← find_own user_id id
    or_throw found (forbidden_error no_collection)
    pure tt

  unfoldable pub add_to_collection : String → String → String → Action (Db × Cache) Bool
  add_to_collection user_id bookmark_id id = do
    check_both user_id bookmark_id id "Bu bookmark'ı koleksiyona ekleme yetkiniz yok"
        "Bu koleksiyona ekleme yetkiniz yok"
    read (repo.add_to_collection bookmark_id id)
    pure true

  unfoldable pub remove_from_collection : String → String → String → Action (Db × Cache) Bool
  remove_from_collection user_id bookmark_id id = do
    check_both user_id bookmark_id id "Bu bookmark'ı koleksiyondan çıkarma yetkiniz yok"
        "Bu koleksiyondan çıkarma yetkiniz yok"
    read (repo.remove_from_collection bookmark_id id)

  unfoldable pub get_collection_items : String → String → Action (Db × Cache) (List Bookmark)
  get_collection_items user_id id = do
    found ← find_own user_id id
    or_throw found (forbidden_error "Bu koleksiyona erişim yetkiniz yok")
    read (repo.find_collection_items id)

  unfoldable pub get_bookmark_stats : String → Action (Db × Cache) Stats
  get_bookmark_stats user_id (db, c) =
      let fresh : Outcome Stats × (Db × Cache) =
        (do
          found ← read (repo.get_bookmark_stats user_id)
          λ (db', c'). (ok found, (db', cache.set (stats_key user_id) (stats found) 600 c')))
          (db, c) in
      elim (cache.get c (stats_key user_id)) [ some (stats s) ↦ (ok s, (db, c)) | _ ↦ fresh ]
