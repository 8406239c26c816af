-- ===== src/Bookmark/Model.antt =====
-- models/interfaces/IBookmarkModel.ts, the data of services/contracts/IBookmarkService.ts, and the
-- interfaces that the manager is given: IBookmarkRepository and ICacheProvider. Times of
-- update are left out.
use qa_api.Common.{ℕ, String, Bool, Option, List}
use qa_api.Effect.{Action}

pub data TargetType : Type 0 where
  question answer note article comment : TargetType

pub record TargetData : Type 0 where
  pub title : String
  pub content : String
  pub author : Option String
  pub author_id : Option String
  pub created_at : String
  pub url : Option String

pub record Bookmark : Type 0 where
  pub id : String
  pub user_id : String
  pub target_type : TargetType
  pub target_id : String
  pub target_data : TargetData
  pub tags : List String
  pub notes : Option String
  pub is_public : Bool
  pub created_at : ℕ

pub record Collection : Type 0 where
  pub id : String
  pub user_id : String
  pub name : String
  pub description : Option String
  pub color : Option String
  pub is_public : Bool

pub record Stats : Type 0 where
  pub total : ℕ
  pub by_type : List (TargetType × ℕ)
  pub recent : List Bookmark

pub record AddBookmark : Type 0 where
  pub target_type : TargetType
  pub target_id : String
  pub target_data : TargetData
  pub tags : Option (List String)
  pub notes : Option String
  pub is_public : Option Bool

-- `UpdateBookmarkDTO`: its `isPublic` is no field of the entity, so it never reaches a column.
pub record UpdateBookmark : Type 0 where
  pub tags : Option (List String)
  pub notes : Option String
  pub is_public_dto : Option Bool

pub record CreateCollection : Type 0 where
  pub name : String
  pub description : Option String
  pub color : Option String
  pub is_public : Option Bool

pub record UpdateCollection : Type 0 where
  pub name : Option String
  pub description : Option String
  pub color : Option String
  pub is_public_dto : Option Bool

-- A bookmark or a collection that has no id yet.
pub record NewBookmark : Type 0 where
  pub user_id : String
  pub target_type : TargetType
  pub target_id : String
  pub target_data : TargetData
  pub tags : List String
  pub notes : String
  pub is_public : Bool

pub record NewCollection : Type 0 where
  pub user_id : String
  pub name : String
  pub description : Option String
  pub color : Option String
  pub is_public : Bool

-- `IBookmarkRepository`, as far as the manager calls it.
pub record BookmarkRepository (Db : Type 0) : Type 0 where
  pub create : NewBookmark → Action Db Bookmark
  pub find_by_id : String → Action Db (Option Bookmark)
  pub update_by_id : String → UpdateBookmark → Action Db (Option Bookmark)
  pub delete_by_id : String → Action Db (Option Bookmark)
  pub find_by_user : String → Action Db (List Bookmark)
  pub find_by_user_and_target : String → TargetType → String → Action Db (Option Bookmark)
  pub search_by_user : String → String → Action Db (List Bookmark)
  pub create_collection : NewCollection → Action Db Collection
  pub find_collections_by_user : String → Action Db (List Collection)
  pub update_collection : String → UpdateCollection → Action Db (Option Collection)
  pub delete_collection : String → Action Db Bool
  pub add_to_collection : String → String → Action Db (Unit {0})
  pub remove_from_collection : String → String → Action Db Bool
  pub find_collection_items : String → Action Db (List Bookmark)
  pub get_bookmark_stats : String → Action Db Stats

-- What the manager puts into the cache.
pub data Cached : Type 0 where
  bookmarks : List Bookmark → Cached
  collections : List Collection → Cached
  stats : Stats → Cached

-- `ICacheProvider`; a call does not throw (infrastructure/cache/RedisCacheProvider.ts). What is put
-- in comes out unchanged: there is no JSON round trip.
pub record CacheProvider (Cache : Type 0) : Type 0 where
  pub get : Cache → String → Option Cached
  pub set : String → Cached → ℕ → Cache → Cache
  pub del : String → Cache → Cache
