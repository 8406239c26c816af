-- ===== src/Bookmark/Tests.antt =====
-- The theorems on bookmarks at concrete inputs: two users, one bookmark each, an empty cache.
use qa_api.Common.{
  String, Bool, true, false, ◌≡◌, ◌⊎◌, refl, Option, none, some, List, [], ◌∷◌, arith,
}
use qa_api.Effect.{ok, err}
use qa_api.Error.Handler.{Thrown}
use qa_api.Bookmark.Model.{answer, TargetData, Bookmark, AddBookmark, UpdateBookmark, Cached}
use qa_api.Bookmark.Manager.{add_bookmark, remove_bookmark, update_bookmark, get_user_bookmarks}
use qa_api.Bookmark.Owner.{others_bookmarks_kept}
use qa_api.Bookmark.Coherence.{
  Call, add, remove, update, read_list, read_stats, run, lists_are_current,
}
use qa_api.Bookmark.Memory.{row, list, repository, memory_repository-IsLawful, store, store-IsKept}

abbrev target : TargetData
target = record {
  title = "";
  content = "";
  author = none;
  author_id = none;
  created_at = "";
  url = none;
}

abbrev bookmark_of : String → String → Bookmark
bookmark_of id user = record {
  id = id;
  user_id = user;
  target_type = answer;
  target_id = id;
  target_data = target;
  tags = [];
  notes = none;
  is_public = false;
  created_at = 0;
}

abbrev rows : List Bookmark
rows = bookmark_of "b1" "ann" ∷ bookmark_of "b2" "bob" ∷ []

abbrev empty : String → Option Cached
empty key = none

abbrev any_id : String → Bool
any_id id = true

abbrev addition : AddBookmark
addition = record {
  target_type = answer;
  target_id = "b3";
  target_data = target;
  tags = none;
  notes = some "later";
  is_public = none;
}

abbrev notes_update : UpdateBookmark
notes_update = record { tags = none; notes = some "done"; is_public_dto = none }

others_bookmarks_kept_example :
    (row (add_bookmark repository store any_id "bob" addition (rows, empty)).1.0 "b1"
      ≡ some (bookmark_of "b1" "ann"))
    × (row (remove_bookmark repository store any_id "bob" "b1" (rows, empty)).1.0 "b1"
        ≡ some (bookmark_of "b1" "ann"))
    × (row (update_bookmark repository store any_id "bob" "b1" notes_update (rows, empty)).1.0 "b1"
        ≡ some (bookmark_of "b1" "ann"))
others_bookmarks_kept_example =
    others_bookmarks_kept repository store any_id row list memory_repository-IsLawful rows empty
      "bob" "b1" "b1" (bookmark_of "b1" "ann") addition notes_update refl refl

abbrev day : List Call
day =
    read_list "ann"
    ∷ add "ann" addition
    ∷ read_list "ann"
    ∷ remove "bob" "b1"
    ∷ update "ann" "b1" notes_update
    ∷ read_stats "ann"
    ∷ remove "ann" "b1"
    ∷ []

lists_are_current_example :
    let s' = run repository store any_id day (rows, empty) in
    let r = (get_user_bookmarks repository store any_id "ann" s').0 in
    (r ≡ ok (list s'.0 "ann"))
    ⊎ ((e : Thrown) × ((repository.find_by_user "ann" s'.0).0 ≡ err e) × (r ≡ err e))
lists_are_current_example =
    lists_are_current repository store any_id row list memory_repository-IsLawful store-IsKept day
      "ann" (rows, empty) (λ v l e. absurd (ground arith))
