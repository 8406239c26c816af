-- ===== src/Bookmark/StoredTests.antt =====
-- The theorems on the repository of bookmarks at concrete inputs: two rows, and a collection of an
-- id that is there and one that is not.
use qa_api.Common.{String, Bool, false, ◌≡◌, refl, ◌===◌, ◌≤◌, none, [], ◌∷◌, length}
use qa_api.Effect.{ok}
use qa_api.Bookmark.Model.{answer, Collection, Stats}
use qa_api.Bookmark.Table.{BookmarkRow}
use qa_api.Bookmark.Source.{Dates}
use qa_api.Bookmark.Runs.{row, list}
use qa_api.Bookmark.Repository.{CollectionSource, repository, get_bookmark_stats}
use qa_api.Bookmark.Laws.{IsLawful}
use qa_api.Bookmark.Refined.{repository-IsLawful}
use qa_api.Bookmark.Stored.{sum_of, stats_add_up_by_type}
use qa_api.Bookmark.TableMemory.{Db, rows, table, table-IsTable}

abbrev dates : Dates
dates = record { parse = λ s. 0; iso = λ n. "1970-01-01"; now = 7 }

abbrev contains : String → String → Bool
contains a b = a === b

abbrev no_collection : Collection
no_collection = record {
  id = "";
  user_id = "";
  name = "";
  description = none;
  color = none;
  is_public = false;
}

-- One collection, of the bookmarks b1 and b9.
abbrev collections : CollectionSource Db
collections = record {
  create = λ d db. (ok no_collection, db);
  find_by_user_id = λ u db. (ok [], db);
  update_by_id = λ id d db. (ok none, db);
  delete_by_id = λ id db. (ok false, db);
  add_item = λ b id db. (ok tt, db);
  remove_item = λ b id db. (ok false, db);
  find_items = λ id db. (ok ("b9" ∷ "b1" ∷ []), db);
}

abbrev row_of : String → BookmarkRow
row_of id = record {
  id = id;
  user_id = "ann";
  target_type = answer;
  target_id = id;
  target_title = "";
  target_content = "";
  target_author = none;
  target_author_id = none;
  target_created_at = 0;
  target_url = none;
  tags = [];
  notes = none;
  is_public = false;
  created_at = 0;
}

abbrev stored : Db
stored = (row_of "b1" ∷ row_of "b2" ∷ [], (refl, (refl, tt)))

repository-IsLawful_example :
    IsLawful
      (repository dates table collections contains)
      (row dates table rows table-IsTable)
      (list dates table rows table-IsTable)
repository-IsLawful_example =
    repository-IsLawful dates table rows table-IsTable collections contains

stats_add_up_by_type_example :
    (s : Stats) × (get_bookmark_stats dates table collections contains "ann" stored
      ≡ (ok s, stored))
    × (s.total ≡ 2)
    × (sum_of s.by_type ≡ s.total)
    × (length s.recent ≤ 5)
stats_add_up_by_type_example =
    stats_add_up_by_type dates table rows table-IsTable collections contains "ann" stored
