-- ===== src/Bookmark/Stored.antt =====
-- Statistics and collections as repositories/BookmarkRepository.ts reads them off the table.
use qa_api.Common.{
  ℕ, zero, suc, ◌+◌, ◌≤◌, String, Bool, ◌≡◌, refl, Option, none, some, List, [], ◌∷◌, arith, length,
  take, map, if◌then◌else◌, ◌∙◌, ap, inl, inr,
}
use qa_api.Effect.{ok}
use qa_api.Bookmark.Model.{TargetType, question, answer, note, article, comment, Bookmark, Stats}
use qa_api.Bookmark.Table.{same_type, BookmarkRow, Table, IsTable}
use qa_api.Bookmark.Source
use qa_api.Bookmark.Source.{Dates}
use qa_api.Bookmark.Runs.{row, list, find_by_id-run}
use qa_api.Bookmark.Repository.{
  CollectionSource, count_of, counts, newest_first, get_bookmark_stats, find_collection_items,
  find_by_user, read_items,
}

abbrev pub sum_of : List (TargetType × ℕ) → ℕ
sum_of [] = 0
sum_of ((_, n) ∷ rest) = n + sum_of rest

-- The bookmarks that stand under some ids, in the order of the ids.
abbrev pub present : (String → Option Bookmark) → List String → List Bookmark
present look [] = []
present look (id ∷ ids) = elim (look id) [ none ↦ present look ids | some b ↦ b ∷ present look ids ]

-- One more for exactly one of the five types.
one_more :
    (t : TargetType) (a b c d e : ℕ)
    → (if same_type t question then suc a else a)
        + ((if same_type t answer then suc b else b)
            + ((if same_type t note then suc c else c)
                + ((if same_type t article then suc d else d)
                    + ((if same_type t comment then suc e else e) + 0))))
      ≡ suc (a + (b + (c + (d + (e + 0)))))
one_more question a b c d e = omega arith
one_more answer a b c d e = omega arith
one_more note a b c d e = omega arith
one_more article a b c d e = omega arith
one_more comment a b c d e = omega arith

sum_of-counts : (bs : List Bookmark) → sum_of (counts bs) ≡ length bs
sum_of-counts [] = refl
sum_of-counts (b ∷ bs) =
    one_more b.target_type (count_of question bs) (count_of answer bs) (count_of note bs)
      (count_of article bs) (count_of comment bs)
    ∙ ap suc (sum_of-counts bs)

length-take_le {ℓ} : {A : Type ℓ} (n : ℕ) (xs : List A) → length (take n xs) ≤ n
length-take_le zero xs = omega arith
length-take_le (suc n) [] = omega arith
length-take_le (suc n) (x ∷ xs) = omega (arith, length-take_le n xs)

module _ {Db : Type 0} (dates : Dates) (t : Table Db) (rows : Db → List BookmarkRow)
    (table : IsTable t rows) (cs : CollectionSource Db) (contains : String → String → Bool) where
  -- The statistics of a user are always returned and change nothing: the counts by type add up to
  -- the total, which is the number of the user's bookmarks, and at most five are recent.
  pub stats_add_up_by_type :
      (u : String) (db : Db)
      → (s : Stats) × (get_bookmark_stats dates t cs contains u db ≡ (ok s, db))
        × (s.total ≡ length (list dates t rows table db u))
        × (sum_of s.by_type ≡ s.total)
        × (length s.recent ≤ 5)
  unfolding get_bookmark_stats find_by_user Source.find_by_field
  stats_add_up_by_type u db =
      let bs =
        map (Source.to_entity dates t)
          (t.find_many db (record Source.anything { user_id = some u })) in
      (
        record { total = length bs; by_type = counts bs; recent = take 5 (newest_first bs) },
        refl,
        ap (λ rs. length (map (Source.to_entity dates t) rs))
            (table.many db (record Source.anything { user_id = some u })),
        sum_of-counts bs,
        length-take_le 5 (newest_first bs),
      )

  read_items-present :
      (ids : List String) (db : Db)
      → read_items dates t cs contains ids db ≡ (present (row dates t rows table db) ids, db)
  read_items-present [] db = refl
  read_items-present (id ∷ ids) db = elim (find_by_id-run dates t rows table id db) [
    | inl (gone, e, run) ↦ ground (arith, read_items-present ids db)
    | inr (r, found, run) ↦ ground (arith, read_items-present ids db)
  ]

  -- The items of a collection are the bookmarks of its ids that are still there, in the order of the
  -- ids; those that were deleted are left out and do not make the call fail.
  pub collection_items_present :
      (id : String) (ids : List String) (db db' : Db)
      → cs.find_items id db ≡ (ok ids, db')
      → find_collection_items dates t cs contains id db
        ≡ (ok (present (row dates t rows table db') ids), db')
  unfolding find_collection_items
  collection_items_present id ids db db' h = ground (arith, read_items-present ids db')
