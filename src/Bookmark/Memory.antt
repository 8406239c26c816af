-- ===== src/Bookmark/Memory.antt =====
-- A repository and a cache in memory that meet the laws of Bookmark/Laws.antt: the parameters of
-- the witnesses, not a model of any code. Collections are left empty.
use qa_api.Common.{
  String, false, ◌≡◌, refl, ◌===◌, if◌then◌else◌, Option, none, some, List, [], ◌∷◌, ◌++◌, arith,
  eq_iff, eq_refl, select, find, Option-cases, inl, inr,
}
use qa_api.Effect.{ok}
use qa_api.Bookmark.Model.{
  Bookmark, Collection, UpdateBookmark, NewBookmark, BookmarkRepository, Cached, CacheProvider,
}
use qa_api.Bookmark.Manager.{or_value}
use qa_api.Bookmark.Laws.{IsLawful, IsKept}

abbrev Rows : Type 0
Rows = List Bookmark

abbrev pub row : Rows → String → Option Bookmark
row bs id = find (λ b. b.id === id) bs

abbrev pub list : Rows → String → List Bookmark
list bs u = select (λ b. b.user_id === u) bs

-- Without and with a change of the first bookmark of an id.
abbrev removed : String → Rows → Rows
removed id [] = []
removed id (b ∷ bs) = let rest = removed id bs in if b.id === id then bs else b ∷ rest

abbrev or_else : Option String → Option String → Option String
or_else none b = b
or_else (some a) b = some a

abbrev patched : UpdateBookmark → Bookmark → Bookmark
patched d b = record b { tags = or_value d.tags b.tags; notes = or_else d.notes b.notes }

abbrev changed : String → UpdateBookmark → Rows → Rows
changed id d [] = []
changed id d (b ∷ bs) =
    let rest = changed id d bs in if b.id === id then patched d b ∷ bs else b ∷ rest

abbrev made : NewBookmark → Bookmark
made d = record {
  id = d.target_id;
  user_id = d.user_id;
  target_type = d.target_type;
  target_id = d.target_id;
  target_data = d.target_data;
  tags = d.tags;
  notes = some d.notes;
  is_public = d.is_public;
  created_at = 0;
}

abbrev updated : String → UpdateBookmark → Rows → Option Bookmark
updated id d bs = elim (row bs id) [ none ↦ none | some b ↦ some (patched d b) ]

abbrev no_collection : Collection
no_collection = record {
  id = "";
  user_id = "";
  name = "";
  description = none;
  color = none;
  is_public = false;
}

abbrev pub repository : BookmarkRepository Rows
repository = record {
  create = λ d bs. (ok (made d), bs ++ (made d ∷ []));
  find_by_id = λ id bs. (ok (row bs id), bs);
  update_by_id = λ id d bs. (ok (updated id d bs), changed id d bs);
  delete_by_id = λ id bs. (ok (row bs id), removed id bs);
  find_by_user = λ u bs. (ok (list bs u), bs);
  find_by_user_and_target = λ u t id bs. (ok (find (λ b. b.target_id === id) (list bs u)), bs);
  search_by_user = λ u q bs. (ok (list bs u), bs);
  create_collection = λ d bs. (ok no_collection, bs);
  find_collections_by_user = λ u bs. (ok [], bs);
  update_collection = λ id d bs. (ok none, bs);
  delete_collection = λ id bs. (ok false, bs);
  add_to_collection = λ b id bs. (ok tt, bs);
  remove_from_collection = λ b id bs. (ok false, bs);
  find_collection_items = λ id bs. (ok [], bs);
  get_bookmark_stats = λ u bs. (ok (record { total = 0; by_type = []; recent = [] }), bs);
}

list-append :
    (bs : Rows) (b : Bookmark) (u : String)
    → (b.user_id === u) ≡ false
    → list (bs ++ (b ∷ [])) u ≡ list bs u
list-append [] b u h = ground arith
list-append (x ∷ bs) b u h = ground (arith, list-append bs b u h)

row-append :
    (bs : Rows) (new b : Bookmark) (j : String)
    → row bs j ≡ some b
    → row (bs ++ (new ∷ [])) j ≡ some b
row-append [] new b j h = ground arith
row-append (x ∷ bs) new b j h = ground (arith, row-append bs new b j)

list-removed :
    (id : String) (bs : Rows) (b : Bookmark) (u : String)
    → row bs id ≡ some b
    → (b.user_id === u) ≡ false
    → list (removed id bs) u ≡ list bs u
list-removed id [] b u h k = refl
list-removed id (x ∷ bs) b u h k = ground (arith, list-removed id bs b u)

removed-none : (id : String) (bs : Rows) → row bs id ≡ none → removed id bs ≡ bs
removed-none id [] h = refl
removed-none id (x ∷ bs) h = ground (arith, removed-none id bs)

row-removed :
    (id : String) (bs : Rows) (j : String) → (id === j) ≡ false → row (removed id bs) j ≡ row bs j
row-removed id [] j h = refl
row-removed id (x ∷ bs) j h =
    ground (arith, row-removed id bs j h, eq_iff x.id id, eq_iff x.id j, eq_refl j, eq_iff id j)

list-changed :
    (id : String) (d : UpdateBookmark) (bs : Rows) (b : Bookmark) (u : String)
    → row bs id ≡ some b
    → (b.user_id === u) ≡ false
    → list (changed id d bs) u ≡ list bs u
list-changed id d [] b u h k = refl
list-changed id d (x ∷ bs) b u h k = ground (arith, list-changed id d bs b u)

changed-none :
    (id : String) (d : UpdateBookmark) (bs : Rows) → row bs id ≡ none → changed id d bs ≡ bs
changed-none id d [] h = refl
changed-none id d (x ∷ bs) h = ground (arith, changed-none id d bs)

row-changed :
    (id : String) (d : UpdateBookmark) (bs : Rows) (j : String)
    → (id === j) ≡ false
    → row (changed id d bs) j ≡ row bs j
row-changed id d [] j h = refl
row-changed id d (x ∷ bs) j h =
    ground (arith, row-changed id d bs j h, eq_iff x.id id, eq_iff x.id j, eq_iff id j)

pub memory_repository-IsLawful : IsLawful repository row list
memory_repository-IsLawful = record {
  find_reads = λ id db. refl;
  find_finds = λ id db b h. ground arith;
  target_reads = λ u t id db. refl;
  user_reads = λ u db. refl;
  user_lists = λ u db l h. ground arith;
  stats_reads = λ u db. refl;
  create_list = λ d db u h. list-append db (made d) u h;
  create_refused = λ d db no. absurd (no (made d) refl);
  create_row = λ d db j b h. row-append db (made d) b j h;
  delete_list = λ id db b u h k. list-removed id db b u h k;
  delete_refused = λ id db no. elim (Option-cases (row db id)) [
    | inl e ↦ removed-none id db e
    | inr (b, e) ↦ absurd (no b (ground arith))
  ];
  delete_row = λ id db j h. row-removed id db j h;
  update_list = λ id d db b u h k. list-changed id d db b u h k;
  update_refused = λ id d db no. elim (Option-cases (row db id)) [
    | inl e ↦ changed-none id d db e
    | inr (b, e) ↦ absurd (no (patched d b) (ground arith))
  ];
  update_row = λ id d db j h. row-changed id d db j h;
}

-- A cache that never lapses.
abbrev pub store : CacheProvider (String → Option Cached)
store = record {
  get = λ c key. c key;
  set = λ key v ttl c other. if key === other then some v else c other;
  del = λ key c other. if key === other then none else c other;
}

pub store-IsKept : IsKept store
store-IsKept = record {
  deleted = λ c key. rw (eq_refl key) refl;
  del_keeps = λ c key other v h. ground arith;
  set_gives = λ c key other v w ttl h. ground arith;
}
