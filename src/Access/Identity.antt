-- ===== src/Access/Identity.antt =====
-- types/database.ts: which ids a database can have given out.
use Prim.Native.String.{String}
use qa_api.Common.{
  ℕ, zero, suc, ◌+◌, Bool, true, false, ◌&&◌, ◌||◌, leb, ◌==◌, if◌then◌else◌, List, [], ◌∷◌, ◌++◌,
  map,
}
use qa_api.Account.Strength.{codes, is_upper, is_digit}

-- `[0-9a-fA-F]`
abbrev is_hex : ℕ → Bool
is_hex c = is_digit c || (leb 97 c && leb c 102) || (leb 65 c && leb c 70)

abbrev is_dash : ℕ → Bool
is_dash c = c == 45

-- `[1-5]` and `[89ab]`, without regard to case
abbrev is_version : ℕ → Bool
is_version c = leb 49 c && leb c 53

abbrev is_variant : ℕ → Bool
is_variant c = c == 56 || c == 57 || c == 97 || c == 98 || c == 65 || c == 66

-- A regular expression from `^` to `$`, as one test for each character.
abbrev pub matches : List (ℕ → Bool) → List ℕ → Bool
matches [] [] = true
matches (p ∷ ps) (c ∷ cs) = p c && matches ps cs
matches _ _ = false

abbrev times : ℕ → (ℕ → Bool) → List (ℕ → Bool)
times zero p = []
times (suc n) p = p ∷ times n p

abbrev uuid_regex : List (ℕ → Bool)
uuid_regex =
    times 8 is_hex
    ++ (is_dash ∷ times 4 is_hex)
    ++ (is_dash ∷ is_version ∷ times 3 is_hex)
    ++ (is_dash ∷ is_variant ∷ times 3 is_hex)
    ++ (is_dash ∷ times 12 is_hex)

abbrev mongo_object_id_regex : List (ℕ → Bool)
mongo_object_id_regex = times 24 is_hex

-- The code of a letter of ASCII, in lower case.
abbrev lower : ℕ → ℕ
lower c = if is_upper c then c + 32 else c

-- `databaseType.toLowerCase() === 'postgresql'`
abbrev is_postgres : String → Bool
is_postgres s = matches (map (λ l c. c == l) (codes "postgresql")) (map lower (codes s))

unfoldable pub is_id_valid_for_database : String → String → Bool
is_id_valid_for_database id database_type =
    let cs = codes id in
    if is_postgres database_type then matches uuid_regex cs else matches mongo_object_id_regex cs

unfoldable pub is_valid_entity_id : String → Bool
is_valid_entity_id id =
    let cs = codes id in matches uuid_regex cs || matches mongo_object_id_regex cs
