-- ===== src/Access/Bearer.antt =====
-- infrastructure/auth/tokenHelpers.ts: the token of the `Authorization` header, and the lemma that a
-- token without a space comes out as it was put in.
use Prim.Native.Char.{code}
use Prim.Native.String
use text.Mathlib.Text.{starts_with}
use text.Mathlib.TextPositions.{starts_with-append}
use qa_api.Common.{
  String, Bool, true, false, ◌≡◌, refl, ◌==◌, if◌then◌else◌, Option, none, some, arith, Bool-cases,
  inl, inr,
}

-- `split(' ')[0]` and the rest after the first space, if there is one.
abbrev first_word : String → String
first_word String.[] = String.[]
first_word (String.◌∷◌ c s) =
    let rest = first_word s in if code c == 32 then String.[] else String.◌∷◌ c rest

abbrev after_space : String → Option String
after_space String.[] = none
after_space (String.◌∷◌ c s) = if code c == 32 then some s else after_space s

-- `split(' ')[1]`
abbrev second_word : String → Option String
second_word s = elim (after_space s) [ none ↦ none | some rest ↦ some (first_word rest) ]

abbrev is_bearer : Option String → Bool
is_bearer none = false
is_bearer (some h) = starts_with h "Bearer "

-- `isTokenIncluded` and `getAccessTokenFromHeader`, on the header `authorization`.
unfoldable pub is_token_included : Option String → Bool
is_token_included h = is_bearer h

unfoldable pub get_access_token_from_header : Option String → Option String
get_access_token_from_header none = none
get_access_token_from_header (some h) = if is_bearer (some h) then second_word h else none

abbrev pub has_space : String → Bool
has_space String.[] = false
has_space (String.◌∷◌ c s) = if code c == 32 then true else has_space s

pub first_word-whole : (t : String) → has_space t ≡ false → first_word t ≡ t
first_word-whole String.[] h = refl
first_word-whole (String.◌∷◌ c s) h = elim (Bool-cases (code c == 32)) [
  | inl e ↦ ground arith
  | inr e ↦ ground (arith, first_word-whole s)
]

after_space-append :
    (s t : String)
    → after_space (String.◌++◌ s t)
      ≡ elim (after_space s) [ none ↦ after_space t | some rest ↦ some (String.◌++◌ rest t) ]
after_space-append String.[] t = rw (String.append.nil t) refl
after_space-append (String.◌∷◌ c s) t = elim (Bool-cases (code c == 32)) [
  | inl e ↦ rw (String.append.cons c s t) (ground arith)
  | inr e ↦ rw (String.append.cons c s t) (ground (arith, after_space-append s t))
]

after_scheme : (t : String) → after_space (String.◌++◌ "Bearer " t) ≡ some t
after_scheme t = rw (after_space-append "Bearer " t) (rw (String.append.nil t) refl)

-- A header `Bearer t` counts as having a token, and a `t` without a space is the token.
bearer-token :
    (t : String)
    → has_space t ≡ false
    → (is_token_included (some (String.◌++◌ "Bearer " t)) ≡ true)
      × (get_access_token_from_header (some (String.◌++◌ "Bearer " t)) ≡ some t)
unfolding is_token_included get_access_token_from_header
bearer-token t h =
    ground (arith, starts_with-append "Bearer " t, after_scheme t, first_word-whole t h)
