-- ===== src/Account/Strength.antt =====
-- The strength test of services/managers/AuthManager.ts: `^(?=.*[a-z])(?=.*[A-Z])(?=.*\d)` followed
-- by one of `!@#$%^&*()_+-=[]{}|;:,.<>?` somewhere and by `.{8}$`.
use Prim.Native.Char.{code}
use Prim.Native.String.{String}
use qa_api.Common.{ℕ, ◌+◌, Bool, not, ◌&&◌, ◌||◌, leb, ◌==◌, List, [], ◌∷◌, any, if◌then◌else◌}

-- The code points of a text.
abbrev pub codes : String → List ℕ
codes String.[] = []
codes (String.◌∷◌ c s) = code c ∷ codes s

abbrev pub is_lower : ℕ → Bool
is_lower c = leb 97 c && leb c 122

abbrev pub is_upper : ℕ → Bool
is_upper c = leb 65 c && leb c 90

abbrev pub is_digit : ℕ → Bool
is_digit c = leb 48 c && leb c 57

-- `!`, `#$%&`, `()*+,-.`, `:;<=>?@`, `[`, `]^_`, `{|}`
abbrev pub is_special : ℕ → Bool
is_special c =
    c == 33
    || (leb 35 c && leb c 38)
    || (leb 40 c && leb c 46)
    || (leb 58 c && leb c 64)
    || c == 91
    || (leb 93 c && leb c 95)
    || (leb 123 c && leb c 125)

-- The line terminators, which `.` does not match.
abbrev is_line_end : ℕ → Bool
is_line_end c = c == 10 || c == 13 || c == 8232 || c == 8233

-- The length in code units of UTF-16.
abbrev units : List ℕ → ℕ
units [] = 0
units (c ∷ cs) = (if leb 65536 c then 2 else 1) + units cs

unfoldable pub is_strong : String → Bool
is_strong s =
    let cs = codes s in
    any is_lower cs
    && any is_upper cs
    && any is_digit cs
    && any is_special cs
    && not (any is_line_end cs)
    && leb 8 (units cs)
