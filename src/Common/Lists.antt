-- ===== src/Common/Lists.antt =====
-- Lists measured by native numbers, and lists of texts as the sets that the source keeps in
-- arrays: `includes`, `filter(x => x !== a)`, `some`, `every`.
use Prim.Native.Nat.{ℕ, zero, suc, ◌+◌, ◌-◌}
use Prim.Native.String.{String}
use mathlib.Core.Path.{◌≡◌, refl}
use mathlib.Core.Bool.{Bool, true, false, ◌&&◌, ◌||◌}
use mathlib.Core.Option.{Option, none, some}
use mathlib.Core.List.{List, [], ◌∷◌, ◌++◌}
use native.Mathlib.Omega.{arith}
use text.Mathlib.TextEquality.{eq_iff}
use qa_api.Common.Tests.{◌===◌, if◌then◌else◌}

module _ {ℓ} {A : Type ℓ} where
  abbrev pub length : List A → ℕ
  length [] = 0
  length (x ∷ xs) = suc (length xs)

  abbrev pub get_elem? : List A → ℕ → Option A
  get_elem? [] i = none
  get_elem? (x ∷ xs) zero = some x
  get_elem? (x ∷ xs) (suc i) = get_elem? xs i

  abbrev pub take : ℕ → List A → List A
  take zero xs = []
  take (suc n) [] = []
  take (suc n) (x ∷ xs) = x ∷ take n xs

  abbrev pub drop : ℕ → List A → List A
  drop zero xs = xs
  drop (suc n) [] = []
  drop (suc n) (x ∷ xs) = drop n xs

  -- `filter` with a Boolean test
  abbrev pub select : (A → Bool) → List A → List A
  select p [] = []
  select p (x ∷ xs) = let rest = select p xs in if p x then x ∷ rest else rest

  -- `find`
  abbrev pub find : (A → Bool) → List A → Option A
  find p [] = none
  find p (x ∷ xs) = if p x then some x else find p xs

  -- `some`
  abbrev pub any : (A → Bool) → List A → Bool
  any p [] = false
  any p (x ∷ xs) = p x || any p xs

  -- `every`
  abbrev pub all : (A → Bool) → List A → Bool
  all p [] = true
  all p (x ∷ xs) = p x && all p xs

  pub length-append : (xs ys : List A) → length (xs ++ ys) ≡ length xs + length ys
  length-append [] ys = omega arith
  length-append (x ∷ xs) ys = omega (arith, length-append xs ys)

  pub length-drop : (n : ℕ) (xs : List A) → length (drop n xs) ≡ length xs - n
  length-drop zero xs = omega arith
  length-drop (suc n) [] = omega arith
  length-drop (suc n) (x ∷ xs) = omega (arith, length-drop n xs)

-- `includes`
abbrev pub includes : List String → String → Bool
includes [] a = false
includes (x ∷ xs) a = x === a || includes xs a

-- `filter(x => x !== a)`
abbrev pub without : String → List String → List String
without a [] = []
without a (x ∷ xs) = let rest = without a xs in if x === a then rest else x ∷ rest

-- No text stands twice.
abbrev pub IsSetOf : List String → Type 0
IsSetOf [] = Unit
IsSetOf (x ∷ xs) = (includes xs x ≡ false) × IsSetOf xs

pub includes-without :
    (a b : String) (xs : List String)
    → includes (without a xs) b ≡ (if a === b then false else includes xs b)
includes-without a b [] = ground arith
includes-without a b (x ∷ xs) =
    ground (arith, includes-without a b xs, eq_iff x a, eq_iff x b, eq_iff a b)

pub includes-append :
    (xs ys : List String) (b : String) → includes (xs ++ ys) b ≡ (includes xs b || includes ys b)
includes-append [] ys b = refl
includes-append (x ∷ xs) ys b = ground (arith, includes-append xs ys b)

pub without_absent : (a : String) (xs : List String) → includes xs a ≡ false → without a xs ≡ xs
without_absent a [] h = refl
without_absent a (x ∷ xs) h = ground (arith, without_absent a xs)

pub without-append :
    (a : String) (xs ys : List String) → without a (xs ++ ys) ≡ without a xs ++ without a ys
without-append a [] ys = refl
without-append a (x ∷ xs) ys = ground (arith, without-append a xs ys)

pub without-IsSetOf : (a : String) (xs : List String) → IsSetOf xs → IsSetOf (without a xs)
without-IsSetOf a [] h = tt
without-IsSetOf a (x ∷ xs) h =
    ground (arith, without-IsSetOf a xs h.1, includes-without a x xs, eq_iff x a, eq_iff a x)

pub append-IsSetOf :
    (xs : List String) (a : String) → IsSetOf xs → includes xs a ≡ false → IsSetOf (xs ++ a ∷ [])
append-IsSetOf [] a h k = (refl, tt)
append-IsSetOf (x ∷ xs) a h k =
    ground (arith, append-IsSetOf xs a h.1, includes-append xs (a ∷ []) x, eq_iff x a, eq_iff a x)
