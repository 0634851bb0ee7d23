-- ===== src/Base/Texts.antt =====
-- Lists and sets of texts: membership, `sort.Strings`, and sets kept without repetition.
use Prim.Native.Nat.{ℕ, ◌+◌, ◌≤◌}
use Prim.Native.String.{String, compare}
use mathlib.Core.Path.{◌≡◌, refl, ap, ◌∙◌}
use mathlib.Core.Bool.{Bool, true, false, ◌&&◌, ◌||◌}
use mathlib.Core.List.{List, [], ◌∷◌, ◌++◌}
use native.Mathlib.Omega.{arith}
use text.Mathlib.Text.{is_le}
use text.Mathlib.TextEquality.{eq_iff}
use mcpv.Base.Tests.{if◌then◌else◌, is_some}
use mcpv.Base.Text.{str_eq, lookup}

-- Whether a list has a key.
unfoldable pub has : String → List String → Bool
has k [] = false
has k (x ∷ xs) = str_eq x k || has k xs

-- `sort.Strings`.
unfoldable pub place : String → List String → List String
place x [] = x ∷ []
place x (y ∷ ys) = let later = place x ys in if is_le (compare x y) then x ∷ y ∷ ys else y ∷ later

unfoldable pub sort_strings : List String → List String
unfolding place
sort_strings [] = []
sort_strings (x ∷ xs) = place x (sort_strings xs)

unfoldable pub keys {ℓ} : {V : Type ℓ} → List (String × V) → List String
keys [] = []
keys ((k, v) ∷ m) = k ∷ keys m

-- A member is not added again.
unfoldable pub add_once : String → List String → List String
add_once k [] = k ∷ []
add_once k (x ∷ xs) = let later = add_once k xs in if str_eq x k then x ∷ xs else x ∷ later

pub has-append : (k : String) (xs ys : List String) → has k (xs ++ ys) ≡ (has k xs || has k ys)
unfolding has
has-append k [] ys = refl
has-append k (x ∷ xs) ys = ground (arith, has-append k xs ys)

pub has-place : (k x : String) (xs : List String) → has k (place x xs) ≡ (str_eq x k || has k xs)
unfolding has place
has-place k x [] = refl
has-place k x (y ∷ ys) = ground (arith, has-place k x ys)

pub has-sort_strings : (k : String) (xs : List String) → has k (sort_strings xs) ≡ has k xs
unfolding has sort_strings
has-sort_strings k [] = refl
has-sort_strings k (x ∷ xs) =
    has-place k x (sort_strings xs) ∙ ap (λ b. str_eq x k || b) (has-sort_strings k xs)

pub has-keys {ℓ} :
    {V : Type ℓ} (k : String) (m : List (String × V)) → has k (keys m) ≡ is_some (lookup k m)
unfolding has keys lookup
has-keys k [] = refl
has-keys k ((x, v) ∷ m) = ground (arith, has-keys k m)

pub has-snoc :
    (k x : String) (xs : List String) → has k (xs ++ x ∷ []) ≡ (has k xs || (str_eq x k && true))
unfolding has
has-snoc k x xs = ground (arith, has-append k xs (x ∷ []))

-- How often a text stands in a list.
unfoldable pub occurs : String → List String → ℕ
occurs k [] = 0
occurs k (x ∷ xs) = (if str_eq x k then 1 else 0) + occurs k xs

pub occurs-place :
    (k x : String) (xs : List String)
    → occurs k (place x xs) ≡ (if str_eq x k then 1 else 0) + occurs k xs
unfolding occurs place
occurs-place k x [] = refl
occurs-place k x (y ∷ ys) = ground (arith, occurs-place k x ys)

pub occurs-sort_strings : (k : String) (xs : List String) → occurs k (sort_strings xs) ≡ occurs k xs
unfolding occurs sort_strings
occurs-sort_strings k [] = refl
occurs-sort_strings k (x ∷ xs) =
    omega (arith, occurs-place k x (sort_strings xs), occurs-sort_strings k xs)

pub occurs-has : (k : String) (xs : List String) → has k xs ≡ false → occurs k xs ≡ 0
unfolding occurs has
occurs-has k [] e = refl
occurs-has k (x ∷ xs) e = ground (arith, occurs-has k xs)

pub occurs-snoc :
    (k x : String) (xs : List String)
    → occurs k (xs ++ x ∷ []) ≡ occurs k xs + (if str_eq x k then 1 else 0)
unfolding occurs
occurs-snoc k x [] = omega arith
occurs-snoc k x (y ∷ ys) = omega (arith, occurs-snoc k x ys)

pub has-add_once :
    (k x : String) (xs : List String) → has k (add_once x xs) ≡ (str_eq x k || has k xs)
unfolding has add_once
has-add_once k x [] = refl
has-add_once k x (y ∷ ys) = ground (arith, has-add_once k x ys, eq_iff y x, eq_iff y k, eq_iff x k)

-- No text twice.
unfoldable pub AtMostOnce : List String → Type 0
AtMostOnce xs = (k : String) → occurs k xs ≤ 1

pub occurs-add_once :
    (k x : String) (xs : List String)
    → occurs k (add_once x xs)
      ≡ (if str_eq x k then (if has k xs then occurs k xs else 1) else occurs k xs)
unfolding occurs add_once has
occurs-add_once k x [] = ground arith
occurs-add_once k x (y ∷ ys) =
    ground (arith, occurs-add_once k x ys, occurs-has k ys, eq_iff y x, eq_iff y k, eq_iff x k)
