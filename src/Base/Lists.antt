-- ===== src/Base/Lists.antt =====
-- Lists measured and indexed by native numbers, and lists of handles.
use Prim.Native.Nat.{ℕ, zero, suc, ◌+◌, ◌-◌, ◌%◌, ◌<◌, ◌≤◌}
use mathlib.Core.Path.{◌≡◌, refl}
use mathlib.Core.Logic.{inl, inr}
use mathlib.Core.Bool.{Bool, true, false, not, ◌&&◌, ◌||◌}
use mathlib.Core.List.{List, [], ◌∷◌, ◌++◌}
use native.Mathlib.Omega.{arith}
use native.Mathlib.Nat.{mod-eq_of_lt, add-mod_right}
use native.Mathlib.Decide.{dec_lt}
use mcpv.Base.Tests.{◌==◌, if◌then◌else◌, Bool-cases}

module _ {ℓ} {A : Type ℓ} where
  abbrev pub length : List A → ℕ
  length [] = 0
  length (x ∷ xs) = suc (length xs)

  abbrev pub get_or : List A → ℕ → A → A
  get_or [] i d = d
  get_or (x ∷ xs) zero d = x
  get_or (x ∷ xs) (suc i) d = get_or xs i d

  pub length-append : (xs ys : List A) → length (xs ++ ys) ≡ length xs + length ys
  length-append [] ys = omega arith
  length-append (x ∷ xs) ys = omega (arith, length-append xs ys)

  -- The elements that pass a test, in order.
  abbrev pub keep_if : (A → Bool) → List A → List A
  keep_if p [] = []
  keep_if p (x ∷ xs) = if p x then x ∷ keep_if p xs else keep_if p xs

  pub length-keep_if-le : (p : A → Bool) (xs : List A) → length (keep_if p xs) ≤ length xs
  length-keep_if-le p [] = omega arith
  length-keep_if-le p (x ∷ xs) = ground (arith, length-keep_if-le p xs)

  pub keep_if-append :
      (p : A → Bool) (xs ys : List A) → keep_if p (xs ++ ys) ≡ keep_if p xs ++ keep_if p ys
  keep_if-append p [] ys = refl
  keep_if-append p (x ∷ xs) ys = ground (arith, keep_if-append p xs ys)

-- Lists of handles.
unfoldable pub member : ℕ → List ℕ → Bool
member a [] = false
member a (x ∷ xs) = x == a || member a xs

pub member-append : (a : ℕ) (xs ys : List ℕ) → member a (xs ++ ys) ≡ (member a xs || member a ys)
unfolding member
member-append a [] ys = refl
member-append a (x ∷ xs) ys = ground (arith, member-append a xs ys)

pub member-keep_if :
    (a : ℕ) (p : ℕ → Bool) (xs : List ℕ) → member a (keep_if p xs) ≡ (member a xs && p a)
unfolding member
member-keep_if a p [] = refl
member-keep_if a p (x ∷ xs) = ground (arith, member-keep_if a p xs)

-- A position in range holds a member.
pub member-get_or : (xs : List ℕ) (i : ℕ) → i < length xs → member (get_or xs i 0) xs ≡ true
unfolding member
member-get_or [] i h = elim h [ ]
member-get_or (x ∷ xs) zero h = ground arith
member-get_or (x ∷ xs) (suc i) h = ground (arith, member-get_or xs i)

-- No handle stands twice.
abbrev pub Distinct : List ℕ → Type 0
Distinct [] = Unit {0}
Distinct (x ∷ xs) = (member x xs ≡ false) × Distinct xs

pub Distinct-keep_if : (p : ℕ → Bool) (xs : List ℕ) → Distinct xs → Distinct (keep_if p xs)
Distinct-keep_if p [] h = tt
Distinct-keep_if p (x ∷ xs) h = ground (arith, Distinct-keep_if p xs h.1, member-keep_if x p xs)

-- A member stands at some position.
pub position_of :
    (a : ℕ) (xs : List ℕ) → member a xs ≡ true → (j : ℕ) × (j < length xs) × (get_or xs j 0 ≡ a)
unfolding member
position_of a [] h = absurd (cc)
position_of a (x ∷ xs) h = elim (Bool-cases (x == a)) [
  | inl e ↦ (0, omega arith, ground arith)
  | inr e ↦ let (j, lt, at) = position_of a xs (ground arith) in (suc j, omega arith, at)
]

-- Counting round from `start` comes to every index.
pub reach_round : (n start j : ℕ) → start < n → j < n → (i : ℕ) × (i < n) × ((start + i) % n ≡ j)
reach_round n start j hs hj = elim (dec_lt j start) [
  | yes p ↦
      let wrapped : start + (j + n - start) ≡ j + n = omega arith in
      (j + n - start, omega arith, rw wrapped (rw (add-mod_right j n) (mod-eq_of_lt hj)))
  | no p ↦
      let straight : start + (j - start) ≡ j = omega arith in
      (j - start, omega arith, rw straight (mod-eq_of_lt hj))
]

pub Distinct-snoc :
    (a : ℕ) (xs : List ℕ) → Distinct xs → member a xs ≡ false → Distinct (xs ++ a ∷ [])
unfolding member
Distinct-snoc a [] d m = (refl, tt)
Distinct-snoc a (x ∷ xs) d m =
    (ground (arith, d.0, m, member-append x xs (a ∷ [])), Distinct-snoc a xs d.1 (ground arith))

pub member_single : (a b : ℕ) → member a (b ∷ []) ≡ (b == a)
unfolding member
member_single a b = ground arith

pub member_nil : (a : ℕ) → member a [] ≡ false
unfolding member
member_nil a = refl

pub member-cons : (a x : ℕ) (xs : List ℕ) → member a (x ∷ xs) ≡ (x == a || member a xs)
unfolding member
member-cons a x xs = refl

-- A test splits a list in two.
pub length-keep_if_split {ℓ} :
    {A : Type ℓ} (p : A → Bool) (xs : List A)
    → length (keep_if (λ x. not (p x)) xs) + length (keep_if p xs) ≡ length xs
length-keep_if_split p [] = omega arith
length-keep_if_split p (x ∷ xs) = ground (arith, length-keep_if_split p xs)
