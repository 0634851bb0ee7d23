-- ===== src/Domain/CatalogDiff/Keys.antt =====
-- internal/domain/catalog_diff.go: the keys in the lists that the comparison builds.
use mcpv.Base.{
  keys, has, has-keys, ◌≡◌, refl, inl, inr, String, Bool, true, false, not, ◌&&◌, ◌||◌, none, List,
  [], ◌∷◌, Option-cases, eq_iff, is_some, lookup, arith,
}
use mcpv.Domain.CatalogDiff.States.{missing}

pub has-missing {ℓ κ} :
    {V : Type ℓ} {W : Type κ} (k : String) (rest : List (String × V)) (m : List (String × W))
    → has k (missing rest m) ≡ (is_some (lookup k rest) && not (is_some (lookup k m)))
unfolding has missing lookup
has-missing k [] m = refl
has-missing k ((x, v) ∷ rest) m = ground (arith, has-missing k rest m, eq_iff x k)

pub kept : (b t : Bool) → b ≡ (b || (t && false))
kept b t = ground arith

pub chain :
    (before here later now_here among at_x at_k : Bool)
    → here ≡ (before || (now_here && at_x))
    → later ≡ (here || (among && at_k))
    → (now_here ≡ true → at_x ≡ at_k)
    → later ≡ (before || ((now_here || among) && at_k))
chain before here later true among at_x at_k e e' same = let one = same refl in ground arith
chain before here later false among at_x at_k e e' same = ground arith

pub from_keys {ℓ} :
    {V : Type ℓ} (k : String) (m : List (String × V)) (w : Bool)
    → (lookup k m ≡ none → w ≡ false)
    → (has k [] || (has k (keys m) && w)) ≡ w
unfolding has
from_keys k m w absent = elim (Option-cases (lookup k m)) [
  | inl e ↦ let off = absent e in rw off (ground arith)
  | inr (v, e) ↦ rw (has-keys k m, e) refl
]
