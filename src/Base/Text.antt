-- ===== src/Base/Text.antt =====
-- Equality of texts as a test, and association lists keyed by texts.
use Prim.Native.String.{String}
use mathlib.Core.Path.{◌≡◌}
use mathlib.Core.Bool.{Bool}
use mathlib.Core.Option.{Option, none, some}
use mathlib.Core.List.{List, [], ◌∷◌}
use native.Mathlib.Omega.{arith}
use text.Mathlib.Text.{◌==◌}
use text.Mathlib.TextEquality.{eq_iff}
use mcpv.Base.Tests.{if◌then◌else◌}

abbrev pub str_eq : String → String → Bool
str_eq a b = a == b

-- A map with texts for keys; an insertion replaces the entry of its key.
module _ {ℓ} {V : Type ℓ} where
  unfoldable pub lookup : String → List (String × V) → Option V
  lookup wanted [] = none
  lookup wanted ((key, value) ∷ rest) =
      let further = lookup wanted rest in if str_eq key wanted then some value else further

  unfoldable pub insert : String → V → List (String × V) → List (String × V)
  insert new fresh [] = (new, fresh) ∷ []
  insert new fresh ((key, value) ∷ rest) =
      let further = insert new fresh rest in
      if str_eq key new then (key, fresh) ∷ rest else (key, value) ∷ further

  unfoldable pub delete : String → List (String × V) → List (String × V)
  delete gone [] = []
  delete gone ((key, value) ∷ rest) =
      let further = delete gone rest in if str_eq key gone then further else (key, value) ∷ further

  pub lookup-insert :
      (new wanted : String) (fresh : V) (m : List (String × V))
      → lookup wanted (insert new fresh m)
        ≡ (if str_eq new wanted then some fresh else lookup wanted m)
  unfolding lookup insert
  lookup-insert new wanted fresh [] = ground arith
  lookup-insert new wanted fresh ((key, value) ∷ rest) =
      let further = lookup-insert new wanted fresh rest in
      ground (arith, further, eq_iff key new, eq_iff new wanted, eq_iff key wanted)

  pub lookup-delete :
      (gone wanted : String) (m : List (String × V))
      → lookup wanted (delete gone m) ≡ (if str_eq gone wanted then none else lookup wanted m)
  unfolding lookup delete
  lookup-delete gone wanted [] = ground arith
  lookup-delete gone wanted ((key, value) ∷ rest) =
      let further = lookup-delete gone wanted rest in
      ground (arith, further, eq_iff key gone, eq_iff gone wanted, eq_iff key wanted)
