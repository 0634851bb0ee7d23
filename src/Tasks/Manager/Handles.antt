-- ===== src/Tasks/Manager/Handles.antt =====
-- The map `tasks` from identifiers to handles.
use mcpv.Base.{ℕ, ◌≡◌, Option, none, some, List, [], ◌∷◌, if◌then◌else◌, ◌==◌, arith}

abbrev pub Table : Type 0
Table = List (ℕ × ℕ)

unfoldable pub find : ℕ → Table → Option ℕ
find wanted [] = none
find wanted ((k, h) ∷ t) = let later = find wanted t in if k == wanted then some h else later

unfoldable pub put : ℕ → ℕ → Table → Table
put new h [] = (new, h) ∷ []
put new h ((k, g) ∷ t) = let later = put new h t in if k == new then (k, h) ∷ t else (k, g) ∷ later

unfoldable pub drop_key : ℕ → Table → Table
drop_key gone [] = []
drop_key gone ((k, h) ∷ t) =
    let later = drop_key gone t in if k == gone then later else (k, h) ∷ later

pub find-put :
    (new wanted h : ℕ) (t : Table)
    → find wanted (put new h t) ≡ (if new == wanted then some h else find wanted t)
unfolding find put
find-put new wanted h [] = ground arith
find-put new wanted h ((k, g) ∷ t) = ground (arith, find-put new wanted h t)

pub find-drop_key :
    (gone wanted : ℕ) (t : Table)
    → find wanted (drop_key gone t) ≡ (if gone == wanted then none else find wanted t)
unfolding find drop_key
find-drop_key gone wanted [] = ground arith
find-drop_key gone wanted ((k, h) ∷ t) = ground (arith, find-drop_key gone wanted t)
