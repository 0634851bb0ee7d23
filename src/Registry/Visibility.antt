-- ===== src/Registry/Visibility.antt =====
-- internal/app/controlplane/registry/visibility.go and visibility_resolver.go: the servers that a
-- client's tags or its server name let it see.
use mcpv.Base.{
  ℕ, suc, String, Bool, true, false, ◌||◌, ◌==◌, Option, none, some, List, [], ◌∷◌, if◌then◌else◌,
  length, str_eq, has, sort_strings, add_once, lookup, is_some,
}
use mcpv.Domain.Spec.{ServerSpec}

unfoldable pub any_in : List String → List String → Bool
any_in set [] = false
any_in set (tag ∷ tags) = has tag set || any_in set tags

unfoldable pub is_visible_to_tags : List String → List String → Bool
unfolding any_in
is_visible_to_tags client_tags server_tags =
    if length server_tags == 0 || length client_tags == 0
    then true
    else any_in client_tags server_tags

-- `range` over a nil slice visits nothing.
abbrev tags_of : ServerSpec → List String
tags_of spec = elim spec.tags [ none ↦ [] | some tags ↦ tags ]

abbrev pub Specs : Type 0
Specs = List (String × ServerSpec)

-- One round of the loop over the servers: the set of visible keys and the number of servers.
unfoldable pub see : List String → String → Option ServerSpec → List String × ℕ → List String × ℕ
unfolding is_visible_to_tags
see tags key none r = r
see tags key (some spec) (visible, n) =
    if is_visible_to_tags tags (tags_of spec) then (add_once key visible, suc n) else (visible, n)

unfoldable pub see_all :
    List String → Specs → List (String × String) → List String × ℕ → List String × ℕ
unfolding see
see_all tags specs [] r = r
see_all tags specs ((name, key) ∷ rest) r =
    see_all tags specs rest (see tags key (lookup name specs) r)

abbrev pub see_server : Option String → Bool → List String × ℕ
see_server none listed = ([], 0)
see_server (some key) true = (key ∷ [], 1)
see_server (some key) false = ([], 0)

-- `VisibleSpecKeysForCatalog`; an empty `server` stands for none.
unfoldable pub visible_spec_keys :
    Specs → List (String × String) → List String → String → List String × ℕ
unfolding see_all
visible_spec_keys specs keys tags server =
    let (visible, n) = see_all tags specs keys ([], 0) in
    if length keys == 0
    then ([], 0)
    else if str_eq server ""
    then (sort_strings visible, n)
    else see_server (lookup server keys) (is_some (lookup server specs))

unfoldable pub tags_equal : List String → List String → Bool
tags_equal [] [] = true
tags_equal [] (y ∷ ys) = false
tags_equal (x ∷ xs) [] = false
tags_equal (x ∷ xs) (y ∷ ys) = let later = tags_equal xs ys in if str_eq x y then later else false
