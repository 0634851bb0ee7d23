-- ===== src/Governance/Placed.antt =====
-- internal/infra/pipeline/engine.go: which plugins `Update` puts in a category.
use mathlib.Core.List.{Memᴰ}
use mathlib.Core.List.Memᴰ.{head, tail}
use text.Mathlib.Text.{is_le}
use Prim.Native.String.{compare}
use mcpv.Base.{eq_iff, arith, ◌≡◌, sym, subst, inl, inr, true, List, [], ◌∷◌, Bool-cases, ◌&&◌, not}
use mcpv.Domain.Plugin.{content, PluginCategory, PluginSpec}
use mcpv.Governance.Engine.{category_text, in_category, place_by_name, same_category}

placed : (p q : PluginSpec) (ps : List PluginSpec) → Memᴰ p (q ∷ ps) → Memᴰ p (place_by_name q ps)
unfolding place_by_name
placed p q [] m = m
placed p q (r ∷ ps) m = elim (Bool-cases (is_le (compare q.name r.name))) [
  | inl t ↦ rw t m
  | inr t ↦ rw t (elim m [
    | head e ↦ tail (placed p q ps (head e))
    | tail m' ↦ elim m' [ head e ↦ head e | tail n ↦ tail (placed p q ps (tail n)) ]
  ])
]

pub in_category-has :
    (c : PluginCategory) (p : PluginSpec) (specs : List PluginSpec)
    → Memᴰ p specs
    → (not p.disabled && same_category p.category c) ≡ true
    → Memᴰ p (in_category c specs)
unfolding in_category
in_category-has c p [] m on = elim m [ ]
in_category-has c p (q ∷ specs) (head e) on =
    rw (subst (λ (x : PluginSpec). (not x.disabled && same_category x.category c) ≡ true) e on)
      (placed p q (in_category c specs) (head e))
in_category-has c p (q ∷ specs) (tail m) on =
    elim (Bool-cases (not q.disabled && same_category q.category c)) [
      | inl t ↦ rw t (placed p q (in_category c specs) (tail (in_category-has c p specs m on)))
      | inr t ↦ rw t (in_category-has c p specs m on)
    ]

place_by_name-Memᴰ :
    (p q : PluginSpec) (ps : List PluginSpec) → Memᴰ p (place_by_name q ps) → Memᴰ p (q ∷ ps)
unfolding place_by_name
place_by_name-Memᴰ p q [] m = m
place_by_name-Memᴰ p q (r ∷ ps) m = elim (Bool-cases (is_le (compare q.name r.name))) [
  | inl t ↦ (rw t at m)
  | inr t ↦ elim (rw t at m) [
    | head e ↦ tail (head e)
    | tail n ↦ elim (place_by_name-Memᴰ p q ps n) [ head e ↦ head e | tail k ↦ tail (tail k) ]
  ]
]

in_category-from :
    (c : PluginCategory) (p : PluginSpec) (specs : List PluginSpec)
    → Memᴰ p (in_category c specs)
    → Memᴰ p specs × ((not p.disabled && same_category p.category c) ≡ true)
unfolding in_category
in_category-from c p [] m = elim m [ ]
in_category-from c p (q ∷ specs) m =
    elim (Bool-cases (not q.disabled && same_category q.category c)) [
      | inl t ↦ elim (place_by_name-Memᴰ p q (in_category c specs) (rw t at m)) [
        | head e ↦ (
          head e,
          subst (λ (x : PluginSpec). (not x.disabled && same_category x.category c) ≡ true) (sym e)
              t,
        )
        | tail n ↦ let (k, on) = in_category-from c p specs n in (tail k, on)
      ]
      | inr t ↦ let (k, on) = in_category-from c p specs (rw t at m) in (tail k, on)
    ]

-- The plugins that the loop over a category spelled as content visits are those of content.
pub content-changers :
    (specs : List PluginSpec) (c : PluginCategory)
    → same_category c content ≡ true
    → (p : PluginSpec) → Memᴰ p (in_category c specs)
    → Memᴰ p (in_category content specs)
content-changers specs c same p m =
    let (k, on) = in_category-from c p specs m in
    in_category-has content p specs k (
      ground (
        arith,
        on,
        same,
        eq_iff (category_text p.category) (category_text c),
        eq_iff (category_text c) (category_text content),
        eq_iff (category_text p.category) (category_text content),
      ))
