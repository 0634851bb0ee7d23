-- ===== src/Domain/CatalogDiff/Partition.antt =====
-- internal/domain/catalog_diff.go: which keys the comparison reports, and where.
use mcpv.Base.{
  has, has-snoc, has-sort_strings, keys, ◌≡◌, refl, ap, ◌∙◌, String, Bool, true, false, not, ◌&&◌,
  ◌||◌, Option, none, some, List, [], ◌∷◌, ◌++◌, str_eq, eq_iff, is_some, lookup, arith,
}
use mcpv.Domain.Spec.{ServerSpec}
use mcpv.Domain.CatalogDiff.{
  CatalogState, SpecDiffClassification, unchanged, tools_only, runtime_behavior, restart_required,
  deep_equal, classify_spec_diff,
}
use mcpv.Domain.CatalogDiff.Keys.{has-missing, kept, chain, from_keys}
use mcpv.Domain.CatalogDiff.States.{
  SpecKeys, missing, add_class, visit_pair, visit_spec, visit_specs, diff_catalog_states,
}

-- What a key's values before and after have come to.
abbrev pub was_removed : Option ServerSpec → Option ServerSpec → Bool
was_removed (some a) none = true
was_removed (some a) (some b) = false
was_removed none after = false

abbrev pub was_updated : Option ServerSpec → Option ServerSpec → Bool
was_updated (some a) (some b) = not (deep_equal a b)
was_updated (some a) none = false
was_updated none after = false

abbrev same_class : SpecDiffClassification → SpecDiffClassification → Bool
same_class unchanged unchanged = true
same_class tools_only tools_only = true
same_class runtime_behavior runtime_behavior = true
same_class restart_required restart_required = true
same_class unchanged d = false
same_class tools_only d = false
same_class runtime_behavior d = false
same_class restart_required d = false

abbrev pub was_of : SpecDiffClassification → Option ServerSpec → Option ServerSpec → Bool
was_of c (some a) (some b) = not (deep_equal a b) && same_class (classify_spec_diff a b) c
was_of c (some a) none = false
was_of c none after = false

-- One round leaves the lists as they are but for its key.
abbrev Adds : String → String → Option ServerSpec → Option ServerSpec → SpecKeys → SpecKeys → Type 0
Adds k x a b d d' =
    (has k d'.removed ≡ (has k d.removed || (str_eq x k && was_removed a b)))
    × (has k d'.updated ≡ (has k d.updated || (str_eq x k && was_updated a b)))
    × (has k d'.tools_only ≡ (has k d.tools_only || (str_eq x k && was_of tools_only a b)))
    × (has k d'.runtime_behavior
        ≡ (has k d.runtime_behavior || (str_eq x k && was_of runtime_behavior a b)))
    × (has k d'.restart_required
        ≡ (has k d.restart_required || (str_eq x k && was_of restart_required a b)))

add_class-Adds :
    (c : SpecDiffClassification) (k x : String) (d : SpecKeys)
    → (has k (add_class c x d).removed ≡ has k d.removed)
      × (has k (add_class c x d).updated ≡ has k d.updated)
      × (has k (add_class c x d).tools_only
          ≡ (has k d.tools_only || (str_eq x k && same_class c tools_only)))
      × (has k (add_class c x d).runtime_behavior
          ≡ (has k d.runtime_behavior || (str_eq x k && same_class c runtime_behavior)))
      × (has k (add_class c x d).restart_required
          ≡ (has k d.restart_required || (str_eq x k && same_class c restart_required)))
unfolding add_class
add_class-Adds unchanged k x d = (
  refl,
  refl,
  kept (has k d.tools_only) (str_eq x k),
  kept (has k d.runtime_behavior) (str_eq x k),
  kept (has k d.restart_required) (str_eq x k),
)
add_class-Adds tools_only k x d = (
  refl,
  refl,
  has-snoc k x d.tools_only,
  kept (has k d.runtime_behavior) (str_eq x k),
  kept (has k d.restart_required) (str_eq x k),
)
add_class-Adds runtime_behavior k x d = (
  refl,
  refl,
  kept (has k d.tools_only) (str_eq x k),
  has-snoc k x d.runtime_behavior,
  kept (has k d.restart_required) (str_eq x k),
)
add_class-Adds restart_required k x d = (
  refl,
  refl,
  kept (has k d.tools_only) (str_eq x k),
  kept (has k d.runtime_behavior) (str_eq x k),
  has-snoc k x d.restart_required,
)

nothing-Adds : (k x : String) (d : SpecKeys) → Adds k x none none d d
nothing-Adds k x d = (
  kept (has k d.removed) (str_eq x k),
  kept (has k d.updated) (str_eq x k),
  kept (has k d.tools_only) (str_eq x k),
  kept (has k d.runtime_behavior) (str_eq x k),
  kept (has k d.restart_required) (str_eq x k),
)

visit_pair-Adds :
    (same : Bool) (c : SpecDiffClassification) (k x : String) (d : SpecKeys)
    → let d' = visit_pair same c x d in
      let put_in = λ (l : SpecDiffClassification). str_eq x k && (not same && same_class c l) in
      (has k d'.removed ≡ (has k d.removed || (str_eq x k && false)))
      × (has k d'.updated ≡ (has k d.updated || (str_eq x k && not same)))
      × (has k d'.tools_only ≡ (has k d.tools_only || put_in tools_only))
      × (has k d'.runtime_behavior ≡ (has k d.runtime_behavior || put_in runtime_behavior))
      × (has k d'.restart_required ≡ (has k d.restart_required || put_in restart_required))
visit_pair-Adds true c k x d = nothing-Adds k x d
visit_pair-Adds false c k x d =
    let (r, u, t, n, s) = add_class-Adds c k x (record d { updated = d.updated ++ x ∷ [] }) in
    (r ∙ kept (has k d.removed) (str_eq x k), u ∙ has-snoc k x d.updated, t, n, s)

visit_spec-Adds :
    (k x : String) (a b : Option ServerSpec) (d : SpecKeys) → Adds k x a b d (visit_spec x a b d)
unfolding visit_spec
visit_spec-Adds k x none after d = nothing-Adds k x d
visit_spec-Adds k x (some a) none d = (
  has-snoc k x d.removed,
  kept (has k d.updated) (str_eq x k),
  kept (has k d.tools_only) (str_eq x k),
  kept (has k d.runtime_behavior) (str_eq x k),
  kept (has k d.restart_required) (str_eq x k),
)
visit_spec-Adds k x (some a) (some b) d =
    visit_pair-Adds (deep_equal a b) (classify_spec_diff a b) k x d

-- The lists after a loop over the keys `ks`.
abbrev Added :
    String
    → List (String × ServerSpec)
    → List (String × ServerSpec)
    → List String
    → SpecKeys
    → SpecKeys
    → Type 0
Added k prev next ks d d' =
    let a = lookup k prev in
    let b = lookup k next in
    (has k d'.removed ≡ (has k d.removed || (has k ks && was_removed a b)))
    × (has k d'.updated ≡ (has k d.updated || (has k ks && was_updated a b)))
    × (has k d'.tools_only ≡ (has k d.tools_only || (has k ks && was_of tools_only a b)))
    × (has k d'.runtime_behavior
        ≡ (has k d.runtime_behavior || (has k ks && was_of runtime_behavior a b)))
    × (has k d'.restart_required
        ≡ (has k d.restart_required || (has k ks && was_of restart_required a b)))

visit_specs-Added :
    (k : String) (prev next : List (String × ServerSpec)) (ks : List String) (d : SpecKeys)
    → Added k prev next ks d (visit_specs prev next ks d)
unfolding visit_specs has
visit_specs-Added k prev next [] d =
    (ground arith, ground arith, ground arith, ground arith, ground arith)
visit_specs-Added k prev next (x ∷ ks) d =
    let d' = visit_spec x (lookup x prev) (lookup x next) d in
    let e = visit_specs prev next ks d' in
    let (r, u, t, n, s) = visit_spec-Adds k x (lookup x prev) (lookup x next) d in
    let (r', u', t', n', s') = visit_specs-Added k prev next ks d' in
    let at_k = λ (w : Option ServerSpec → Option ServerSpec → Bool) (on : str_eq x k ≡ true).
      let same : x ≡ k = ground (arith, eq_iff x k) in
      ap (λ y. w (lookup y prev) (lookup y next)) same in
    let w = λ (f : Option ServerSpec → Option ServerSpec → Bool) (y : String).
      f (lookup y prev) (lookup y next) in
    let i = str_eq x k in
    let m = has k ks in
    (
      chain (has k d.removed) (has k d'.removed) (has k e.removed) i m (w was_removed x)
          (w was_removed k) r r' (at_k was_removed),
      chain (has k d.updated) (has k d'.updated) (has k e.updated) i m (w was_updated x)
          (w was_updated k) u u' (at_k was_updated),
      chain (has k d.tools_only) (has k d'.tools_only) (has k e.tools_only) i m
          (w (was_of tools_only) x) (w (was_of tools_only) k) t t' (at_k (was_of tools_only)),
      chain (has k d.runtime_behavior) (has k d'.runtime_behavior) (has k e.runtime_behavior) i m
          (w (was_of runtime_behavior) x) (w (was_of runtime_behavior) k) n n'
          (at_k (was_of runtime_behavior)),
      chain (has k d.restart_required) (has k d'.restart_required) (has k e.restart_required) i m
          (w (was_of restart_required) x) (w (was_of restart_required) k) s s'
          (at_k (was_of restart_required)),
    )

-- A key is reported as added, removed or updated just if the registries say so, and an updated key
-- is also reported under the class of its change, and a key under no other class.
pub diff_catalog_states-Reports :
    (k : String) (prev next : CatalogState)
    → let d = diff_catalog_states prev next in
      let a = lookup k prev.spec_registry in
      let b = lookup k next.spec_registry in
      (has k d.added_spec_keys ≡ (is_some b && not (is_some a)))
      × (has k d.removed_spec_keys ≡ was_removed a b)
      × (has k d.updated_spec_keys ≡ was_updated a b)
      × (has k d.tools_only_spec_keys ≡ was_of tools_only a b)
      × (has k d.runtime_behavior_spec_keys ≡ was_of runtime_behavior a b)
      × (has k d.restart_required_spec_keys ≡ was_of restart_required a b)
unfolding diff_catalog_states
diff_catalog_states-Reports k prev next =
    let none_yet : SpecKeys = record {
      removed = [];
      updated = [];
      tools_only = [];
      runtime_behavior = [];
      restart_required = [];
    } in
    let p = prev.spec_registry in
    let q = next.spec_registry in
    let d = visit_specs p q (keys p) none_yet in
    let (r, u, t, n, s) = visit_specs-Added k p q (keys p) none_yet in
    let a = lookup k p in
    let b = lookup k q in
    (
      has-sort_strings k (missing q p) ∙ has-missing k q p,
      has-sort_strings k d.removed ∙ r ∙ from_keys k p (was_removed a b) (λ e. ground arith),
      has-sort_strings k d.updated ∙ u ∙ from_keys k p (was_updated a b) (λ e. ground arith),
      has-sort_strings k d.tools_only
          ∙ t
          ∙ from_keys k p (was_of tools_only a b) (λ e. ground arith),
      has-sort_strings k d.runtime_behavior
          ∙ n
          ∙ from_keys k p (was_of runtime_behavior a b) (λ e. ground arith),
      has-sort_strings k d.restart_required
          ∙ s
          ∙ from_keys k p (was_of restart_required a b) (λ e. ground arith),
    )
