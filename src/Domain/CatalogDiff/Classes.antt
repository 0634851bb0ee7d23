-- ===== src/Domain/CatalogDiff/Classes.antt =====
-- internal/domain/catalog_diff.go: what a classification says of two specifications.
use mcpv.Base.{◌≡◌, ◌≢◌, ap, inl, inr, true, false, Bool-cases}
use mcpv.Domain.Spec.{ServerSpec}
use mcpv.Domain.Equality.{ServerSpec-discrete}
use mcpv.Domain.CatalogDiff.{
  SpecDiffClassification, unchanged, tools_only, runtime_behavior, restart_required, deep_equal,
  decided, strip_tool_spec_fields, strip_runtime_behavior_fields, non_tool_spec_equals,
  runtime_behavior_spec_equals, classify_spec_diff,
}

-- `a` with the name, the tags and the exposed tools of `b`.
abbrev pub with_tools_of : ServerSpec → ServerSpec → ServerSpec
with_tools_of b a = record a { name = b.name; tags = b.tags; expose_tools = b.expose_tools }

-- `a` with the limits, times and activation of `b` besides.
abbrev pub with_behavior_of : ServerSpec → ServerSpec → ServerSpec
with_behavior_of b a = record (with_tools_of b a) {
  idle_seconds = b.idle_seconds;
  max_concurrent = b.max_concurrent;
  min_ready = b.min_ready;
  drain_timeout_seconds = b.drain_timeout_seconds;
  activation_mode = b.activation_mode;
  session_ttl_seconds = b.session_ttl_seconds;
}

-- Each class is the narrowest of the changes that leads from one specification to the other.
unfoldable pub Explains : SpecDiffClassification → ServerSpec → ServerSpec → Type 0
Explains unchanged a b = a ≡ b
Explains tools_only a b = (a ≢ b) × (with_tools_of b a ≡ b)
Explains runtime_behavior a b = (with_tools_of b a ≢ b) × (with_behavior_of b a ≡ b)
Explains restart_required a b = with_behavior_of b a ≢ b

decided-eq {ℓ} : {A : Type ℓ} (d : Dec A) → decided d ≡ true → A
decided-eq (yes a) e = a
decided-eq (no n) e = absurd (cc)

decided-apart {ℓ} : {A : Type ℓ} (d : Dec A) → decided d ≡ false → ¬ A
decided-apart (yes a) e = absurd (cc)
decided-apart (no n) e = n

pub deep_equal-eq : (a b : ServerSpec) → deep_equal a b ≡ true → a ≡ b
unfolding deep_equal
deep_equal-eq a b e = decided-eq (ServerSpec-discrete a b) e

pub deep_equal-apart : (a b : ServerSpec) → deep_equal a b ≡ false → a ≢ b
unfolding deep_equal
deep_equal-apart a b e = decided-apart (ServerSpec-discrete a b) e

strip_tool-eq :
    (a b : ServerSpec) → strip_tool_spec_fields a ≡ strip_tool_spec_fields b → with_tools_of b a ≡ b
unfolding strip_tool_spec_fields
strip_tool-eq a b e = ap (λ (s : ServerSpec). with_tools_of b s) e

strip_tool-of_eq :
    (a b : ServerSpec) → with_tools_of b a ≡ b → strip_tool_spec_fields a ≡ strip_tool_spec_fields b
unfolding strip_tool_spec_fields
strip_tool-of_eq a b e = ap strip_tool_spec_fields e

strip_behavior-eq :
    (a b : ServerSpec)
    → strip_runtime_behavior_fields (strip_tool_spec_fields a)
      ≡ strip_runtime_behavior_fields (strip_tool_spec_fields b)
    → with_behavior_of b a ≡ b
unfolding strip_tool_spec_fields strip_runtime_behavior_fields
strip_behavior-eq a b e = ap (λ (s : ServerSpec). with_behavior_of b s) e

strip_behavior-of_eq :
    (a b : ServerSpec)
    → with_behavior_of b a ≡ b
    → strip_runtime_behavior_fields (strip_tool_spec_fields a)
      ≡ strip_runtime_behavior_fields (strip_tool_spec_fields b)
unfolding strip_tool_spec_fields strip_runtime_behavior_fields
strip_behavior-of_eq a b e =
    ap (λ (s : ServerSpec). strip_runtime_behavior_fields (strip_tool_spec_fields s)) e

-- `ClassifySpecDiff` gives the narrowest class of change between two specifications: none if they
-- are equal, tools only if they differ in name, tags and exposed tools alone, runtime behaviour if
-- they differ beyond that in limits, times and activation alone, and a restart if in anything else.
pub classify_spec_diff-Explains : (a b : ServerSpec) → Explains (classify_spec_diff a b) a b
unfolding classify_spec_diff Explains non_tool_spec_equals runtime_behavior_spec_equals
classify_spec_diff-Explains a b =
    let t = strip_tool_spec_fields a in
    let t' = strip_tool_spec_fields b in
    let r = strip_runtime_behavior_fields t in
    let r' = strip_runtime_behavior_fields t' in
    elim (Bool-cases (deep_equal a b)) [
      | inl e ↦ rw e (deep_equal-eq a b e)
      | inr e ↦ elim (Bool-cases (deep_equal t t')) [
        | inl x ↦ rw (e, x) (deep_equal-apart a b e, strip_tool-eq a b (deep_equal-eq t t' x))
        | inr x ↦ elim (Bool-cases (deep_equal r r')) [
          | inl y ↦
              rw (e, x, y)
                (
                  λ same. deep_equal-apart t t' x (strip_tool-of_eq a b same),
                  strip_behavior-eq a b (deep_equal-eq r r' y),
                )
          | inr y ↦ rw (e, x, y) (λ same. deep_equal-apart r r' y (strip_behavior-of_eq a b same))
        ]
      ]
    ]
