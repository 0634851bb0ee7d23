-- ===== src/Domain/CatalogDiff.antt =====
-- internal/domain/catalog_diff.go, on the parts of catalog_state.go and catalog_summary.go that it
-- reads. A loop over a map visits its keys, each with the map's value.
pub mod Classes
pub mod States
pub mod Keys
pub mod Partition
use mcpv.Base.{
  pos, ℕ, String, Bool, true, false, not, ◌&&◌, ◌||◌, Option, none, some, List, [], ◌∷◌, ◌++◌,
  if◌then◌else◌, ◌==◌, ltb, ◌+◌, str_eq, is_some, length, lookup,
}
use mcpv.Domain.Spec.{ServerSpec, unset}
use mcpv.Domain.Plugin.{PluginSpec}
use mcpv.Domain.Runtime.{RuntimeConfig}
use mcpv.Domain.Equality.{ServerSpec-discrete, PluginSpec-discrete}

pub record RuntimeDiff : Type 0 where
  pub dynamic_fields : List String
  pub restart_required_fields : List String

pub record CatalogDiff : Type 0 where
  pub added_spec_keys : List String
  pub removed_spec_keys : List String
  pub replaced_spec_keys : List String
  pub updated_spec_keys : List String
  pub tools_only_spec_keys : List String
  pub runtime_behavior_spec_keys : List String
  pub restart_required_spec_keys : List String
  pub tags_changed : Bool
  pub runtime_changed : Bool
  pub plugins_changed : Bool
  pub added_plugins : List String
  pub removed_plugins : List String
  pub updated_plugins : List String
  pub runtime_diff : RuntimeDiff

-- The parts of a `CatalogState` that the comparison reads.
pub record CatalogState : Type 0 where
  pub specs : List (String × ServerSpec)
  pub spec_registry : List (String × ServerSpec)
  pub server_spec_keys : List (String × String)
  pub plugin_index : List (String × PluginSpec)
  pub runtime : RuntimeConfig

pub data SpecDiffClassification : Type 0 where
  unchanged tools_only runtime_behavior restart_required : SpecDiffClassification

abbrev pub is_nil : List String → Bool
is_nil xs = length xs == 0

unfoldable pub runtime_diff_is_empty : RuntimeDiff → Bool
runtime_diff_is_empty d = is_nil d.dynamic_fields && is_nil d.restart_required_fields

abbrev pub decided {ℓ} : {A : Type ℓ} → Dec A → Bool
decided (yes a) = true
decided (no n) = false

unfoldable pub deep_equal : ServerSpec → ServerSpec → Bool
deep_equal a b = decided (ServerSpec-discrete a b)

unfoldable pub plugins_equal : PluginSpec → PluginSpec → Bool
plugins_equal a b = decided (PluginSpec-discrete a b)

unfoldable pub strip_tool_spec_fields : ServerSpec → ServerSpec
strip_tool_spec_fields s = record s { name = ""; tags = none; expose_tools = none }

unfoldable pub strip_runtime_behavior_fields : ServerSpec → ServerSpec
strip_runtime_behavior_fields s = record s {
  idle_seconds = 0;
  max_concurrent = 0;
  min_ready = 0;
  drain_timeout_seconds = pos 0;
  activation_mode = unset;
  session_ttl_seconds = pos 0;
}

unfoldable pub non_tool_spec_equals : ServerSpec → ServerSpec → Bool
unfolding deep_equal strip_tool_spec_fields
non_tool_spec_equals a b = deep_equal (strip_tool_spec_fields a) (strip_tool_spec_fields b)

unfoldable pub runtime_behavior_spec_equals : ServerSpec → ServerSpec → Bool
unfolding deep_equal strip_tool_spec_fields strip_runtime_behavior_fields
runtime_behavior_spec_equals a b =
    deep_equal (strip_runtime_behavior_fields (strip_tool_spec_fields a))
      (strip_runtime_behavior_fields (strip_tool_spec_fields b))

unfoldable pub classify_spec_diff : ServerSpec → ServerSpec → SpecDiffClassification
unfolding deep_equal non_tool_spec_equals runtime_behavior_spec_equals
classify_spec_diff a b =
    if deep_equal a b
    then unchanged
    else if non_tool_spec_equals a b
    then tools_only
    else if runtime_behavior_spec_equals a b
    then runtime_behavior
    else restart_required

unfoldable pub is_empty : CatalogDiff → Bool
unfolding runtime_diff_is_empty
is_empty d =
    is_nil d.added_spec_keys
    && is_nil d.removed_spec_keys
    && is_nil d.replaced_spec_keys
    && is_nil d.updated_spec_keys
    && is_nil d.tools_only_spec_keys
    && is_nil d.runtime_behavior_spec_keys
    && is_nil d.restart_required_spec_keys
    && not d.tags_changed
    && not d.runtime_changed
    && not d.plugins_changed
    && runtime_diff_is_empty d.runtime_diff

unfoldable pub has_spec_changes : CatalogDiff → Bool
has_spec_changes d =
    ltb 0 (length d.added_spec_keys)
    || ltb 0 (length d.removed_spec_keys)
    || ltb 0 (length d.replaced_spec_keys)
    || ltb 0 (length d.updated_spec_keys)

unfoldable pub is_runtime_only : CatalogDiff → Bool
unfolding has_spec_changes
is_runtime_only d = d.runtime_changed && not (has_spec_changes d)
