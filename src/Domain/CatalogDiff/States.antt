-- ===== src/Domain/CatalogDiff/States.antt =====
-- internal/domain/catalog_diff.go: the comparison of two catalog states.
use mcpv.Base.{
  sort_strings, keys, add_once, String, Bool, true, false, not, ◌&&◌, ◌||◌, Option, none, some,
  List, [], ◌∷◌, ◌++◌, if◌then◌else◌, ltb, ◌+◌, str_eq, is_some, length, lookup,
}
use mcpv.Domain.Spec.{ServerSpec}
use mcpv.Domain.Plugin.{PluginSpec}
use mcpv.Domain.RuntimeDiff.{diff_runtime_config}
use mcpv.Domain.CatalogDiff.{
  CatalogDiff, CatalogState, SpecDiffClassification, unchanged, tools_only, runtime_behavior,
  restart_required, deep_equal, plugins_equal, classify_spec_diff, runtime_diff_is_empty,
}

-- The keys that the first loop has appended so far.
pub record SpecKeys : Type 0 where
  pub removed : List String
  pub updated : List String
  pub tools_only : List String
  pub runtime_behavior : List String
  pub restart_required : List String

unfoldable pub add_class : SpecDiffClassification → String → SpecKeys → SpecKeys
add_class unchanged k d = d
add_class tools_only k d = record d { tools_only = d.tools_only ++ k ∷ [] }
add_class runtime_behavior k d = record d { runtime_behavior = d.runtime_behavior ++ k ∷ [] }
add_class restart_required k d = record d { restart_required = d.restart_required ++ k ∷ [] }

abbrev pub visit_pair : Bool → SpecDiffClassification → String → SpecKeys → SpecKeys
visit_pair true c k d = d
visit_pair false c k d = add_class c k (record d { updated = d.updated ++ k ∷ [] })

-- One round of it, at a key with its value before and perhaps one after.
unfoldable pub visit_spec : String → Option ServerSpec → Option ServerSpec → SpecKeys → SpecKeys
unfolding add_class classify_spec_diff deep_equal
visit_spec k none after d = d
visit_spec k (some a) none d = record d { removed = d.removed ++ k ∷ [] }
visit_spec k (some a) (some b) d = visit_pair (deep_equal a b) (classify_spec_diff a b) k d

unfoldable pub visit_specs :
    List (String × ServerSpec) → List (String × ServerSpec) → List String → SpecKeys → SpecKeys
unfolding visit_spec
visit_specs prev next [] d = d
visit_specs prev next (k ∷ ks) d =
    visit_specs prev next ks (visit_spec k (lookup k prev) (lookup k next) d)

-- The keys of one map that the other lacks.
unfoldable pub missing {ℓ κ} :
    {V : Type ℓ} {W : Type κ} → List (String × V) → List (String × W) → List String
missing [] m = []
missing ((k, v) ∷ rest) m =
    let later = missing rest m in if is_some (lookup k m) then later else k ∷ later

abbrev updated_plugin : String → Option PluginSpec → Option PluginSpec → List String → List String
updated_plugin k (some a) (some b) later = if plugins_equal a b then later else k ∷ later
updated_plugin k none after later = later
updated_plugin k (some a) none later = later

unfoldable pub updated_plugins :
    List (String × PluginSpec) → List (String × PluginSpec) → List String → List String
unfolding plugins_equal
updated_plugins prev next [] = []
updated_plugins prev next (k ∷ ks) =
    updated_plugin k (lookup k prev) (lookup k next) (updated_plugins prev next ks)

unfoldable pub tags_equal : List String → List String → Bool
tags_equal [] [] = true
tags_equal [] (y ∷ ys) = false
tags_equal (x ∷ xs) [] = false
tags_equal (x ∷ xs) (y ∷ ys) = let later = tags_equal xs ys in str_eq x y && later

abbrev tags_of : Option ServerSpec → List String
tags_of none = []
tags_of (some s) = elim s.tags [ none ↦ [] | some ts ↦ ts ]

-- A round of the loop over the servers' keys: the set of replaced keys and `TagsChanged`.
unfoldable pub visit_server :
    CatalogState
    → CatalogState
    → String
    → Option String
    → Option String
    → List String × Bool
    → List String × Bool
unfolding tags_equal
visit_server prev next name (some old) (some new) (replaced, changed) =
    if str_eq old "" || str_eq new "" then (replaced, changed) else (
      (if str_eq new old then replaced else add_once old replaced),
      changed
          || not (tags_equal (tags_of (lookup name prev.specs)) (tags_of (lookup name next.specs))),
    )
visit_server prev next name none after r = r
visit_server prev next name (some old) none r = r

unfoldable pub visit_servers :
    CatalogState → CatalogState → List String → List String × Bool → List String × Bool
unfolding visit_server
visit_servers prev next [] r = r
visit_servers prev next (name ∷ names) r =
    let before = lookup name prev.server_spec_keys in
    let after = lookup name next.server_spec_keys in
    visit_servers prev next names (visit_server prev next name before after r)

unfoldable pub diff_catalog_states : CatalogState → CatalogState → CatalogDiff
unfolding runtime_diff_is_empty diff_runtime_config visit_specs missing updated_plugins
    visit_servers sort_strings keys
diff_catalog_states prev next =
    let runtime = diff_runtime_config prev.runtime next.runtime in
    let none_yet : SpecKeys = record {
      removed = [];
      updated = [];
      tools_only = [];
      runtime_behavior = [];
      restart_required = [];
    } in
    let d = visit_specs prev.spec_registry next.spec_registry (keys prev.spec_registry) none_yet in
    let (replaced, changed) = visit_servers prev next (keys prev.server_spec_keys) ([], false) in
    let added_plugins = missing next.plugin_index prev.plugin_index in
    let removed_plugins = missing prev.plugin_index next.plugin_index in
    let updated = updated_plugins prev.plugin_index next.plugin_index (keys prev.plugin_index) in
    record {
      added_spec_keys = sort_strings (missing next.spec_registry prev.spec_registry);
      removed_spec_keys = sort_strings d.removed;
      replaced_spec_keys = sort_strings replaced;
      updated_spec_keys = sort_strings d.updated;
      tools_only_spec_keys = sort_strings d.tools_only;
      runtime_behavior_spec_keys = sort_strings d.runtime_behavior;
      restart_required_spec_keys = sort_strings d.restart_required;
      tags_changed = changed;
      runtime_changed = not (runtime_diff_is_empty runtime);
      plugins_changed = ltb 0 (
          length (sort_strings added_plugins)
          + length (sort_strings removed_plugins)
          + length (sort_strings updated));
      added_plugins = sort_strings added_plugins;
      removed_plugins = sort_strings removed_plugins;
      updated_plugins = sort_strings updated;
      runtime_diff = runtime;
    }
