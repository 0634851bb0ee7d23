-- ===== src/Domain/Plugin.antt =====
-- internal/domain/plugin.go: the specification of a governance plugin. A timeout is a number of
-- milliseconds that the loader keeps from being negative; a map is its entries in the order of the
-- keys.
use mcpv.Base.{ℕ, String, Bool, Option, List}

pub data PluginCategory : Type 0 where
  observability authentication authorization rate_limiting validation content audit : PluginCategory
  other : String → PluginCategory

pub data PluginFlow : Type 0 where
  request response : PluginFlow
  other : String → PluginFlow

pub record PluginSpec : Type 0 where
  pub name : String
  pub category : PluginCategory
  pub required : Bool
  pub disabled : Bool
  pub cmd : Option (List String)
  pub env : Option (List (String × String))
  pub cwd : String
  pub commit_hash : String
  pub timeout_ms : ℕ
  pub handshake_timeout_ms : ℕ
  pub config_json : Option String
  pub flows : Option (List PluginFlow)
