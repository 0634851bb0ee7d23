-- ===== src/Domain/Spec.antt =====
-- internal/domain/types.go and duration_helpers.go: the server specification. An `int` field
-- is a native number where the loader rejects negative values, and an integer elsewhere. A slice
-- or pointer that may be nil is an `Option`; a map is its list of entries in the order of the
-- keys, so that equal maps are equal lists. Durations and times count nanoseconds.
use mcpv.Base.{ℤ, at_least_zero, ℕ, ◌*◌, String, Bool, Option, List, if◌then◌else◌, ◌==◌}

pub data InstanceStrategy : Type 0 where
  stateless stateful persistent singleton : InstanceStrategy
  unknown : String → InstanceStrategy

pub data TransportKind : Type 0 where
  stdio streamable_http : TransportKind
  other : String → TransportKind

pub data ActivationMode : Type 0 where
  on_demand always_on unset : ActivationMode
  other : String → ActivationMode

pub data ProxyMode : Type 0 where
  system custom disabled inherit : ProxyMode
  other : String → ProxyMode

pub record ProxyConfig : Type 0 where
  pub mode : ProxyMode
  pub url : String
  pub no_proxy : String

pub record StreamableHttpConfig : Type 0 where
  pub endpoint : String
  pub headers : Option (List (String × String))
  pub max_retries : ℤ
  pub proxy : Option ProxyConfig
  pub effective_proxy : Option ProxyConfig

pub record ServerSpec : Type 0 where
  pub name : String
  pub transport : TransportKind
  pub cmd : Option (List String)
  pub env : Option (List (String × String))
  pub cwd : String
  pub tags : Option (List String)
  pub idle_seconds : ℕ
  pub max_concurrent : ℕ
  pub strategy : InstanceStrategy
  pub session_ttl_seconds : ℤ
  pub disabled : Bool
  pub min_ready : ℕ
  pub activation_mode : ActivationMode
  pub drain_timeout_seconds : ℤ
  pub protocol_version : String
  pub expose_tools : Option (List String)
  pub http : Option StreamableHttpConfig

abbrev pub second : ℕ
second = 1000000000

abbrev pub default_drain_timeout_seconds : ℕ
default_drain_timeout_seconds = 30

unfoldable pub idle_duration : ServerSpec → ℕ
idle_duration s = if s.idle_seconds == 0 then 0 else s.idle_seconds * second

unfoldable pub drain_timeout : ServerSpec → ℕ
drain_timeout s =
    (if at_least_zero s.drain_timeout_seconds == 0
      then default_drain_timeout_seconds
      else at_least_zero s.drain_timeout_seconds)
    * second
