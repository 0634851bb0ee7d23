-- ===== src/Domain/Equality.antt =====
-- `reflect.DeepEqual` on specifications of servers and plugins: equality, which tells an absent slice from an
-- empty one.
use mcpv.Base.{ℤ, inl, inr, String, str_eq, eq_iff, Bool-cases, arith}
use native.Mathlib.Decide.{ℕ_discrete}
use mcpv.Domain.Plugin.{PluginSpec, PluginCategory, PluginFlow}
use mcpv.Domain.Spec.{
  ServerSpec, InstanceStrategy, TransportKind, ActivationMode, ProxyMode, ProxyConfig,
  StreamableHttpConfig,
}

pub String-discrete : Discrete String
String-discrete a b = elim (Bool-cases (str_eq a b)) [
  | inl e ↦ yes (ground (arith, eq_iff a b))
  | inr e ↦ no (λ same. ground (arith, eq_iff a b))
]

pub ℤ-discrete : Discrete ℤ
ℤ-discrete = hlevel (ℕ_discrete)

pub InstanceStrategy-discrete : Discrete InstanceStrategy
InstanceStrategy-discrete = hlevel (String-discrete)

pub TransportKind-discrete : Discrete TransportKind
TransportKind-discrete = hlevel (String-discrete)

pub ActivationMode-discrete : Discrete ActivationMode
ActivationMode-discrete = hlevel (String-discrete)

pub ProxyMode-discrete : Discrete ProxyMode
ProxyMode-discrete = hlevel (String-discrete)

pub ProxyConfig-discrete : Discrete ProxyConfig
ProxyConfig-discrete = hlevel (String-discrete, ProxyMode-discrete)

pub StreamableHttpConfig-discrete : Discrete StreamableHttpConfig
StreamableHttpConfig-discrete = hlevel (String-discrete, ProxyConfig-discrete, ℤ-discrete)

pub ServerSpec-discrete : Discrete ServerSpec
ServerSpec-discrete = hlevel (
  String-discrete, ℕ_discrete, ℤ-discrete, InstanceStrategy-discrete, TransportKind-discrete,
  ActivationMode-discrete, StreamableHttpConfig-discrete,
)

PluginCategory-discrete : Discrete PluginCategory
PluginCategory-discrete = hlevel (String-discrete)

PluginFlow-discrete : Discrete PluginFlow
PluginFlow-discrete = hlevel (String-discrete)

pub PluginSpec-discrete : Discrete PluginSpec
PluginSpec-discrete =
    hlevel (String-discrete, ℕ_discrete, PluginCategory-discrete, PluginFlow-discrete)
