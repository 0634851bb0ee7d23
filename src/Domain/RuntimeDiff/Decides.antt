-- ===== src/Domain/RuntimeDiff/Decides.antt =====
-- internal/domain/runtime_diff.go: what an empty difference says, and one that requires no restart.
use mcpv.Base.{
  ℕ, String, Bool, true, false, ◌&&◌, List, [], ◌∷◌, ◌≡◌, refl, ap, ◌∙◌, ◌↔◌, subst, ◌==◌, ==_iff,
  sort_strings, place, arith,
}
use mcpv.Domain.Equality.{ProxyConfig-discrete, ActivationMode-discrete}
use mcpv.Domain.Runtime.{
  RuntimeConfig, Bool-discrete, ReloadMode-discrete, ToolNamespaceStrategy-discrete,
  BootstrapMode-discrete, ObservabilityConfig-discrete, RpcConfig-discrete, SubAgentConfig-discrete,
}
use mcpv.Domain.CatalogDiff.{is_nil, runtime_diff_is_empty, decided}
use mcpv.Domain.RuntimeDiff.{
  requires_restart, changed_names, dynamic_tests, restart_tests, diff_runtime_config,
}

abbrev AllSame : List (Bool × String) → Type 0
AllSame [] = Unit {0}
AllSame ((same, name) ∷ tests) = (same ≡ true) × AllSame tests

infixr 4 ◌&◌
◌&◌ {ℓ ℓ'} : {A : Type ℓ} {B : Type ℓ'} → A → B → A × B
a & b = (a, b)

is_nil-place : (x : String) (xs : List String) → is_nil (place x xs) ≡ false
unfolding place
is_nil-place x [] = ground arith
is_nil-place x (y ∷ ys) = ground arith

is_nil-sort_strings : (xs : List String) → is_nil (sort_strings xs) ≡ is_nil xs
unfolding sort_strings
is_nil-sort_strings [] = refl
is_nil-sort_strings (x ∷ xs) = is_nil-place x (sort_strings xs) ∙ ground arith

changed_names-AllSame :
    (tests : List (Bool × String)) → is_nil (changed_names tests) ≡ true → AllSame tests
unfolding changed_names
changed_names-AllSame [] e = tt
changed_names-AllSame ((true, name) ∷ tests) e = (refl, changed_names-AllSame tests e)
changed_names-AllSame ((false, name) ∷ tests) e = absurd (ground arith)

AllSame-changed_names :
    (tests : List (Bool × String)) → AllSame tests → is_nil (changed_names tests) ≡ true
unfolding changed_names
AllSame-changed_names [] e = refl
AllSame-changed_names ((true, name) ∷ tests) (e, es) = AllSame-changed_names tests es
AllSame-changed_names ((false, name) ∷ tests) (e, es) = absurd (cc)

decided-eq {ℓ} : {A : Type ℓ} (d : Dec A) → decided d ≡ true → A
decided-eq (yes a) e = a
decided-eq (no n) e = absurd (cc)

decided_refl {ℓ} : {A : Type ℓ} (d : Dec A) → A → decided d ≡ true
decided_refl (yes a) x = refl
decided_refl (no n) x = absurd (n x)

same_number : (a b : ℕ) → (a == b) ≡ true → a ≡ b
same_number a b = (==_iff a b).0

-- `b` with the fields of `a` that need a restart.
abbrev pub with_restart_fields_of : RuntimeConfig → RuntimeConfig → RuntimeConfig
with_restart_fields_of a b = record b {
  rpc = a.rpc;
  sub_agent = a.sub_agent;
  bootstrap_mode = a.bootstrap_mode;
  bootstrap_concurrency = a.bootstrap_concurrency;
  bootstrap_timeout_seconds = a.bootstrap_timeout_seconds;
  default_activation_mode = a.default_activation_mode;
}

restart_fields-eq :
    (a b : RuntimeConfig) → AllSame (restart_tests a b) → with_restart_fields_of a b ≡ b
unfolding restart_tests
restart_fields-eq a b (e₁, (e₂, (e₃, (e₄, (e₅, (e₆, e₇)))))) = λ i. record b {
  rpc = decided-eq (RpcConfig-discrete a.rpc b.rpc) e₁ i;
  sub_agent = decided-eq (SubAgentConfig-discrete a.sub_agent b.sub_agent) e₂ i;
  bootstrap_mode = decided-eq (BootstrapMode-discrete a.bootstrap_mode b.bootstrap_mode) e₃ i;
  bootstrap_concurrency = same_number a.bootstrap_concurrency b.bootstrap_concurrency e₄ i;
  bootstrap_timeout_seconds =
      same_number a.bootstrap_timeout_seconds b.bootstrap_timeout_seconds e₅ i;
  default_activation_mode =
      decided-eq (ActivationMode-discrete a.default_activation_mode b.default_activation_mode) e₆ i;
}

dynamic_fields-eq :
    (a b : RuntimeConfig) → AllSame (dynamic_tests a b) → a ≡ with_restart_fields_of a b
unfolding dynamic_tests
dynamic_fields-eq a b
      (e₁, (e₂, (e₃, (e₄, (e₅, (e₆, (e₇, (e₈, (e₉, (f₁, (f₂, (f₃, (f₄, (f₅, f₆)))))))))))))) =
    λ i. record a {
      route_timeout_seconds = same_number a.route_timeout_seconds b.route_timeout_seconds e₁ i;
      ping_interval_seconds = same_number a.ping_interval_seconds b.ping_interval_seconds e₂ i;
      tool_refresh_seconds = same_number a.tool_refresh_seconds b.tool_refresh_seconds e₃ i;
      tool_refresh_concurrency =
          same_number a.tool_refresh_concurrency b.tool_refresh_concurrency e₄ i;
      client_check_seconds = same_number a.client_check_seconds b.client_check_seconds e₅ i;
      client_inactive_seconds =
          same_number a.client_inactive_seconds b.client_inactive_seconds e₆ i;
      server_init_retry_base_seconds =
          same_number a.server_init_retry_base_seconds b.server_init_retry_base_seconds e₇ i;
      server_init_retry_max_seconds =
          same_number a.server_init_retry_max_seconds b.server_init_retry_max_seconds e₈ i;
      server_init_max_retries =
          same_number a.server_init_max_retries b.server_init_max_retries e₉ i;
      reload_mode = decided-eq (ReloadMode-discrete a.reload_mode b.reload_mode) f₁ i;
      expose_tools = decided-eq (Bool-discrete a.expose_tools b.expose_tools) f₂ i;
      tool_namespace_strategy =
          decided-eq
            (ToolNamespaceStrategy-discrete a.tool_namespace_strategy b.tool_namespace_strategy) f₃
            i;
      proxy = decided-eq (ProxyConfig-discrete a.proxy b.proxy) f₄ i;
      observability =
          decided-eq (ObservabilityConfig-discrete a.observability b.observability) f₅ i;
    }

numbers_same : (a b : ℕ) → a ≡ b → (a == b) ≡ true
numbers_same a b = (==_iff a b).1

eq-restart_tests :
    (a b : RuntimeConfig) → with_restart_fields_of a b ≡ b → AllSame (restart_tests a b)
unfolding restart_tests
eq-restart_tests a b e =
    decided_refl (RpcConfig-discrete a.rpc b.rpc) (ap (λ (c : RuntimeConfig). c.rpc) e)
    & decided_refl (SubAgentConfig-discrete a.sub_agent b.sub_agent)
        (ap (λ (c : RuntimeConfig). c.sub_agent) e)
    & decided_refl (BootstrapMode-discrete a.bootstrap_mode b.bootstrap_mode)
        (ap (λ (c : RuntimeConfig). c.bootstrap_mode) e)
    & numbers_same a.bootstrap_concurrency b.bootstrap_concurrency
        (ap (λ (c : RuntimeConfig). c.bootstrap_concurrency) e)
    & numbers_same a.bootstrap_timeout_seconds b.bootstrap_timeout_seconds
        (ap (λ (c : RuntimeConfig). c.bootstrap_timeout_seconds) e)
    & decided_refl (ActivationMode-discrete a.default_activation_mode b.default_activation_mode)
        (ap (λ (c : RuntimeConfig). c.default_activation_mode) e)
    & tt

same_dynamic_tests : (a : RuntimeConfig) → AllSame (dynamic_tests a a)
unfolding dynamic_tests
same_dynamic_tests a =
    numbers_same a.route_timeout_seconds a.route_timeout_seconds refl
    & numbers_same a.ping_interval_seconds a.ping_interval_seconds refl
    & numbers_same a.tool_refresh_seconds a.tool_refresh_seconds refl
    & numbers_same a.tool_refresh_concurrency a.tool_refresh_concurrency refl
    & numbers_same a.client_check_seconds a.client_check_seconds refl
    & numbers_same a.client_inactive_seconds a.client_inactive_seconds refl
    & numbers_same a.server_init_retry_base_seconds a.server_init_retry_base_seconds refl
    & numbers_same a.server_init_retry_max_seconds a.server_init_retry_max_seconds refl
    & numbers_same a.server_init_max_retries a.server_init_max_retries refl
    & decided_refl (ReloadMode-discrete a.reload_mode a.reload_mode) refl
    & decided_refl (Bool-discrete a.expose_tools a.expose_tools) refl
    & decided_refl
        (ToolNamespaceStrategy-discrete a.tool_namespace_strategy a.tool_namespace_strategy) refl
    & decided_refl (ProxyConfig-discrete a.proxy a.proxy) refl
    & decided_refl (ObservabilityConfig-discrete a.observability a.observability) refl
    & tt

both-AllSame :
    (ds rs : List (Bool × String))
    → (is_nil (sort_strings (changed_names ds)) && is_nil (sort_strings (changed_names rs))) ≡ true
    → AllSame ds × AllSame rs
both-AllSame ds rs e = (
  changed_names-AllSame ds (ground (arith, is_nil-sort_strings (changed_names ds))),
  changed_names-AllSame rs (ground (arith, is_nil-sort_strings (changed_names rs))),
)

-- An empty difference means equal configurations.
empty-eq : (a b : RuntimeConfig) → runtime_diff_is_empty (diff_runtime_config a b) ≡ true → a ≡ b
unfolding diff_runtime_config runtime_diff_is_empty
empty-eq a b e =
    let s = both-AllSame (dynamic_tests a b) (restart_tests a b) e in
    dynamic_fields-eq a b s.0 ∙ restart_fields-eq a b s.1

self-empty : (a : RuntimeConfig) → runtime_diff_is_empty (diff_runtime_config a a) ≡ true
unfolding diff_runtime_config runtime_diff_is_empty
self-empty a = ground (
  arith,
  is_nil-sort_strings (changed_names (dynamic_tests a a)),
  is_nil-sort_strings (changed_names (restart_tests a a)),
  AllSame-changed_names (dynamic_tests a a) (same_dynamic_tests a),
  AllSame-changed_names (restart_tests a a) (eq-restart_tests a a refl),
)

no_restart-eq :
    (a b : RuntimeConfig)
    → requires_restart (diff_runtime_config a b) ≡ false
    → with_restart_fields_of a b ≡ b
unfolding diff_runtime_config requires_restart
no_restart-eq a b e = restart_fields-eq a b (
    changed_names-AllSame (restart_tests a b)
      (ground (arith, is_nil-sort_strings (changed_names (restart_tests a b)))))

eq-no_restart :
    (a b : RuntimeConfig)
    → with_restart_fields_of a b ≡ b
    → requires_restart (diff_runtime_config a b) ≡ false
unfolding diff_runtime_config requires_restart
eq-no_restart a b e = ground (
  arith,
  is_nil-sort_strings (changed_names (restart_tests a b)),
  AllSame-changed_names (restart_tests a b) (eq-restart_tests a b e),
)

-- The difference of two configurations is empty exactly when they are equal, and it requires no restart
-- exactly when the new configuration has the six fields of the old one that need a restart.
pub diff_runtime_config-decides :
    (a b : RuntimeConfig)
    → ((runtime_diff_is_empty (diff_runtime_config a b) ≡ true) ↔ (a ≡ b))
      × ((requires_restart (diff_runtime_config a b) ≡ false) ↔ (with_restart_fields_of a b ≡ b))
diff_runtime_config-decides a b = (
  (
    empty-eq a b,
    λ e. subst (λ c. runtime_diff_is_empty (diff_runtime_config a c) ≡ true) e (self-empty a),
  ),
  (no_restart-eq a b, eq-no_restart a b),
)
