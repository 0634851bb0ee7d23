-- ===== src/Registry/Activation.antt =====
-- internal/app/controlplane/registry/client_registry_activation.go, internal/app/bootstrap/activation
-- and the choice of `reapDeadClients`. The startup orchestrator and the scheduler are functions that
-- say what their calls return; the causes of starts are left out.
use mcpv.Base.{
  ℕ, ◌-◌, ◌*◌, String, Bool, true, false, not, ◌&&◌, Option, none, some, List, [], ◌∷◌, ◌++◌,
  if◌then◌else◌, ◌==◌, ltb, leb, sort_strings, lookup, keep_if, Result, ok, err,
}
use mcpv.Domain.Spec.{ServerSpec, ActivationMode, unset, always_on, on_demand, other}
use mcpv.Registry.Visibility.{Specs}
use mcpv.Registry.Clients.{
  ClientState, RegistryError, unknown_spec_key, no_scheduler, call_failed, count_of,
}

pub data Call : Type 0 where
  startup_min_ready scheduler_min_ready : String → ℕ → Call
  stop_spec : String → Call

-- `SetMinReady` succeeds or not; `SetDesiredMinReady` and `StopSpec` may return an error.
pub record Services : Type 0 where
  pub startup : Option (String → ℕ → Bool)
  pub scheduler : Option ((String → ℕ → Option String) × (String → Option String))

abbrev or_mode : ActivationMode → ActivationMode → ActivationMode
or_mode unset fallback = fallback
or_mode on_demand fallback = on_demand
or_mode always_on fallback = always_on
or_mode (other s) fallback = other s

unfoldable pub resolve_activation_mode : ActivationMode → ServerSpec → ActivationMode
resolve_activation_mode default_mode spec =
    or_mode (or_mode spec.activation_mode default_mode) on_demand

unfoldable pub active_min_ready : ServerSpec → ℕ
active_min_ready spec = if ltb spec.min_ready 1 then 1 else spec.min_ready

abbrev is_always_on : ActivationMode → Bool
is_always_on always_on = true
is_always_on on_demand = false
is_always_on unset = false
is_always_on (other s) = false

-- The section under the lock: only a key that went from no client to one is started.
unfoldable pub specs_to_start : List (String × ℕ) → List String → List String
specs_to_start counts ks = keep_if (λ k. count_of k counts == 1) (sort_strings ks)

abbrev and_task :
    Option ServerSpec
    → String
    → Result RegistryError (List (String × ℕ))
    → Result RegistryError (List (String × ℕ))
and_task none key rest = err unknown_spec_key
and_task (some spec) key (err e) = err e
and_task (some spec) key (ok tasks) = ok ((key, active_min_ready spec) ∷ tasks)

unfoldable pub activation_tasks : Specs → List String → Result RegistryError (List (String × ℕ))
unfolding active_min_ready
activation_tasks registry [] = ok []
activation_tasks registry (key ∷ ks) =
    and_task (lookup key registry) key (activation_tasks registry ks)

abbrev startup_accepts : Option (String → ℕ → Bool) → String → ℕ → Bool
startup_accepts none key n = false
startup_accepts (some set) key n = set key n

abbrev by_scheduler :
    Option ((String → ℕ → Option String) × (String → Option String))
    → String
    → ℕ
    → List Call
    → List Call × Option RegistryError
by_scheduler none key n asked = (asked, some no_scheduler)
by_scheduler (some (set, stop)) key n asked = (
  asked ++ scheduler_min_ready key n ∷ [],
  elim (set key n) [ none ↦ none | some text ↦ some (call_failed text) ],
)

abbrev then_start :
    Option RegistryError
    → List Call
    → List Call
    → Option RegistryError
    → List Call × Option RegistryError
then_start (some e) calls later failure = (calls, some e)
then_start none calls later failure = (calls ++ later, failure)

-- The calls of one task, and its error.
unfoldable pub start_one : Services → String → ℕ → List Call × Option RegistryError
start_one s key n =
    let asked : List Call = elim s.startup [
      | none ↦ []
      | some set ↦ startup_min_ready key n ∷ []
    ] in
    let (calls, failure) = by_scheduler s.scheduler key n asked in
    if startup_accepts s.startup key n then (asked, none) else (calls, failure)

unfoldable pub start_all : Services → List (String × ℕ) → List Call × Option RegistryError
unfolding start_one
start_all s [] = ([], none)
start_all s ((key, n) ∷ tasks) =
    let (calls, failure) = start_one s key n in
    let (later, failure') = start_all s tasks in then_start failure calls later failure'

-- `activateSpecs`: the calls that it makes and the error that it returns.
unfoldable pub activate_specs :
    Services → Specs → List (String × ℕ) → List String → List Call × Option RegistryError
unfolding specs_to_start activation_tasks start_all
activate_specs s registry counts ks = elim (activation_tasks registry (specs_to_start counts ks)) [
  | err e ↦ ([], some e)
  | ok tasks ↦ start_all s tasks
]

-- The section of `deactivateSpecs` under the lock.
unfoldable pub keeps_up : ActivationMode → Option ServerSpec → Bool
unfolding resolve_activation_mode
keeps_up default_mode none = false
keeps_up default_mode (some spec) = is_always_on (resolve_activation_mode default_mode spec)

unfoldable pub specs_to_stop :
    ActivationMode → Specs → List (String × ℕ) → List String → List String
unfolding keeps_up
specs_to_stop default_mode registry counts ks =
    keep_if
      (λ k. not (ltb 0 (count_of k counts)) && not (keeps_up default_mode (lookup k registry)))
      (sort_strings ks)

abbrev first_error : Option RegistryError → Option RegistryError → Option RegistryError
first_error (some e) later = some e
first_error none later = later

abbrev stop_by :
    Option ((String → ℕ → Option String) × (String → Option String))
    → String
    → List Call × Option RegistryError
stop_by none key = ([], some no_scheduler)
stop_by (some (set, stop)) key =
    (stop_spec key ∷ [], elim (stop key) [ none ↦ none | some text ↦ some (call_failed text) ])

-- The loop of `deactivateSpecs`: it goes on after an error and returns the first one.
unfoldable pub stop_all : Services → List String → List Call × Option RegistryError
stop_all s [] = ([], none)
stop_all s (key ∷ ks) =
    let asked : List Call = elim s.startup [
      | none ↦ []
      | some set ↦ startup_min_ready key 0 ∷ []
    ] in
    let (calls, failure) = stop_by s.scheduler key in
    let (later, failure') = stop_all s ks in (asked ++ calls ++ later, first_error failure failure')

unfoldable pub deactivate_specs :
    Services
    → ActivationMode
    → Specs
    → List (String × ℕ)
    → List String
    → List Call × Option RegistryError
unfolding specs_to_stop stop_all
deactivate_specs s default_mode registry counts ks =
    stop_all s (specs_to_stop default_mode registry counts ks)

-- The loop of `reapDeadClients`: whether a client is to be unregistered. A heartbeat of 0 is Go's
-- zero time, and `alive` is what the probe says of its process.
unfoldable pub is_dead : ℕ → ℕ → ℕ → (ℕ → Bool) → ClientState → Bool
is_dead now check_interval inactive_timeout alive c =
    let beats = not (c.last_heartbeat == 0) in
    let age = now - c.last_heartbeat in
    if ltb 0 inactive_timeout && beats && ltb inactive_timeout age
    then true
    else if ltb 0 (check_interval * 2) && beats && leb age (check_interval * 2)
    then false
    else not (alive c.pid)
