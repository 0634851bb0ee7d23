-- ===== src/Lib.antt =====
-- mcpv runs servers of the Model Context Protocol behind one control plane. Its scheduler keeps a
-- pool of instances for each server specification, starts them on demand, hands them out to
-- requests and stops them when they are idle. A router takes an instance from it for each request and
-- releases it; a governance pipeline stands in front of the requests; a registry counts which clients
-- need which specification. Catalogs are compared and reloaded in steps, a gateway keeps a runtime for
-- each selector, a manager runs tasks in the background, and caches keep which schemas a session was
-- sent and what servers offer. A manager brings each server to its number of ready instances. This
-- library models those parts in Go as they are written and proves what makes them correct.
--
-- Parts and files, by path from the repository's root:
--   internal/domain/types.go, duration_helpers.go, instance.go: Domain/Spec, Domain/Instance.
--   internal/infra/scheduler/basic.go (poolState): Scheduler/State.
--   internal/infra/scheduler/pool.go: Scheduler/Pool, with its laws in Scheduler/Pool/.
--   internal/infra/scheduler/acquire.go, metrics.go, cause.go: Scheduler/Acquire.
--   internal/infra/scheduler/lifecycle.go, drain.go: Scheduler/Lifecycle.
--   internal/infra/scheduler/maintenance.go: Scheduler/Maintenance.
--   internal/infra/scheduler/catalog.go: Scheduler/Catalog, with its laws in Scheduler/Pools.
--   The laws over several of these: Scheduler/Invariant, Preserve, Adopt and Steps (the pool as a
--     transition system), Selection, Sessions, Reaping, Stopping, Races.
--   internal/infra/tasks/manager.go: Tasks/Manager, Tasks/Runs, with the laws in Tasks/Steps, Settled,
--     Abandoned, Access and Pages. An identifier `task-<n>` is the number `n`.
--   internal/domain/catalog_diff.go, catalog_state.go, runtime_diff.go, plugin.go: Domain/CatalogDiff
--     and its children, Domain/Plugin, Domain/Equality.
--   internal/domain/session_cache.go: Domain/SessionCache, with its laws in Domain/SessionCache/.
--   internal/domain/error.go, route_error.go: Domain/Errors, with its laws in Domain/Errors/Codes.
--   internal/app/controlplane/registry, internal/app/bootstrap/activation: Registry/Visibility, Clients and
--     Activation, with their laws in Registry/Counts, Invariant, Updates and Starts.
--   internal/infra/pipeline, internal/infra/governance: Governance, Governance/Engine and Chain, with
--     their laws in Governance/Gates, Placed, Passing and Mutations.
--   internal/infra/router, internal/domain/methods.go: Router, over the interfaces `Source` and
--     `Releases`, with its laws in Router/Loads; Router/Ready fills the interfaces by a pool.
--   internal/app/controlplane/reload/transaction.go, step.go, errors.go, mode.go: Reload, with its laws
--     in Reload/Rollback and Stages.
--   internal/infra/retry: Retry, with its laws in Retry/Attempts and Delays.
--   internal/infra/gateway/pool.go, selector.go: Gateway, with its laws in Gateway/Accounts, Steps and
--     Capacity.
--   internal/app/bootstrap/serverinit/manager.go: ServerInit, with its laws in ServerInit/Delays, States,
--     Targets, Tracked, Catalog and Worker.
--   internal/domain/metadata_cache.go: Domain/MetadataCache, with its laws in Domain/MetadataCache/Age.
--   internal/domain/runtime_diff.go and the configuration of types.go and subagent.go: Domain/RuntimeDiff
--     and Domain/Runtime, with the laws in Domain/RuntimeDiff/Decides.
--   internal/app/controlplane/reload.go, the step for plugins: Reload/Plugins.
--   Examples/: each law at a concrete input.
--   Base/: tests, lists, texts, integers and results that the parts share.
--
-- Functions and methods keep their names in snake case, without the suffix `Locked`. A method that
-- changes its receiver returns the changed record. A pointer to an instance is a handle, a number
-- that the pool's `heap` maps to the instance. What runs between two operations of a mutex is one
-- function, and goroutines are interleavings of such functions: `Step` in Scheduler/Steps lists
-- them, with any arguments, in any order, but for changes of the catalog that lower
-- `max_concurrent`. `Acquire` and `SetDesiredMinReady` are several of them, since they let the lock
-- go while an instance starts. Time, contexts and what the lifecycle returns are arguments.
--
-- Numbers: an `int` that the loader keeps from being negative is a natural number, and one that may
-- be negative an integer; the unsigned 64-bit counters `generation` and `signalSeq` wrap around,
-- and so do the delays of the server initialisation that are doubled. Other durations do not wrap
-- around. Loops are recursions on the list, or on the rounds that a counted loop has left, so that
-- no fuel is needed. There are three exceptions. The loop of the session cache that evicts has the
-- number of entries for fuel, and ends within it. The loop of `Retry` has fuel for its turns: with
-- a limit of n retries n + 1 turns are enough, and without a limit it may run for ever. So has the
-- worker of the server initialisation, whose limit on retries is enough when all attempts fail.
--
-- Not modelled: logging, metrics and diagnostics, which change no state of these parts; processes,
-- transports and generated code; StopAll and the timers of the sweeps and drains; the subscribers and
-- broadcasts of the registry; the HTTP side of the gateway; the rest of the repository's components.
pub mod Base
pub mod Domain
pub mod Examples
pub mod Gateway
pub mod Governance
pub mod Registry
pub mod Reload
pub mod Retry
pub mod Router
pub mod Scheduler
pub mod ServerInit
pub mod Tasks
