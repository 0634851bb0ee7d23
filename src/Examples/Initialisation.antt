-- ===== src/Examples/Initialisation.antt =====
-- The laws of internal/app/bootstrap/serverinit/manager.go at one server that is asked for after it was idle.
use Prim.Native.Nat.{◌^◌}
use mcpv.Base.{
  pos, String, some, List, ◌-◌, ◌*◌, ◌≡◌, refl, min, true, false, none, [], ◌∷◌, has, lookup, ok, ℕ,
  arith, is_some,
}
use mcpv.Domain.Spec.{ServerSpec, stateless, stdio, on_demand}
use mcpv.ServerInit.{
  InitManager, pending_status, next_retry_delay, set_min_ready, ensure_worker, rest_worker, leave,
  target_of,
}
use mcpv.ServerInit.Delays.{next_retry_delay-min}
use mcpv.ServerInit.Targets.{lost_target}
use mcpv.Domain.Errors.{plain}
use mcpv.ServerInit.Worker.{Found, GaveUp, run_worker, run_worker-gives_up}
use mcpv.ServerInit.Catalog.{IsTracked, asked, apply_catalog_state, apply_catalog_state-targets}

abbrev clock : ServerSpec
clock = record {
  name = "clock";
  transport = stdio;
  cmd = none;
  env = none;
  cwd = "";
  tags = none;
  idle_seconds = 0;
  max_concurrent = 1;
  strategy = stateless;
  session_ttl_seconds = pos 0;
  disabled = false;
  min_ready = 0;
  activation_mode = on_demand;
  drain_timeout_seconds = pos 0;
  protocol_version = "";
  expose_tools = none;
  http = none;
}

abbrev resting : InitManager
resting = record {
  specs = ("k", clock) ∷ [];
  default_mode = on_demand;
  statuses = ("k", pending_status "k" "clock" 0 1) ∷ [];
  targets = ("k", 0) ∷ [];
  running = "k" ∷ [];
  retry_base = 1;
  retry_max = 30;
  max_retries = 5;
  started = true;
}

next_retry_delay-min_example : next_retry_delay 2 30 4 ≡ min (2 * 2 ^ (4 - 1)) 30
next_retry_delay-min_example = next_retry_delay-min 2 30 4 (omega arith) (omega arith)

lost_target_example :
    ((set_min_ready 5 "k" 1 resting).0 ≡ ok true)
    × ((ensure_worker "k" (set_min_ready 5 "k" 1 resting).1).0 ≡ false)
    × (target_of "k"
          (leave "k" (rest_worker 6 "k" (ensure_worker "k" (set_min_ready 5 "k" 1 resting).1).1))
        ≡ 1)
    × (has "k"
          (leave "k"
            (rest_worker 6 "k" (ensure_worker "k" (set_min_ready 5 "k" 1 resting).1).1)).running
        ≡ false)
unfolding lookup has target_of
lost_target_example = lost_target 5 6 1 "k" resting refl refl refl refl refl

abbrev no_binary : ℕ → Found
no_binary j = record { ready = 0; failed = 1; error = some (plain "exit status 1") }

run_worker-gives_up_example :
    GaveUp (run_worker 5 1 no_binary 0 (pending_status "k" "clock" 1 1) resting)
run_worker-gives_up_example =
    run_worker-gives_up 1 no_binary (pending_status "k" "clock" 1 1) resting (omega arith)
      (omega arith) (λ j. (refl, refl))

abbrev catalog : List (String × ServerSpec)
catalog = ("k", clock) ∷ []

resting-IsTracked : IsTracked resting
unfolding IsTracked lookup
resting-IsTracked key = ground arith

apply_catalog_state-targets_example :
    let m' = (apply_catalog_state 7 catalog on_demand 1 30 none 5 resting).2 in
    ((key : String)
      → (is_some (lookup key m'.statuses) ≡ is_some (lookup key catalog))
        × (target_of key m' ≡ asked on_demand (lookup key catalog)))
    × IsTracked m'
apply_catalog_state-targets_example =
    apply_catalog_state-targets 7 catalog on_demand 1 30 none 5 resting resting-IsTracked
