-- ===== src/Examples/Reloads.antt =====
-- The laws of internal/app/controlplane/reload and internal/infra/retry: a reload that changes the plugins
-- and then fails, and a function that fails a few times.
use mcpv.Base.{
  ℕ, zero, suc, ◌+◌, ◌-◌, ◌≡◌, refl, ap, sym, true, false, none, some, [], ◌∷◌, String, List,
  is_some, Option,
}
use mcpv.Domain.Errors.{plain}
use mcpv.Domain.Plugin.{PluginSpec, content}
use mcpv.Governance.Engine.{update}
use mcpv.Reload.{Step, ReloadError, failed, apply_steps}
use mcpv.Reload.Plugins.{PluginWorld, plugins_step, plugins_step-Undoable}
use mcpv.Reload.Rollback.{Undoable, Restores, apply_steps-Restores}
use mcpv.Retry.{Policy, limited, World, retry}
use mcpv.Reload.Stages.{FromStep, apply_steps-FromStep}
use mcpv.Retry.Attempts.{retry-ends}

abbrev mask : PluginSpec
mask = record {
  name = "mask";
  category = content;
  required = true;
  disabled = false;
  cmd = none;
  env = none;
  cwd = "";
  commit_hash = "";
  timeout_ms = 0;
  handshake_timeout_ms = 0;
  config_json = none;
  flows = none;
}

-- A manager whose processes are those of the plugins it was last given.
abbrev replaces : List PluginSpec → List PluginSpec → Option ReloadError × List PluginSpec
replaces plugins processes = (none, plugins)

abbrev to_mask : Step (PluginWorld (List PluginSpec))
to_mask = plugins_step (some replaces) true [] (mask ∷ [])

-- The change of the runtime's configuration fails in the registry.
abbrev fails : Step (PluginWorld (List PluginSpec))
fails = record {
  name = "runtime_config";
  apply = λ w. (some (failed (plain "closed")), w);
  rollback = some (λ w. (none, w));
}

abbrev steps : List (Step (PluginWorld (List PluginSpec)))
steps = to_mask ∷ fails ∷ []

abbrev before : PluginWorld (List PluginSpec)
before = record { engine = update []; processes = [] }

fails-Undoable : (w : PluginWorld (List PluginSpec)) → Undoable (fails ∷ []) w
fails-Undoable w = (
  λ t e h. sym (ap (λ (q : Option ReloadError × PluginWorld (List PluginSpec)). q.1) h),
  λ t h. absurd (cc),
)

steps-Undoable : Undoable steps before
steps-Undoable =
    plugins_step-Undoable (some replaces) true [] (mask ∷ []) before (fails ∷ []) refl
      (λ q h. refl, λ q e h. absurd (cc)) (λ t h. fails-Undoable t)

apply_steps-Restores_example : Restores before (apply_steps steps [] before)
apply_steps-Restores_example = apply_steps-Restores steps before steps-Undoable

-- A function that fails while the state is not 0 and counts down.
abbrev countdown : World ℕ String
countdown = record {
  attempt = λ n. (elim n [ zero ↦ none | suc m ↦ some "again" ], n - 1);
  ctx_error = λ n. none;
  wait = λ delay n. (true, n);
}

abbrev thrice : Policy
thrice = record { base_delay = 10; max_delay = 25; max_retries = limited 3 }

retry-ends_example : is_some (retry countdown (λ d. d + d) (λ d. d) 4 thrice 2) ≡ true
retry-ends_example = retry-ends countdown (λ d. d + d) (λ d. d) 3 thrice 2 refl

apply_steps-FromStep_example : FromStep steps (apply_steps steps [] before).0
apply_steps-FromStep_example = apply_steps-FromStep steps [] before
