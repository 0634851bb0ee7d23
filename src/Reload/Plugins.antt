-- ===== src/Reload/Plugins.antt =====
-- internal/app/controlplane/reload.go: the step `plugins` of a reload. The manager of plugin processes
-- (internal/infra/plugin/manager.go) is a parameter; the pipeline is the engine of Governance.
use mcpv.Base.{◌≡◌, refl, sym, ap, subst, ◌∙◌, Bool, true, false, Option, none, some, List, ◌∷◌}
use mcpv.Domain.Plugin.{PluginSpec}
use mcpv.Governance.Engine.{Engine, update}
use mcpv.Reload.{Step, ReloadError, joined}
use mcpv.Reload.Rollback.{Undoable}

-- What the step changes: the engine, and the processes that the manager runs.
pub record PluginWorld (P : Type 0) : Type 0 where
  pub engine : Engine
  pub processes : P

-- A reload without a pipeline has `false`.
unfoldable pub update_pipeline :
    {P : Type 0} → Bool → List PluginSpec → PluginWorld P → PluginWorld P
update_pipeline true specs w = record w { engine = update specs }
update_pipeline false specs w = w

module _ {P : Type 0} (manager : Option (List PluginSpec → P → Option ReloadError × P))
    (has_pipeline : Bool) (prev_plugins next_plugins : List PluginSpec) where
  -- The error of `Apply` with that of the attempt to go back.
  abbrev pub joined_with : ReloadError → Option ReloadError → ReloadError
  joined_with e none = e
  joined_with e (some f) = joined e f

  abbrev pub after_manager :
      (List PluginSpec → P → Option ReloadError × P)
      → PluginWorld P
      → Option ReloadError × P
      → Option ReloadError × PluginWorld P
  after_manager apply w (none, p) =
      (none, update_pipeline has_pipeline next_plugins (record w { processes = p }))
  after_manager apply w (some e, p) =
      let (f, q) = apply prev_plugins p in (some (joined_with e f), record w { processes = q })

  abbrev pub with_manager :
      Option (List PluginSpec → P → Option ReloadError × P)
      → PluginWorld P
      → Option ReloadError × PluginWorld P
  with_manager none w = (none, update_pipeline has_pipeline next_plugins w)
  with_manager (some apply) w = after_manager apply w (apply next_plugins w.processes)

  abbrev pub back_with_manager :
      Option (List PluginSpec → P → Option ReloadError × P)
      → PluginWorld P
      → Option ReloadError × PluginWorld P
  back_with_manager none w = (none, w)
  back_with_manager (some apply) w =
      let (e, p) = apply prev_plugins w.processes in (e, record w { processes = p })

  unfoldable pub plugins_step : Step (PluginWorld P)
  unfolding update_pipeline
  plugins_step = record {
    name = "plugins";
    apply = λ w. with_manager manager w;
    rollback = some (λ w. back_with_manager manager (update_pipeline has_pipeline prev_plugins w));
  }

  -- The engine is the one that the plugins before the reload make, if there is one.
  abbrev pub IsPrev : Bool → PluginWorld P → Type 0
  IsPrev true w = w.engine ≡ update prev_plugins
  IsPrev false w = Unit {0}

  -- `Apply` of the plugins before leads the manager back, from where `Apply` of the new ones has led it,
  -- with an error or without.
  abbrev pub GoesBack : Option (List PluginSpec → P → Option ReloadError × P) → P → Type 0
  GoesBack none p = Unit {0}
  GoesBack (some apply) p =
      ((q : P) → apply next_plugins p ≡ (none, q) → apply prev_plugins q ≡ (none, p))
      × ((q : P) (e : ReloadError)
          → apply next_plugins p ≡ (some e, q)
          → (apply prev_plugins q).1 ≡ p)

  pipeline_back :
      (b : Bool) (w : PluginWorld P)
      → IsPrev b w
      → update_pipeline b prev_plugins (update_pipeline b next_plugins w) ≡ w
  unfolding update_pipeline
  pipeline_back true w at = ap (λ e. record w { engine = e }) (sym at)
  pipeline_back false w at = refl

  manager_back :
      (apply : List PluginSpec → P → Option ReloadError × P) (b : Bool) (w : PluginWorld P) (q : P)
      → IsPrev b w
      → apply prev_plugins q ≡ (none, w.processes)
      → back_with_manager (some apply) (
          update_pipeline b prev_plugins
            (update_pipeline b next_plugins (record w { processes = q })))
        ≡ (none, w)
  unfolding update_pipeline
  manager_back apply true w q at back =
      ap
        (λ (r : Option ReloadError × P).
          (r.0, record w { engine = update prev_plugins; processes = r.1 }))
        back
      ∙ ap (λ e. (none, record w { engine = e })) (sym at)
  manager_back apply false w q at back =
      ap (λ (r : Option ReloadError × P). (r.0, record w { processes = r.1 })) back

  -- What the step does from `w`, and what its rollback makes of that.
  abbrev Returns : PluginWorld P → Option ReloadError × PluginWorld P → Type 0
  Returns w (none, t) =
      back_with_manager manager (update_pipeline has_pipeline prev_plugins t) ≡ (none, w)
  Returns w (some e, t) = t ≡ w

  after_manager-Returns :
      (apply : List PluginSpec → P → Option ReloadError × P) (w : PluginWorld P)
      (r : Option ReloadError × P)
      → manager ≡ some apply
      → IsPrev has_pipeline w
      → GoesBack (some apply) w.processes
      → apply next_plugins w.processes ≡ r
      → Returns w (after_manager apply w r)
  after_manager-Returns apply w (none, p) is at (back, stay) e =
      rw is (manager_back apply has_pipeline w p at (back p e))
  after_manager-Returns apply w (some x, p) is at (back, stay) e =
      ap (λ q. record w { processes = q }) (stay p x e)

  with_manager-Returns :
      (m : Option (List PluginSpec → P → Option ReloadError × P)) (w : PluginWorld P)
      → manager ≡ m
      → IsPrev has_pipeline w
      → GoesBack m w.processes
      → Returns w (with_manager m w)
  with_manager-Returns none w is at back =
      rw is (ap (λ (v : PluginWorld P). (none, v)) (pipeline_back has_pipeline w at))
  with_manager-Returns (some apply) w is at back =
      after_manager-Returns apply w (apply next_plugins w.processes) is at back refl

  -- The step `plugins` is undone by its rollback, and a failure of it leaves nothing behind, when the
  -- engine is that of the plugins before and the manager can be led back to them.
  pub plugins_step-Undoable :
      (w : PluginWorld P) (steps : List (Step (PluginWorld P)))
      → IsPrev has_pipeline w
      → GoesBack manager w.processes
      → ((t : PluginWorld P) → plugins_step.apply w ≡ (none, t) → Undoable steps t)
      → Undoable (plugins_step ∷ steps) w
  unfolding plugins_step
  plugins_step-Undoable w steps at back later = (
    λ t e is. subst (Returns w) is (with_manager-Returns manager w refl at back),
    λ t is. (subst (Returns w) is (with_manager-Returns manager w refl at back), later t is),
  )
