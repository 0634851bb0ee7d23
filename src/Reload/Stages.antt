-- ===== src/Reload/Stages.antt =====
-- internal/app/controlplane/reload/transaction.go and errors.go: the error of a reload names the stage.
use mathlib.Core.List.{Memᴰ}
use mathlib.Core.List.Memᴰ.{head, tail}
use mcpv.Base.{◌≡◌, refl, ap, inl, inr, String, Option, none, some, List, [], ◌∷◌, Option-cases}
use mcpv.Reload.{
  Step, ReloadError, apply_steps, rollback_steps, after_apply, rolled_back, wrap_stage, find_stage,
  joined, at_stage,
}

-- The stage of `wrap_stage`: that of the error if it has one.
abbrev pub stage_or : String → Option String → String
stage_or name none = name
stage_or name (some stage) = stage

staged : (stage : String) (x : ReloadError) → find_stage (at_stage stage x) ≡ some stage
unfolding find_stage
staged stage x = refl

wrap_stage-stage :
    (name : String) (e : ReloadError)
    → find_stage (wrap_stage name e) ≡ some (stage_or name (find_stage e))
unfolding wrap_stage
wrap_stage-stage name e = elim (Option-cases (find_stage e)) [
  | inl n ↦ rw n (staged name e)
  | inr (stage, f) ↦ rw f f
]

joined-stage :
    (e f : ReloadError) (stage : String)
    → find_stage e ≡ some stage
    → find_stage (joined e f) ≡ some stage
unfolding find_stage
joined-stage e f stage h = rw h refl

module _ {S : Type 0} where
  -- The error comes from one of the steps, whose own error it names the stage of, or its name.
  abbrev pub FromStep : List (Step S) → Option ReloadError → Type 0
  FromStep steps none = Unit {0}
  FromStep steps (some err) =
      (step : Step S) × Memᴰ step steps
      × (s : S) × (e : ReloadError) × ((step.apply s).0 ≡ some e)
      × (find_stage err ≡ some (stage_or step.name (find_stage e)))

  FromStep-tail :
      (step : Step S) (steps : List (Step S)) (o : Option ReloadError)
      → FromStep steps o
      → FromStep (step ∷ steps) o
  FromStep-tail step steps none f = tt
  FromStep-tail step steps (some err) (st, m, s, e, a, b) = (st, tail m, s, e, a, b)

  rolled_back-FromStep :
      (step : Step S) (steps : List (Step S)) (s : S) (e : ReloadError) (r : Option ReloadError × S)
      → (step.apply s).0 ≡ some e
      → FromStep (step ∷ steps) (rolled_back (wrap_stage step.name e) r).0
  rolled_back-FromStep step steps s e (none, t) h =
      (step, head refl, s, e, h, wrap_stage-stage step.name e)
  rolled_back-FromStep step steps s e (some x, t) h =
      (step, head refl, s, e, h, joined-stage _ _ _ (wrap_stage-stage step.name e))

  after_apply-FromStep :
      (step : Step S) (steps applied : List (Step S)) (s : S) (next : S → Option ReloadError × S)
      (r : Option ReloadError × S)
      → ((t : S) → FromStep steps (next t).0)
      → step.apply s ≡ r
      → FromStep (step ∷ steps) (after_apply step.name applied next r).0
  after_apply-FromStep step steps applied s next (none, t) later h =
      FromStep-tail step steps _ (later t)
  after_apply-FromStep step steps applied s next (some e, t) later h =
      rolled_back-FromStep step steps s e (rollback_steps applied none t)
        (ap (λ (q : Option ReloadError × S). q.0) h)

  -- The error of a reload that fails comes from one of its steps, and `errors.As` finds in it the stage
  -- that the error of this step names, or else the name of the step, also when the rollback fails too.
  pub apply_steps-FromStep :
      (steps applied : List (Step S)) (s : S) → FromStep steps (apply_steps steps applied s).0
  unfolding apply_steps
  apply_steps-FromStep [] applied s = tt
  apply_steps-FromStep (step ∷ steps) applied s =
      after_apply-FromStep step steps applied s (λ t. apply_steps steps (step ∷ applied) t)
        (step.apply s) (λ t. apply_steps-FromStep steps (step ∷ applied) t) refl
