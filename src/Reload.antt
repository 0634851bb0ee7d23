-- ===== src/Reload.antt =====
-- internal/app/controlplane/reload/transaction.go, step.go, errors.go and mode.go: the steps of a reload of
-- the configuration, undone in reverse order when one of them fails. The observer and the log are left out.
pub mod Plugins
pub mod Rollback
pub mod Stages
use mcpv.Base.{
  String, Bool, true, false, not, Option, none, some, List, [], ◌∷◌, if◌then◌else◌, str_eq, is_some,
}
use mcpv.Domain.Errors.{Fault}

-- `at_stage` is `ApplyError`; `joined` is `errors.Join` of two errors. The join of one error alone has no
-- constructor, since `errors.As` looks through it.
pub data ReloadError : Type 0 where
  failed : Fault → ReloadError
  at_stage : String → ReloadError → ReloadError
  joined : ReloadError → ReloadError → ReloadError

abbrev pub or_else : Option String → Option String → Option String
or_else none rest = rest
or_else (some stage) rest = some stage

-- `errors.As` for `ApplyError`: the stage of the first one.
unfoldable pub find_stage : ReloadError → Option String
find_stage (failed e) = none
find_stage (at_stage stage e) = some stage
find_stage (joined e f) = let later = find_stage f in or_else (find_stage e) later

unfoldable pub wrap_stage : String → ReloadError → ReloadError
unfolding find_stage
wrap_stage stage e = if is_some (find_stage e) then e else at_stage stage e

abbrev pub known_stage : Option String → String
known_stage none = "unknown"
known_stage (some stage) = if str_eq stage "" then "unknown" else stage

unfoldable pub failure_stage : ReloadError → String
unfolding find_stage
failure_stage e = known_stage (find_stage e)

-- `errors.Join` of the errors so far and another one.
abbrev pub join : Option ReloadError → ReloadError → ReloadError
join none e = e
join (some before) e = joined before e

abbrev pub add_error : Option ReloadError → Option ReloadError → Option ReloadError
add_error errors none = errors
add_error errors (some e) = some (join errors e)

-- `ResolveMode`, with the default for the empty mode.
abbrev pub resolve_mode : String → String
resolve_mode mode = if str_eq mode "" then "lenient" else mode

-- What a step does to the state of the application. A step without rollback has `none` there.
pub record Step (S : Type 0) : Type 0 where
  pub name : String
  pub apply : S → Option ReloadError × S
  pub rollback : Option (S → Option ReloadError × S)

module _ {S : Type 0} where
  abbrev pub roll : Option (S → Option ReloadError × S) → S → Option ReloadError × S
  roll none s = (none, s)
  roll (some f) s = f s

  -- `rollbackSteps`, with the steps in the order in which they are undone and the errors so far.
  unfoldable pub rollback_steps : List (Step S) → Option ReloadError → S → Option ReloadError × S
  rollback_steps [] errors s = (errors, s)
  rollback_steps (step ∷ steps) errors s =
      let (e, t) = roll step.rollback s in rollback_steps steps (add_error errors e) t

  abbrev pub rolled_back : ReloadError → Option ReloadError × S → Option ReloadError × S
  rolled_back apply_err (none, s) = (some apply_err, s)
  rolled_back apply_err (some e, s) = (some (joined apply_err (wrap_stage "rollback" e)), s)

  abbrev pub after_apply :
      String
      → List (Step S)
      → (S → Option ReloadError × S)
      → Option ReloadError × S
      → Option ReloadError × S
  after_apply name applied next (none, s) = next s
  after_apply name applied next (some e, s) =
      rolled_back (wrap_stage name e) (rollback_steps applied none s)

  -- `Transaction.Apply`; `applied` has the steps that were applied, the last one first.
  unfoldable pub apply_steps : List (Step S) → List (Step S) → S → Option ReloadError × S
  unfolding rollback_steps wrap_stage
  apply_steps [] applied s = (none, s)
  apply_steps (step ∷ steps) applied s =
      after_apply step.name applied (λ t. apply_steps steps (step ∷ applied) t) (step.apply s)
