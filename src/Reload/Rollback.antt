-- ===== src/Reload/Rollback.antt =====
-- internal/app/controlplane/reload/transaction.go: a reload that fails leaves nothing behind.
use mcpv.Base.{◌≡◌, refl, ap, ◌∙◌, Option, none, some, List, [], ◌∷◌}
use mcpv.Reload.{
  Step, ReloadError, apply_steps, rollback_steps, after_apply, rolled_back, roll, add_error,
  wrap_stage,
}

module _ {S : Type 0} where
  -- From the state `s` on, the rollback of each step that succeeds undoes what the step did, and a step
  -- that fails leaves the state as it was.
  abbrev pub Undoable : List (Step S) → S → Type 0
  Undoable [] s = Unit {0}
  Undoable (step ∷ steps) s =
      ((t : S) (e : ReloadError) → step.apply s ≡ (some e, t) → t ≡ s)
      × ((t : S) → step.apply s ≡ (none, t) → (roll step.rollback t ≡ (none, s)) × Undoable steps t)

  -- A failure leads back to the state `start`.
  abbrev pub Restores : S → Option ReloadError × S → Type 0
  Restores start (none, s) = Unit {0}
  Restores start (some e, s) = s ≡ start

  rolled_back-Restores :
      (start : S) (e : ReloadError) (r : Option ReloadError × S)
      → r ≡ (none, start)
      → Restores start (rolled_back e r)
  rolled_back-Restores start e (none, s) h = ap (λ (q : Option ReloadError × S). q.1) h
  rolled_back-Restores start e (some x, s) h = ap (λ (q : Option ReloadError × S). q.1) h

  rollback_again :
      (step : Step S) (steps : List (Step S)) (s t : S)
      → roll step.rollback t ≡ (none, s)
      → rollback_steps (step ∷ steps) none t ≡ rollback_steps steps none s
  unfolding rollback_steps
  rollback_again step steps s t h =
      ap (λ (q : Option ReloadError × S). rollback_steps steps (add_error none q.0) q.1) h

  after_apply-Restores :
      (start : S) (step : Step S) (applied : List (Step S)) (s : S)
      (next : S → Option ReloadError × S) (r : Option ReloadError × S)
      → ((t : S) (e : ReloadError) → step.apply s ≡ (some e, t) → t ≡ s)
      → rollback_steps applied none s ≡ (none, start)
      → ((t : S) → step.apply s ≡ (none, t) → Restores start (next t))
      → step.apply s ≡ r
      → Restores start (after_apply step.name applied next r)
  after_apply-Restores start step applied s next (none, t) clean back later e = later t e
  after_apply-Restores start step applied s next (some x, t) clean back later e =
      rolled_back-Restores start (wrap_stage step.name x) (rollback_steps applied none t)
        (ap (rollback_steps applied none) (clean t x e) ∙ back)

  later-Restores :
      (start : S) (steps applied : List (Step S)) (s : S)
      → Undoable steps s
      → rollback_steps applied none s ≡ (none, start)
      → Restores start (apply_steps steps applied s)
  unfolding apply_steps
  later-Restores start [] applied s good back = tt
  later-Restores start (step ∷ steps) applied s (clean, undoes) back =
      after_apply-Restores start step applied s (λ t. apply_steps steps (step ∷ applied) t)
        (step.apply s) clean back
        (λ t e.
          let (undone, later) = undoes t e in
          later-Restores start steps (step ∷ applied) t later
            (rollback_again step applied s t undone ∙ back))
        refl

  -- When the rollback of each step undoes the step, in the states that this reload goes through, and a
  -- step that fails leaves the state as it was, then a reload that fails at any step ends in the state
  -- it began with.
  pub apply_steps-Restores :
      (steps : List (Step S)) (s : S) → Undoable steps s → Restores s (apply_steps steps [] s)
  unfolding rollback_steps
  apply_steps-Restores steps s good = later-Restores s steps [] s good refl
