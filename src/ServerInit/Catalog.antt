-- ===== src/ServerInit/Catalog.antt =====
-- internal/app/bootstrap/serverinit/manager.go: `ApplyCatalogState` and `Start`.
use mcpv.Base.{
  Bool, ℕ, ◌≡◌, refl, ◌∙◌, inl, inr, String, true, not, ◌&&◌, Option, none, some, List, [], ◌∷◌,
  if◌then◌else◌, ◌==◌, ltb, str_eq, eq_iff, is_some, lookup, insert, lookup-insert, keep_if, keys,
  Bool-cases, Option-cases, arith,
}
use mcpv.Domain.Spec.{ServerSpec, ActivationMode}
use mcpv.ServerInit.{
  InitManager, ServerInitStatus, pending_status, with_min_ready, baseline_min_ready,
  resolve_server_init_retry, target_of,
}

-- The status of a server of the new catalog.
abbrev pub catalog_status : ℕ → String → String → ℕ → Option ServerInitStatus → ServerInitStatus
catalog_status now key name n none = pending_status key name n now
catalog_status now key name n (some st) = with_min_ready now n (record st { server_name = name })

-- What the loop over the servers has come to: the keys added, those whose target was raised, and the manager.
abbrev pub Visited : Type 0
Visited = List String × List String × InitManager

unfoldable pub visit_spec : ℕ → ActivationMode → String → ServerSpec → Visited → Visited
unfolding baseline_min_ready target_of
visit_spec now mode key spec (added, activated, m) =
    let n = baseline_min_ready mode spec in
    (
      (if is_some (lookup key m.statuses) then added else key ∷ added),
      (if not (target_of key m == n) && ltb 0 n then key ∷ activated else activated),
      record m {
        statuses =
            insert key (catalog_status now key spec.name n (lookup key m.statuses)) m.statuses;
        targets = insert key n m.targets;
      },
    )

-- The servers in any order; a map has each key once.
unfoldable pub visit_specs : ℕ → ActivationMode → List (String × ServerSpec) → InitManager → Visited
unfolding visit_spec
visit_specs now mode [] m = ([], [], m)
visit_specs now mode ((key, spec) ∷ rest) m =
    visit_spec now mode key spec (visit_specs now mode rest m)

-- Whether the last loop deletes a key: it has a status, and the catalog has no server for it.
unfoldable pub is_dropped :
    List (String × ServerSpec) → List (String × ServerInitStatus) → String → Bool
is_dropped specs statuses key = is_some (lookup key statuses) && not (is_some (lookup key specs))

unfoldable pub without_dropped {ℓ} :
    {V : Type ℓ}
    → List (String × ServerSpec)
    → List (String × ServerInitStatus)
    → List (String × V)
    → List (String × V)
unfolding is_dropped
without_dropped specs statuses m = keep_if (λ e. not (is_dropped specs statuses e.0)) m

-- `ApplyCatalogState` under its lock, with the keys for which it goes on to `ensureWorker`.
unfoldable pub apply_catalog_state :
    ℕ → List (String × ServerSpec) → ActivationMode → ℕ → ℕ → Option ℕ → ℕ → InitManager → Visited
unfolding visit_specs without_dropped resolve_server_init_retry
apply_catalog_state now specs mode base max retries default_retries m =
    let (base', max', retries') = resolve_server_init_retry base max retries default_retries in
    let (added, activated, m') = visit_specs now mode specs m in
    (
      added,
      activated,
      record m' {
        specs = specs;
        default_mode = mode;
        retry_base = base';
        retry_max = max';
        max_retries = retries';
        statuses = without_dropped specs m'.statuses m'.statuses;
        targets = without_dropped specs m'.statuses m'.targets;
      },
    )

unfoldable pub start_specs :
    ℕ → ActivationMode → List (String × ServerSpec) → InitManager → InitManager
unfolding baseline_min_ready
start_specs now mode [] m = m
start_specs now mode ((key, spec) ∷ rest) m =
    let m' = start_specs now mode rest m in
    let n = baseline_min_ready mode spec in
    record m' {
      targets = insert key n m'.targets;
      statuses = insert key (pending_status key spec.name n now) m'.statuses;
    }

-- `Start`, with the keys for which it goes on to `ensureWorker`.
unfoldable pub start : ℕ → InitManager → List String × InitManager
unfolding start_specs
start now m =
    if m.started
    then ([], m)
    else (keys m.specs, record (start_specs now m.default_mode m.specs m) { started = true })

lookup-without_dropped {ℓ} :
    {V : Type ℓ} (key : String) (specs : List (String × ServerSpec))
    (statuses : List (String × ServerInitStatus)) (m : List (String × V))
    → lookup key (without_dropped specs statuses m)
      ≡ (if is_dropped specs statuses key then none else lookup key m)
unfolding without_dropped lookup
lookup-without_dropped key specs statuses [] = ground arith
lookup-without_dropped key specs statuses ((k, v) ∷ m) = elim (Bool-cases (str_eq k key)) [
  | inl e ↦
      let same : k ≡ key = ground (arith, eq_iff k key) in
      rw same (ground (arith, lookup-without_dropped key specs statuses m, eq_iff key key))
  | inr e ↦ ground (arith, lookup-without_dropped key specs statuses m)
]

-- A key with a target has a status.
unfoldable pub IsTracked : InitManager → Type 0
IsTracked m = (key : String) → lookup key m.statuses ≡ none → lookup key m.targets ≡ none

visit_spec-IsTracked :
    (now : ℕ) (mode : ActivationMode) (k : String) (spec : ServerSpec) (v : Visited)
    → IsTracked v.2
    → IsTracked (visit_spec now mode k spec v).2
unfolding visit_spec IsTracked
visit_spec-IsTracked now mode k spec (added, activated, m) tracked key =
    let n = baseline_min_ready mode spec in
    let st = catalog_status now k spec.name n (lookup k m.statuses) in
    let at = lookup-insert k key st m.statuses in
    let at' = lookup-insert k key n m.targets in
    elim (Bool-cases (str_eq k key)) [
      | inl e ↦ rw (at, at', e) (λ bad. absurd (cc))
      | inr e ↦ rw (at, at', e) (tracked key)
    ]

visit_specs-IsTracked :
    (now : ℕ) (mode : ActivationMode) (specs : List (String × ServerSpec)) (m : InitManager)
    → IsTracked m
    → IsTracked (visit_specs now mode specs m).2
unfolding visit_specs
visit_specs-IsTracked now mode [] m tracked = tracked
visit_specs-IsTracked now mode ((k, spec) ∷ rest) m tracked =
    visit_spec-IsTracked now mode k spec (visit_specs now mode rest m)
      (visit_specs-IsTracked now mode rest m tracked)

-- What the catalog asks of a key.
abbrev pub asked : ActivationMode → Option ServerSpec → ℕ
asked mode none = 0
asked mode (some spec) = baseline_min_ready mode spec

visit_spec-lookups :
    (now : ℕ) (mode : ActivationMode) (k key : String) (spec : ServerSpec) (v : Visited)
    → let m' = (visit_spec now mode k spec v).2 in
      (is_some (lookup key m'.statuses)
        ≡ (if str_eq k key then true else is_some (lookup key v.2.statuses)))
      × (target_of key m'
          ≡ (if str_eq k key then baseline_min_ready mode spec else target_of key v.2))
unfolding visit_spec target_of
visit_spec-lookups now mode k key spec (added, activated, m) =
    let n = baseline_min_ready mode spec in
    let st = catalog_status now k spec.name n (lookup k m.statuses) in
    (
      ground (arith, lookup-insert k key st m.statuses),
      ground (arith, lookup-insert k key n m.targets),
    )

visit_specs-target :
    (now : ℕ) (mode : ActivationMode) (key : String) (specs : List (String × ServerSpec))
    (m : InitManager)
    → is_some (lookup key specs) ≡ true
    → let m' = (visit_specs now mode specs m).2 in
      (is_some (lookup key m'.statuses) ≡ true) × (target_of key m' ≡ asked mode (lookup key specs))
unfolding visit_specs lookup
visit_specs-target now mode key [] m = λ bad. absurd (cc)
visit_specs-target now mode key ((k, spec) ∷ rest) m =
    let (st, target) = visit_spec-lookups now mode k key spec (visit_specs now mode rest m) in
    elim (Bool-cases (str_eq k key)) [
      | inl e ↦ rw e (λ _. (rw e at st, rw e at target))
      | inr e ↦ rw e (λ found.
          let (st', target') = visit_specs-target now mode key rest m found in
          ((rw e at st) ∙ st', (rw e at target) ∙ target'))
    ]

-- In a manager in which each key with a target has a status, after a new catalog was applied a key has a
-- status just if the catalog has a server for it, its target is what the catalog asks of this server, 0 if
-- it has none, and each key with a target still has a status.
pub apply_catalog_state-targets :
    (now : ℕ) (specs : List (String × ServerSpec)) (mode : ActivationMode) (base max : ℕ)
    (retries : Option ℕ) (default_retries : ℕ) (m : InitManager)
    → IsTracked m
    → let m' = (apply_catalog_state now specs mode base max retries default_retries m).2 in
      ((key : String)
        → (is_some (lookup key m'.statuses) ≡ is_some (lookup key specs))
          × (target_of key m' ≡ asked mode (lookup key specs)))
      × IsTracked m'
unfolding apply_catalog_state target_of IsTracked is_dropped
apply_catalog_state-targets now specs mode base max retries default_retries m tracked =
    let m' = (visit_specs now mode specs m).2 in
    let kept = visit_specs-IsTracked now mode specs m tracked in
    (
      λ key.
          let at = lookup-without_dropped key specs m'.statuses m'.statuses in
          let at' = lookup-without_dropped key specs m'.statuses m'.targets in
          elim (Option-cases (lookup key specs)) [
            | inl e ↦ elim (Option-cases (lookup key m'.statuses)) [
              | inl n ↦ (rw (at, e, n) refl, rw (at', e, n, kept key n) refl)
              | inr (st, n) ↦ (rw (at, e, n) refl, rw (at', e, n) refl)
            ]
            | inr (spec, e) ↦
                let (st, target) = visit_specs-target now mode key specs m (rw e refl) in
                (rw (at, e) (ground (arith, st)), rw (at', e) (ground (arith, target, e)))
          ],
      λ key gone.
          let at = lookup-without_dropped key specs m'.statuses m'.statuses in
          let at' = lookup-without_dropped key specs m'.statuses m'.targets in
          elim (Option-cases (lookup key m'.statuses)) [
            | inl n ↦ at' ∙ ground (arith, kept key n)
            | inr (st, n) ↦ at' ∙ ground (arith, at, gone, n)
          ],
    )
