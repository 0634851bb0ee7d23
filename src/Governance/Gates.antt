-- ===== src/Governance/Gates.antt =====
-- internal/infra/pipeline/engine.go: no plugin is passed over when a call goes on.
use mathlib.Core.List.{Memᴰ}
use mathlib.Core.List.Memᴰ.{head, tail}
use mcpv.Base.{
  ◌≡◌, refl, sym, subst, ◌⊎◌, inl, inr, true, false, List, [], ◌∷◌, Result, ok, err, Bool-cases,
  Option, none, some,
}
use mcpv.Domain.Plugin.{PluginCategory, PluginFlow, PluginSpec, content}
use mcpv.Governance.{GovernanceRequest, GovernanceDecision, Failure, Handler}
use mcpv.Governance.Engine.{
  run_sequential, run_observability, judged, sends, or_first, Passage, flow_allowed, rejected,
  same_category, should_ignore_optional_rejection, apply_mutations,
}

-- An answer that lets the call go on: it continues, or the plugin is optional and either failed or
-- rejected a call that its category only watches.
abbrev pub LetsPass : PluginCategory → PluginSpec → Result Failure GovernanceDecision → Type 0
LetsPass c p (err e) = p.required ≡ false
LetsPass c p (ok d) =
    (d.continues ≡ true) ⊎ ((p.required ≡ false) × (should_ignore_optional_rejection c ≡ true))

-- The call as a plugin may see it: as it was sent, or with the bodies that plugins of the list have put in
-- place of those before, each in its answer to such a call.
pub data Variant (handle : Handler) (changers : List PluginSpec) (base : GovernanceRequest)
    : GovernanceRequest → Type 0 where
  as_sent : Variant handle changers base base
  replaced :
      {req : GovernanceRequest} (p : PluginSpec) (d : GovernanceDecision)
      → Memᴰ p changers
      → Variant handle changers base req
      → handle p req ≡ ok d
      → d.continues ≡ true
      → Variant handle changers base (apply_mutations req d)

-- The plugin was asked about the call, and let it pass.
abbrev pub Asked :
    Handler → List PluginSpec → GovernanceRequest → PluginCategory → PluginSpec → Type 0
Asked handle changers base c p =
    (req : GovernanceRequest) × Variant handle changers base req × LetsPass c p (handle p req)

abbrev pub Opens : Result Failure GovernanceDecision → Type 0
Opens (err e) = ⊥
Opens (ok d) = d.continues ≡ true

-- The loop went past the plugin, with some variant of the call.
abbrev Past :
    Handler → List PluginSpec → GovernanceRequest → (GovernanceRequest → Passage) → Passage → Type 0
Past handle changers base next o =
    (req : GovernanceRequest) × Variant handle changers base req × (o ≡ next req)

judged-Past :
    (handle : Handler) (changers : List PluginSpec) (c : PluginCategory) (p : PluginSpec)
    (base req : GovernanceRequest) (next : GovernanceRequest → Passage)
    (a : Result Failure GovernanceDecision)
    → (same_category c content ≡ true → Memᴰ p changers)
    → Variant handle changers base req
    → handle p req ≡ a
    → Opens (judged c p req next a).1
    → LetsPass c p a × Past handle changers base next (judged c p req next a)
unfolding rejected apply_mutations
judged-Past handle changers c p base req next (err e) changer v said =
    elim (Bool-cases p.required) [
      | inl t ↦ rw t (λ bad. absurd bad)
      | inr t ↦ rw t (λ o. (refl, (req, v, refl)))
    ]
judged-Past handle changers c p base req next (ok d) changer v said =
    elim (Bool-cases d.continues) [
      | inl t ↦ elim (Bool-cases (same_category c content)) [
        | inl u ↦ rw (t, u) (λ o. (inl refl, (_, replaced p d (changer u) v said t, refl)))
        | inr u ↦ rw (t, u) (λ o. (inl refl, (req, v, refl)))
      ]
      | inr t ↦ elim (Bool-cases p.required) [
        | inl u ↦ rw (t, u) (λ o. absurd (cc))
        | inr u ↦ elim (Bool-cases (should_ignore_optional_rejection c)) [
          | inl w ↦ rw (t, u, w) (λ o. (inr (refl, refl), (req, v, refl)))
          | inr w ↦ rw (t, u, w) (λ o. absurd (cc))
        ]
      ]
    ]

each-cons :
    (P : PluginSpec → Type 0) (q : PluginSpec) (ps : List PluginSpec)
    → P q
    → ((p : PluginSpec) → Memᴰ p ps → P p)
    → (p : PluginSpec) → Memᴰ p (q ∷ ps)
    → P p
each-cons P q ps first rest p (head e) = subst P (sym e) first
each-cons P q ps first rest p (tail m) = rest p m

module _ (handle : Handler) (changers : List PluginSpec) (base : GovernanceRequest) where
  -- Each plugin of the list that takes part in the flow was asked.
  abbrev pub AllAsked : PluginCategory → PluginFlow → List PluginSpec → Type 0
  AllAsked c flow ps =
      (p : PluginSpec) → Memᴰ p ps → flow_allowed p flow ≡ true → Asked handle changers base c p

  pub none-asked : (c : PluginCategory) (flow : PluginFlow) → AllAsked c flow []
  none-asked c flow p m = elim m [ ]

  abbrev pub Through : PluginCategory → PluginFlow → List PluginSpec → Passage → Type 0
  Through c flow ps o = Opens o.1 → Variant handle changers base o.0 × AllAsked c flow ps

  asked-Through :
      (c : PluginCategory) (flow : PluginFlow) (p : PluginSpec) (ps : List PluginSpec)
      (req : GovernanceRequest) (next : GovernanceRequest → Passage)
      → (same_category c content ≡ true → Memᴰ p changers)
      → Variant handle changers base req
      → ((r : GovernanceRequest) → Variant handle changers base r → Through c flow ps (next r))
      → Through c flow (p ∷ ps) (judged c p req next (handle p req))
  asked-Through c flow p ps req next changer v rest o =
      let (pass, (r, w, e)) =
        judged-Past handle changers c p base req next (handle p req) changer v refl o in
      let (x, all) = rest r w (subst (λ (q : Passage). Opens q.1) e o) in
      (
        subst (λ (q : Passage). Variant handle changers base q.0) (sym e) x,
        each-cons (λ q. flow_allowed q flow ≡ true → Asked handle changers base c q) p ps
            (λ _. (req, v, pass)) all,
      )

  pub run_sequential-Through :
      (c : PluginCategory) (ps : List PluginSpec) (req : GovernanceRequest) (flow : PluginFlow)
      → (same_category c content ≡ true → (p : PluginSpec) → Memᴰ p ps → Memᴰ p changers)
      → Variant handle changers base req
      → Through c flow ps (run_sequential handle c ps req flow)
  unfolding run_sequential
  run_sequential-Through c [] req flow changer v = λ o. (v, none-asked c flow)
  run_sequential-Through c (p ∷ ps) req flow changer v = elim (Bool-cases (flow_allowed p flow)) [
    | inl t ↦ rw t (
        asked-Through c flow p ps req (λ r. run_sequential handle c ps r flow)
          (λ u. changer u p (head refl)) v
          (λ r w. run_sequential-Through c ps r flow (λ u q m. changer u q (tail m)) w))
    | inr t ↦ rw t (λ o.
        let (x, all) = run_sequential-Through c ps req flow (λ u q m. changer u q (tail m)) v o in
        (
          x,
          each-cons (λ q. flow_allowed q flow ≡ true → Asked handle changers base c q) p ps
              (λ bad. absurd (cc)) all,
        ))
  ]

  sends-LetsPass :
      (p : PluginSpec) (c : PluginCategory) (a : Result Failure GovernanceDecision)
      → should_ignore_optional_rejection c ≡ true
      → sends p a ≡ none
      → LetsPass c p a
  sends-LetsPass p c (err e) watch = elim (Bool-cases p.required) [
    | inl t ↦ rw t (λ bad. absurd (cc))
    | inr t ↦ rw t (λ _. refl)
  ]
  sends-LetsPass p c (ok d) watch = elim (Bool-cases d.continues) [
    | inl t ↦ rw t (λ _. inl refl)
    | inr t ↦ elim (Bool-cases p.required) [
      | inl u ↦ rw (t, u) (λ bad. absurd (cc))
      | inr u ↦ rw (t, u) (λ _. inr (refl, watch))
    ]
  ]

  or_first-none : (o rest : Option Failure) → or_first o rest ≡ none → (o ≡ none) × (rest ≡ none)
  or_first-none none rest e = (refl, e)
  or_first-none (some x) rest e = absurd (cc)

  pub run_observability-asks :
      (c : PluginCategory) (ps : List PluginSpec) (req : GovernanceRequest)
      → should_ignore_optional_rejection c ≡ true
      → Variant handle changers base req
      → run_observability handle ps req ≡ none
      → AllAsked c req.flow ps
  unfolding run_observability
  run_observability-asks c [] req watch v = λ e. none-asked c req.flow
  run_observability-asks c (p ∷ ps) req watch v = elim (Bool-cases (flow_allowed p req.flow)) [
    | inl t ↦ rw t (λ e.
        let (quiet, later) = or_first-none _ _ e in
        each-cons (λ q. flow_allowed q req.flow ≡ true → Asked handle changers base c q) p ps
          (λ _. (req, v, sends-LetsPass p c (handle p req) watch quiet))
          (run_observability-asks c ps req watch v later))
    | inr t ↦ rw t (λ e.
        each-cons (λ q. flow_allowed q req.flow ≡ true → Asked handle changers base c q) p ps
          (λ bad. absurd (cc)) (run_observability-asks c ps req watch v e))
  ]
