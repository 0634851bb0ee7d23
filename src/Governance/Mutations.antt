-- ===== src/Governance/Mutations.antt =====
-- internal/infra/pipeline/engine.go and internal/infra/governance/policy.go: what becomes of the changes
-- that content plugins make.
use mcpv.Base.{
  ◌≡◌, ◌≢◌, refl, subst, ap, inl, inr, String, true, false, List, [], ◌∷◌, str_eq, Result, ok, err,
  Bool-cases, Option, none, some, ◌&&◌, not,
}
use mcpv.Domain.Plugin.{PluginCategory, PluginFlow, PluginSpec, observability, request, response}
use mcpv.Governance.{GovernanceRequest, GovernanceDecision, Failure, go_on, Handler}
use mcpv.Governance.Engine.{
  Engine, handle_request, run_categories, run_sequential, run_observability, judged, onward,
  unless_sent, Passage, flow_allowed, rejected, same_category, should_ignore_optional_rejection,
  with_flow, category_order,
}
use mcpv.Governance.Chain.{
  Policy, execute, pipeline_policy, run_requests, run_responses, turn, after_next, after_requests,
  after_responses, passes, with_request, with_response, handle_rejection,
}

-- A decision that continues is the one without changes.
abbrev pub IsPlain : Result Failure GovernanceDecision → Type 0
IsPlain (err e) = Unit {0}
IsPlain (ok d) = d.continues ≡ true → d ≡ go_on

judged-IsPlain :
    (c : PluginCategory) (p : PluginSpec) (req : GovernanceRequest)
    (next : GovernanceRequest → Passage) (a : Result Failure GovernanceDecision)
    → ((r : GovernanceRequest) → IsPlain (next r).1)
    → IsPlain (judged c p req next a).1
unfolding rejected
judged-IsPlain c p req next (err e) all = elim (Bool-cases p.required) [
  | inl t ↦ rw t tt
  | inr t ↦ rw t (all req)
]
judged-IsPlain c p req next (ok d) all = elim (Bool-cases d.continues) [
  | inl t ↦ rw t (all _)
  | inr t ↦ elim (Bool-cases (not p.required && should_ignore_optional_rejection c)) [
    | inl u ↦ rw (t, u) (all req)
    | inr u ↦ rw (t, u) (λ bad. absurd (cc))
  ]
]

run_sequential-IsPlain :
    (handle : Handler) (c : PluginCategory) (ps : List PluginSpec) (req : GovernanceRequest)
    (flow : PluginFlow)
    → IsPlain (run_sequential handle c ps req flow).1
unfolding run_sequential
run_sequential-IsPlain handle c [] req flow = λ _. refl
run_sequential-IsPlain handle c (p ∷ ps) req flow = elim (Bool-cases (flow_allowed p flow)) [
  | inl t ↦ rw t (
      judged-IsPlain c p req (λ r. run_sequential handle c ps r flow) (handle p req)
        (λ r. run_sequential-IsPlain handle c ps r flow))
  | inr t ↦ rw t (run_sequential-IsPlain handle c ps req flow)
]

onward-IsPlain :
    (o : Passage) (next : GovernanceRequest → Result Failure GovernanceDecision)
    → IsPlain o.1
    → ((r : GovernanceRequest) → IsPlain (next r))
    → IsPlain (onward o next)
onward-IsPlain (req, err e) next p all = tt
onward-IsPlain (req, ok d) next p all = elim (Bool-cases d.continues) [
  | inl t ↦ rw t (all req)
  | inr t ↦ rw t (λ bad. absurd (cc))
]

unless_sent-IsPlain :
    (o : Option Failure) (r : Result Failure GovernanceDecision)
    → IsPlain r
    → IsPlain (unless_sent o r)
unless_sent-IsPlain none r p = p
unless_sent-IsPlain (some e) r p = tt

module _ (handle : Handler) (order : List PluginSpec → List PluginSpec) where
  run_categories-IsPlain :
      (by : PluginCategory → List PluginSpec) (cs : List PluginCategory) (req : GovernanceRequest)
      → IsPlain (run_categories handle order by cs req)
  unfolding run_categories
  run_categories-IsPlain by [] req = λ _. refl
  run_categories-IsPlain by (c ∷ cs) req =
      let rest : (r : GovernanceRequest) → IsPlain (run_categories handle order by cs r) =
        λ r. run_categories-IsPlain by cs r in
      elim (Bool-cases (same_category c observability)) [
        | inl t ↦ rw t (
            unless_sent-IsPlain (run_observability handle (order (by c)) req)
              (run_categories handle order by cs req) (rest req))
        | inr t ↦ rw t (
            onward-IsPlain (run_sequential handle c (by c) req req.flow)
              (λ r. run_categories handle order by cs r)
              (run_sequential-IsPlain handle c (by c) req req.flow) rest)
      ]

  -- When the pipeline lets a call go on, its decision has neither a new request nor a new response in
  -- it, whatever the content plugins answered.
  pub handle_request-IsPlain :
      (e : Engine) (req : GovernanceRequest) → IsPlain (handle_request handle order e req)
  unfolding handle_request
  handle_request-IsPlain e req = run_categories-IsPlain e.by_category category_order (with_flow req)

module _ (encode_result : String → String → Result Failure String) where
  rejection-fails :
      (req : GovernanceRequest) (d : GovernanceDecision) (resp : String)
      → str_eq req.method "tools/call" ≡ false
      → handle_rejection encode_result req d ≢ ok resp
  unfolding handle_rejection
  rejection-fails req d resp other = rw other (λ bad. absurd (cc))

  request_let_through :
      (ps : List Policy) (req : GovernanceRequest)
      (next : GovernanceRequest → Result Failure String) (resp : String)
      (a : Result Failure GovernanceDecision)
      → IsPlain a
      → str_eq req.method "tools/call" ≡ false
      → after_requests encode_result ps req next (turn (with_request req) (λ d w. passes d w) a)
        ≡ ok resp
      → after_next encode_result ps req req (next req) ≡ ok resp
  unfolding handle_rejection
  request_let_through ps req next resp (err e) plain other = λ h. absurd (cc)
  request_let_through ps req next resp (ok d) plain other = elim (Bool-cases d.continues) [
    | inl t ↦ rw t (
        subst (λ (w : GovernanceRequest). after_next encode_result ps req w (next w) ≡ ok resp)
          (ap (λ (x : GovernanceDecision). with_request req x) (plain t)))
    | inr t ↦ rw t (λ h. absurd (rejection-fails req d resp other h))
  ]

  response_let_through :
      (req : GovernanceRequest) (r resp : String) (a : Result Failure GovernanceDecision)
      → IsPlain a
      → str_eq req.method "tools/call" ≡ false
      → after_responses encode_result req
          (turn (with_response (record req { response_json = r })) (λ d w. passes d w) a)
        ≡ ok resp
      → ◌≡◌ {A = Result Failure String} (ok r) (ok resp)
  unfolding handle_rejection
  response_let_through req r resp (err e) plain other = λ h. absurd (cc)
  response_let_through req r resp (ok d) plain other = elim (Bool-cases d.continues) [
    | inl t ↦ rw t (
        subst
          (λ (w : GovernanceRequest).
            ◌≡◌ {A = Result Failure String} (ok w.response_json) (ok resp))
          (ap (λ (x : GovernanceDecision). with_response (record req { response_json = r }) x)
            (plain t)))
    | inr t ↦ rw t (λ h. absurd (rejection-fails req d resp other h))
  ]

  served_unchanged :
      (p : Policy) (req : GovernanceRequest) (resp : String) (o : Result Failure String)
      → ((r : GovernanceRequest) → IsPlain (p.on_response r))
      → str_eq req.method "tools/call" ≡ false
      → after_next encode_result (p ∷ []) req req o ≡ ok resp
      → o ≡ ok resp
  unfolding run_responses
  served_unchanged p req resp (err e) plain other h = absurd (cc)
  served_unchanged p req resp (ok r) plain other h =
      response_let_through req r resp _ (plain (record req { response_json = r })) other h

  -- With the pipeline as its policy, `Execute` of a call other than tools/call returns a
  -- response only if the server gave that very response to the original request, whatever the
  -- content plugins put in place of either.
  pub execute-unchanged :
      (handle : Handler) (order : List PluginSpec → List PluginSpec) (e : Engine)
      (req : GovernanceRequest) (next : GovernanceRequest → Result Failure String) (resp : String)
      → str_eq req.method "tools/call" ≡ false
      → execute encode_result (pipeline_policy handle order e ∷ []) req next ≡ ok resp
      → next req ≡ ok resp
  unfolding execute pipeline_policy run_requests
  execute-unchanged handle order e req next resp other h =
      let p = pipeline_policy handle order e in
      served_unchanged p req resp (next req)
        (λ r. handle_request-IsPlain handle order e (record r { flow = response })) other
        (request_let_through (p ∷ []) req next resp (p.on_request req)
          (handle_request-IsPlain handle order e (record req { flow = request })) other h)
