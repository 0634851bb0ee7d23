-- ===== src/Governance/Passing.antt =====
-- internal/infra/pipeline/engine.go: which plugins a call that goes on has passed.
use mathlib.Core.List.{Memᴰ}
use mathlib.Core.List.Memᴰ.{head, tail}
use mcpv.Base.{
  arith, ◌≡◌, refl, sym, subst, inl, inr, true, List, false, [], ◌∷◌, ◌++◌, Result, ok, err,
  Bool-cases, Option, none, some, ◌&&◌, not,
}
use mcpv.Domain.Plugin.{
  authentication, authorization, rate_limiting, validation, audit, content, PluginCategory,
  PluginFlow, PluginSpec, observability,
}
use mcpv.Governance.{GovernanceRequest, GovernanceDecision, Failure, Handler}
use mcpv.Governance.Engine.{
  apply_mutations, update, in_category, handle_request, run_categories, run_sequential, onward,
  unless_sent, Passage, flow_allowed, same_category, with_flow, category_order,
}
use mcpv.Governance.Gates.{
  Variant, as_sent, replaced, LetsPass, Asked, AllAsked, Opens, run_sequential-Through,
  run_observability-asks,
}
use mcpv.Governance.Placed.{in_category-has, content-changers}

onward-Opens :
    (o : Passage) (next : GovernanceRequest → Result Failure GovernanceDecision)
    → Opens (onward o next)
    → Opens o.1 × Opens (next o.0)
onward-Opens (req, err e) next = λ bad. absurd bad
onward-Opens (req, ok d) next = elim (Bool-cases d.continues) [
  | inl t ↦ rw t (λ o. (refl, o))
  | inr t ↦ rw t (λ bad. absurd (cc))
]

unless_sent-Opens :
    (o : Option Failure) (next : Result Failure GovernanceDecision)
    → Opens (unless_sent o next)
    → (o ≡ none) × Opens next
unless_sent-Opens none next h = (refl, h)
unless_sent-Opens (some e) next h = absurd h

same_flow :
    (handle : Handler) (changers : List PluginSpec) (base req : GovernanceRequest)
    → Variant handle changers base req
    → req.flow ≡ base.flow
unfolding apply_mutations
same_flow handle changers base req as_sent = refl
same_flow handle changers base req (replaced {req = before} p d m v said go) =
    same_flow handle changers base before v

module _ (handle : Handler) (order : List PluginSpec → List PluginSpec)
    (all : (ps : List PluginSpec) (p : PluginSpec) → Memᴰ p ps → Memᴰ p (order ps))
    (by : PluginCategory → List PluginSpec) (changers : List PluginSpec)
    (base : GovernanceRequest) where
  -- What the plugins of content among these categories are.
  abbrev Changes : List PluginCategory → Type 0
  Changes cs =
      (c : PluginCategory)
      → Memᴰ c cs
      → same_category c content ≡ true
      → (p : PluginSpec) → Memᴰ p (by c)
      → Memᴰ p changers

  EachAsked : List PluginCategory → Type 0
  EachAsked cs = (c : PluginCategory) → Memᴰ c cs → AllAsked handle changers base c base.flow (by c)

  each-cons :
      (c : PluginCategory) (cs : List PluginCategory)
      → AllAsked handle changers base c base.flow (by c)
      → EachAsked cs
      → EachAsked (c ∷ cs)
  unfolding EachAsked
  each-cons c cs first rest d (head e) =
      subst (λ (x : PluginCategory). AllAsked handle changers base x base.flow (by x)) (sym e) first
  each-cons c cs first rest d (tail m) = rest d m

  run_categories-asks :
      (cs : List PluginCategory) (req : GovernanceRequest)
      → Changes cs
      → Variant handle changers base req
      → Opens (run_categories handle order by cs req)
      → EachAsked cs
  unfolding run_categories EachAsked
  run_categories-asks [] req changer v = λ o c m. elim m [ ]
  run_categories-asks (c ∷ cs) req changer v = elim (Bool-cases (same_category c observability)) [
    | inl t ↦ rw t (λ o.
        let (quiet, later) = unless_sent-Opens _ (run_categories handle order by cs req) o in
        let asked = run_observability-asks handle changers base c (order (by c)) req t v quiet in
        each-cons c cs
          (λ p m f. asked p (all (by c) p m) (
            subst (λ (x : PluginFlow). flow_allowed p x ≡ true)
              (sym (same_flow handle changers base req v)) f))
          (run_categories-asks cs req (λ d m. changer d (tail m)) v later))
    | inr t ↦ rw t (λ o.
        let (passed, later) =
          onward-Opens (run_sequential handle c (by c) req req.flow)
            (λ r. run_categories handle order by cs r) o in
        let (v', asked) =
          run_sequential-Through handle changers base c (by c) req req.flow (changer c (head refl))
            v passed in
        each-cons c cs
          (λ p m f. asked p m (
            subst (λ (x : PluginFlow). flow_allowed p x ≡ true)
              (sym (same_flow handle changers base req v)) f))
          (run_categories-asks cs _ (λ d m. changer d (tail m)) v' later))
  ]

unless_sent-opened :
    (o : Option Failure) (next : Result Failure GovernanceDecision)
    → o ≡ none
    → Opens next
    → Opens (unless_sent o next)
unless_sent-opened none next e h = h
unless_sent-opened (some x) next e h = absurd (cc)

onward-opened :
    (o : Passage) (next : GovernanceRequest → Result Failure GovernanceDecision)
    → Opens o.1
    → Opens (next o.0)
    → Opens (onward o next)
onward-opened (req, err e) next bad h = absurd bad
onward-opened (req, ok d) next go h = rw go h

-- A call that passes all the categories passes the first ones.
run_categories-first :
    (handle : Handler) (order : List PluginSpec → List PluginSpec)
    (by : PluginCategory → List PluginSpec) (cs ds : List PluginCategory) (req : GovernanceRequest)
    → Opens (run_categories handle order by (cs ++ ds) req)
    → Opens (run_categories handle order by cs req)
unfolding run_categories
run_categories-first handle order by [] ds req = λ o. refl
run_categories-first handle order by (c ∷ cs) ds req =
    elim (Bool-cases (same_category c observability)) [
      | inl t ↦ rw t (λ o.
          let (quiet, later) =
            unless_sent-Opens _ (run_categories handle order by (cs ++ ds) req) o in
          unless_sent-opened _ _ quiet (run_categories-first handle order by cs ds req later))
      | inr t ↦ rw t (λ o.
          let (passed, later) =
            onward-Opens (run_sequential handle c (by c) req req.flow)
              (λ r. run_categories handle order by (cs ++ ds) r) o in
          onward-opened (run_sequential handle c (by c) req req.flow)
            (λ r. run_categories handle order by cs r) passed
            (run_categories-first handle order by cs ds _ later))
    ]

as_sent-eq :
    (handle : Handler) (base req : GovernanceRequest) → Variant handle [] base req → req ≡ base
as_sent-eq handle base req as_sent = refl
as_sent-eq handle base req (replaced p d m v said go) = elim m [ ]

-- The categories that come before content.
abbrev pub before_content : List PluginCategory
before_content = observability ∷ authentication ∷ authorization ∷ rate_limiting ∷ validation ∷ []

apart_head :
    (c d : PluginCategory)
    → c ≡ d
    → same_category d content ≡ false
    → same_category c content ≡ false
apart_head c d e h = subst (λ (x : PluginCategory). same_category x content ≡ false) (sym e) h

early_apart : (c : PluginCategory) → Memᴰ c before_content → same_category c content ≡ false
early_apart c (head e) = apart_head c observability e refl
early_apart c (tail (head e)) = apart_head c authentication e refl
early_apart c (tail (tail (head e))) = apart_head c authorization e refl
early_apart c (tail (tail (tail (head e)))) = apart_head c rate_limiting e refl
early_apart c (tail (tail (tail (tail (head e))))) = apart_head c validation e refl
early_apart c (tail (tail (tail (tail (tail m))))) = elim m [ ]

-- When the pipeline lets a call go on, then every enabled plugin of the seven categories that takes part
-- in the flow of the call was asked about it and let it pass: it continued, or it is optional and either
-- failed or has the category observability. The request that it was asked about is the call as it was
-- sent, or, for a category from content on, with the bodies that enabled content plugins have put in
-- place of those before, each in its answer, with which it continued, to such a request. (The
-- observability plugins may finish in any order.)
pub handle_request-asks :
    (handle : Handler) (order : List PluginSpec → List PluginSpec) (specs : List PluginSpec)
    (req : GovernanceRequest) (c : PluginCategory) (p : PluginSpec)
    → ((ps : List PluginSpec) (q : PluginSpec) → Memᴰ q ps → Memᴰ q (order ps))
    → Opens (handle_request handle order (update specs) req)
    → Memᴰ p specs
    → Memᴰ c category_order
    → (not p.disabled && same_category p.category c) ≡ true
    → flow_allowed p (with_flow req).flow ≡ true
    → Asked handle (in_category content specs) (with_flow req) c p
      × (Memᴰ c before_content → LetsPass c p (handle p (with_flow req)))
unfolding handle_request update EachAsked
handle_request-asks handle order specs req c p all o m known on f =
    let base = with_flow req in
    let by : PluginCategory → List PluginSpec = λ d. in_category d specs in
    (
      run_categories-asks handle order all by (in_category content specs) base category_order base
          (λ d _. content-changers specs d) as_sent o c known p (in_category-has c p specs m on) f,
      λ early.
          let first =
            run_categories-first handle order by before_content (content ∷ audit ∷ []) base o in
          let (seen, v, passes) =
            run_categories-asks handle order all by [] base before_content base
              (λ d k same. absurd (ground (arith, early_apart d k, same))) as_sent first c early p
              (in_category-has c p specs m on) f in
          subst (λ r. LetsPass c p (handle p r)) (as_sent-eq handle base seen v) passes,
    )
