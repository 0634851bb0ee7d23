-- ===== src/Governance/Engine.antt =====
-- internal/infra/pipeline/engine.go: `Update` and `Handle`. The metrics and the log are left out. The
-- observability plugins run at the same time; `order` puts them in the order in which they finish.
use Prim.Native.Char.{Char, code}
use Prim.Native.String.{compare, [] as []ₛ, ◌∷◌ as ◌∷ₛ◌}
use text.Mathlib.Text.{is_le}
use mcpv.Base.{
  String, Bool, true, false, ◌&&◌, ◌||◌, not, Option, none, some, List, [], ◌∷◌, if◌then◌else◌,
  str_eq, leb, ◌==◌, Result, ok, err,
}
use mcpv.Domain.Plugin.{
  PluginCategory, PluginFlow, PluginSpec, observability, authentication, authorization,
  rate_limiting, validation, content, audit, other, request, response,
}
use mcpv.Governance.{GovernanceRequest, GovernanceDecision, Failure, rejection, go_on, Handler}

abbrev pub category_text : PluginCategory → String
category_text observability = "observability"
category_text authentication = "authentication"
category_text authorization = "authorization"
category_text rate_limiting = "rate_limiting"
category_text validation = "validation"
category_text content = "content"
category_text audit = "audit"
category_text (other text) = text

abbrev pub flow_text : PluginFlow → String
flow_text request = "request"
flow_text response = "response"
flow_text (other text) = text

abbrev pub same_category : PluginCategory → PluginCategory → Bool
same_category c d = str_eq (category_text c) (category_text d)

abbrev pub category_order : List PluginCategory
category_order =
    observability ∷ authentication ∷ authorization ∷ rate_limiting ∷ validation ∷ content ∷ audit
    ∷ []

-- The enabled plugins of a category by name; those of one name keep their order.
unfoldable pub place_by_name : PluginSpec → List PluginSpec → List PluginSpec
place_by_name p [] = p ∷ []
place_by_name p (q ∷ qs) =
    let later = place_by_name p qs in
    if is_le (compare p.name q.name) then p ∷ q ∷ qs else q ∷ later

unfoldable pub in_category : PluginCategory → List PluginSpec → List PluginSpec
unfolding place_by_name
in_category c [] = []
in_category c (p ∷ ps) =
    let rest = in_category c ps in
    if not p.disabled && same_category p.category c then place_by_name p rest else rest

pub record Engine : Type 0 where
  pub plugins : List PluginSpec
  pub by_category : PluginCategory → List PluginSpec

unfoldable pub update : List PluginSpec → Engine
unfolding in_category
update specs = record { plugins = specs; by_category = λ c. in_category c specs }

abbrev pub any_flow : List PluginFlow → PluginFlow → Bool
any_flow [] flow = false
any_flow (f ∷ fs) flow = str_eq (flow_text f) (flow_text flow) || any_flow fs flow

abbrev pub flow_among : Option (List PluginFlow) → PluginFlow → Bool
flow_among none flow = true
flow_among (some []) flow = true
flow_among (some (f ∷ fs)) flow = any_flow (f ∷ fs) flow

unfoldable pub flow_allowed : PluginSpec → PluginFlow → Bool
flow_allowed p flow = flow_among p.flows flow

unfoldable pub apply_mutations : GovernanceRequest → GovernanceDecision → GovernanceRequest
apply_mutations req d = record req {
  request_json = if str_eq d.request_json "" then req.request_json else d.request_json;
  response_json = if str_eq d.response_json "" then req.response_json else d.response_json;
}

abbrev pub should_ignore_optional_rejection : PluginCategory → Bool
should_ignore_optional_rejection c = same_category c observability

-- The code for a rejection that has none.
abbrev pub category_code : PluginCategory → String
category_code authentication = "unauthenticated"
category_code authorization = "unauthorized"
category_code rate_limiting = "rate_limited"
category_code validation = "invalid_request"
category_code _ = "rejected"

abbrev pub default_reject_code : String → PluginCategory → String
default_reject_code text c = if str_eq text "" then category_code c else text

-- The white space of Unicode.
abbrev is_space : Char → Bool
is_space c =
    let n = code c in
    (leb 9 n && leb n 13)
    || (n == 32)
    || (n == 133)
    || (n == 160)
    || (n == 5760)
    || (leb 8192 n && leb n 8202)
    || (n == 8232)
    || (n == 8233)
    || (n == 8239)
    || (n == 8287)
    || (n == 12288)

-- Whether `strings.TrimSpace` leaves nothing.
unfoldable pub is_blank : String → Bool
is_blank []ₛ = true
is_blank (c ∷ₛ text) = is_space c && is_blank text

abbrev pub default_reject_message : String → String
default_reject_message text = if is_blank text then "request rejected" else text

-- What one observability plugin sends to the channel of errors.
abbrev pub sends : PluginSpec → Result Failure GovernanceDecision → Option Failure
sends p (err e) = if p.required then some e else none
sends p (ok d) =
    if d.continues || not p.required
    then none
    else some (
        rejection (record {
          category = some p.category;
          plugin = p.name;
          code = default_reject_code d.reject_code p.category;
          message = default_reject_message d.reject_message;
        }))

abbrev pub or_first : Option Failure → Option Failure → Option Failure
or_first (some e) rest = some e
or_first none rest = rest

-- The first error in the channel, with the plugins in the order in which they finish.
unfoldable pub run_observability : Handler → List PluginSpec → GovernanceRequest → Option Failure
unfolding flow_allowed
run_observability handle [] req = none
run_observability handle (p ∷ ps) req =
    let rest = run_observability handle ps req in
    if flow_allowed p req.flow then or_first (sends p (handle p req)) rest else rest

abbrev pub Passage : Type 0
Passage = GovernanceRequest × Result Failure GovernanceDecision

unfoldable pub rejected : PluginCategory → PluginSpec → GovernanceDecision → GovernanceDecision
rejected c p d = record d {
  category = some c;
  plugin = p.name;
  continues = false;
  reject_code = default_reject_code d.reject_code c;
  reject_message = default_reject_message d.reject_message;
}

-- What follows the answer of one plugin of `runSequential`; `next` is the rest of the loop.
abbrev pub judged :
    PluginCategory
    → PluginSpec
    → GovernanceRequest
    → (GovernanceRequest → Passage)
    → Result Failure GovernanceDecision
    → Passage
judged c p req next (err e) = if p.required then (req, err e) else next req
judged c p req next (ok d) =
    if not d.continues
    then (if not p.required && should_ignore_optional_rejection c
        then next req
        else (req, ok (rejected c p d)))
    else next (if same_category c content then apply_mutations req d else req)

unfoldable pub run_sequential :
    Handler → PluginCategory → List PluginSpec → GovernanceRequest → PluginFlow → Passage
unfolding flow_allowed rejected apply_mutations
run_sequential handle c [] req flow = (req, ok go_on)
run_sequential handle c (p ∷ ps) req flow =
    let next : GovernanceRequest → Passage = λ r. run_sequential handle c ps r flow in
    if flow_allowed p flow then judged c p req next (handle p req) else next req

-- The loop of `Handle` goes on while the decision continues.
abbrev pub onward :
    Passage
    → (GovernanceRequest → Result Failure GovernanceDecision)
    → Result Failure GovernanceDecision
onward (req, err e) next = err e
onward (req, ok d) next = if d.continues then next req else ok d

abbrev pub unless_sent :
    Option Failure → Result Failure GovernanceDecision → Result Failure GovernanceDecision
unless_sent none next = next
unless_sent (some e) next = err e

-- The flow of a request that has none.
abbrev pub with_flow : GovernanceRequest → GovernanceRequest
with_flow req = record req { flow = if str_eq (flow_text req.flow) "" then request else req.flow }

module _ (handle : Handler) (order : List PluginSpec → List PluginSpec) where
  unfoldable pub run_categories :
      (PluginCategory → List PluginSpec)
      → List PluginCategory
      → GovernanceRequest
      → Result Failure GovernanceDecision
  unfolding run_sequential run_observability
  run_categories by [] req = ok go_on
  run_categories by (c ∷ cs) req =
      let next : GovernanceRequest → Result Failure GovernanceDecision =
        λ r. run_categories by cs r in
      if same_category c observability
      then unless_sent (run_observability handle (order (by c)) req) (next req)
      else onward (run_sequential handle c (by c) req req.flow) next

  -- `Handle`.
  unfoldable pub handle_request : Engine → GovernanceRequest → Result Failure GovernanceDecision
  unfolding run_categories
  handle_request e req = run_categories e.by_category category_order (with_flow req)
