-- ===== src/Governance/Chain.antt =====
-- internal/infra/governance/policy.go and executor.go: the policies in front of and behind a call. The
-- encoding of a tool's result (`json.Marshal` of `mcp.CallToolResult`) is a parameter.
use mathlib.Core.List.{reverse}
use mcpv.Base.{String, Option, none, some, List, [], ◌∷◌, if◌then◌else◌, str_eq, Result, ok, err}
use mcpv.Domain.Plugin.{PluginSpec, request, response}
use mcpv.Governance.{GovernanceRequest, GovernanceDecision, Failure, rejection, go_on, Handler}
use mcpv.Governance.Engine.{Engine, handle_request}

pub record Policy : Type 0 where
  pub on_request : GovernanceRequest → Result Failure GovernanceDecision
  pub on_response : GovernanceRequest → Result Failure GovernanceDecision

-- `NewChain`, which leaves the nil policies out.
unfoldable pub new_chain : List (Option Policy) → List Policy
new_chain [] = []
new_chain (none ∷ ps) = new_chain ps
new_chain (some p ∷ ps) = p ∷ new_chain ps

-- How one of the loops ends: with an error, a rejection, or the request as the policies left it and
-- the last decision.
pub data Verdict : Type 0 where
  broken : Failure → Verdict
  rejects : GovernanceDecision → Verdict
  passes : GovernanceDecision → GovernanceRequest → Verdict

abbrev pub with_request : GovernanceRequest → GovernanceDecision → GovernanceRequest
with_request w d = record w {
  request_json = if str_eq d.request_json "" then w.request_json else d.request_json;
}

abbrev pub with_response : GovernanceRequest → GovernanceDecision → GovernanceRequest
with_response w d = record w {
  response_json = if str_eq d.response_json "" then w.response_json else d.response_json;
}

-- One turn of a loop; `next` is the rest of it.
abbrev pub turn :
    (GovernanceDecision → GovernanceRequest)
    → (GovernanceDecision → GovernanceRequest → Verdict)
    → Result Failure GovernanceDecision
    → Verdict
turn changed next (err e) = broken e
turn changed next (ok d) = if d.continues then next d (changed d) else rejects d

unfoldable pub run_requests : List Policy → GovernanceDecision → GovernanceRequest → Verdict
run_requests [] d w = passes d w
run_requests (p ∷ ps) d w = turn (with_request w) (λ d' w'. run_requests ps d' w') (p.on_request w)

-- The policies come in the order in which they are asked.
unfoldable pub run_responses : List Policy → GovernanceDecision → GovernanceRequest → Verdict
run_responses [] d w = passes d w
run_responses (p ∷ ps) d w =
    turn (with_response w) (λ d' w'. run_responses ps d' w') (p.on_response w)

abbrev pub decided : Verdict → Result Failure GovernanceDecision
decided (broken e) = err e
decided (rejects d) = ok d
decided (passes d w) = ok d

-- `Chain.Request` and `Chain.Response`.
unfoldable pub chain_request : List Policy → GovernanceRequest → Result Failure GovernanceDecision
unfolding run_requests
chain_request ps req = decided (run_requests ps go_on req)

unfoldable pub chain_response : List Policy → GovernanceRequest → Result Failure GovernanceDecision
unfolding run_responses
chain_response ps req = decided (run_responses (reverse ps) go_on req)

module _ (encode_result : String → String → Result Failure String) where
  unfoldable pub build_tool_rejection : GovernanceDecision → Result Failure String
  build_tool_rejection d =
      encode_result d.reject_code
        (if str_eq d.reject_message "" then "request rejected" else d.reject_message)

  unfoldable pub handle_rejection : GovernanceRequest → GovernanceDecision → Result Failure String
  unfolding build_tool_rejection
  handle_rejection req d =
      if str_eq req.method "tools/call"
      then build_tool_rejection d
      else err (
          rejection (record {
            category = d.category;
            plugin = d.plugin;
            code = d.reject_code;
            message = d.reject_message;
          }))

  -- The second loop also replaces what is returned whenever it replaces the response in the request,
  -- so that the two stay the same.
  abbrev pub after_responses : GovernanceRequest → Verdict → Result Failure String
  after_responses req (broken e) = err e
  after_responses req (rejects d) = handle_rejection req d
  after_responses req (passes d w) = ok w.response_json

  abbrev pub after_next :
      List Policy
      → GovernanceRequest
      → GovernanceRequest
      → Result Failure String
      → Result Failure String
  after_next ps req w (err e) = err e
  after_next ps req w (ok resp) =
      after_responses req (run_responses (reverse ps) go_on (record w { response_json = resp }))

  abbrev pub after_requests :
      List Policy
      → GovernanceRequest
      → (GovernanceRequest → Result Failure String)
      → Verdict
      → Result Failure String
  after_requests ps req next (broken e) = err e
  after_requests ps req next (rejects d) = handle_rejection req d
  after_requests ps req next (passes d w) = after_next ps req w (next w)

  -- `Chain.Execute`, which is `next` when there are no policies.
  unfoldable pub execute :
      List Policy
      → GovernanceRequest
      → (GovernanceRequest → Result Failure String)
      → Result Failure String
  unfolding run_requests run_responses handle_rejection
  execute [] req next = next req
  execute (p ∷ ps) req next = after_requests (p ∷ ps) req next (run_requests (p ∷ ps) go_on req)

-- `PipelinePolicy`.
unfoldable pub pipeline_policy : Handler → (List PluginSpec → List PluginSpec) → Engine → Policy
unfolding handle_request
pipeline_policy handle order e = record {
  on_request = λ req. handle_request handle order e (record req { flow = request });
  on_response = λ req. handle_request handle order e (record req { flow = response });
}
