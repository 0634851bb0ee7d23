-- ===== src/Examples/Governance.antt =====
-- The laws of internal/infra/pipeline and internal/infra/governance at a plugin that changes requests and one
-- that checks them.
use mathlib.Core.List.{Memᴰ}
use mathlib.Core.List.Memᴰ.{head, tail}
use mcpv.Base.{◌≡◌, refl, true, false, none, [], ◌∷◌, String, List, Result, ok, err}
use mcpv.Domain.Plugin.{PluginSpec, request, content, validation, PluginCategory}
use mcpv.Domain.Errors.{plain}
use mcpv.Governance.{GovernanceRequest, Failure, fault, go_on, Handler}
use mcpv.Governance.Engine.{
  update, handle_request, with_flow, run_categories, run_sequential, run_observability,
  flow_allowed, place_by_name, in_category,
}
use mcpv.Governance.Gates.{Asked, LetsPass}
use mcpv.Governance.Passing.{before_content, handle_request-asks}
use mcpv.Governance.Chain.{execute, pipeline_policy, run_requests, run_responses}
use mcpv.Governance.Mutations.{execute-unchanged}

abbrev plugin : String → PluginCategory → PluginSpec
plugin name category = record {
  name = name;
  category = category;
  required = true;
  disabled = false;
  cmd = none;
  env = none;
  cwd = "";
  commit_hash = "";
  timeout_ms = 0;
  handshake_timeout_ms = 0;
  config_json = none;
  flows = none;
}

abbrev plugins : List PluginSpec
plugins = plugin "mask" content ∷ plugin "schema" validation ∷ []

abbrev asking : GovernanceRequest
asking = record {
  flow = request;
  method = "prompts/get";
  caller = "editor";
  server = "notes";
  tool_name = "";
  resource_uri = "";
  prompt_name = "summary";
  routing_key = "";
  request_json = "{\"secret\":1}";
  response_json = "";
  metadata = none;
}

-- Every plugin continues with a new request.
abbrev masks : Handler
masks p req = ok (record go_on { request_json = "{}" })

abbrev in_turn : List PluginSpec → List PluginSpec
in_turn ps = ps

abbrev answers : GovernanceRequest → Result Failure String
answers req = ok req.request_json

abbrev no_result : String → String → Result Failure String
no_result code text = err (fault (plain text))

handle_request-asks_example :
    Asked masks
      (in_category content plugins)
      (with_flow asking)
      validation
      (plugin "schema" validation)
    × (Memᴰ validation before_content
        → LetsPass validation
            (plugin "schema" validation)
            (masks (plugin "schema" validation) (with_flow asking)))
unfolding handle_request run_categories run_sequential run_observability update in_category
    place_by_name flow_allowed
handle_request-asks_example =
    handle_request-asks masks in_turn plugins asking validation (plugin "schema" validation)
      (λ ps q m. m) refl (tail (head refl)) (tail (tail (tail (tail (head refl))))) refl refl

execute-unchanged_example : answers asking ≡ ok "{\"secret\":1}"
unfolding execute pipeline_policy run_requests run_responses handle_request run_categories
    run_sequential run_observability update in_category place_by_name flow_allowed
execute-unchanged_example =
    execute-unchanged no_result masks in_turn (update plugins) asking answers "{\"secret\":1}" refl
      refl
