-- ===== src/Governance.antt =====
-- internal/domain/plugin.go (the requests, decisions and rejections), internal/infra/pipeline/engine.go
-- and internal/infra/governance: the plugins that see each call before and after it is served.
pub mod Engine
pub mod Chain
pub mod Gates
pub mod Passing
pub mod Placed
pub mod Mutations
use mcpv.Base.{String, Bool, true, Option, List, Result}
use mcpv.Domain.Errors.{Fault}
use mcpv.Domain.Plugin.{PluginCategory, PluginFlow, PluginSpec}

-- A `json.RawMessage` of length 0 is the empty text.
pub record GovernanceRequest : Type 0 where
  pub flow : PluginFlow
  pub method : String
  pub caller : String
  pub server : String
  pub tool_name : String
  pub resource_uri : String
  pub prompt_name : String
  pub routing_key : String
  pub request_json : String
  pub response_json : String
  pub metadata : Option (List (String × String))

pub record GovernanceDecision : Type 0 where
  pub category : Option PluginCategory
  pub plugin : String
  pub continues : Bool
  pub request_json : String
  pub response_json : String
  pub reject_code : String
  pub reject_message : String

pub record GovernanceRejection : Type 0 where
  pub category : Option PluginCategory
  pub plugin : String
  pub code : String
  pub message : String

-- An error of a handler, or the rejection that the pipeline makes an error of.
pub data Failure : Type 0 where
  fault : Fault → Failure
  rejection : GovernanceRejection → Failure

-- `GovernanceDecision{Continue: true}`.
abbrev pub go_on : GovernanceDecision
go_on = record {
  category = Option.none;
  plugin = "";
  continues = true;
  request_json = "";
  response_json = "";
  reject_code = "";
  reject_message = "";
}

-- What the process of a plugin answers to a call of the engine's `Handler`. In one run each plugin is
-- called at most once, so that its answers are a function of the call.
abbrev pub Handler : Type 0
Handler = PluginSpec → GovernanceRequest → Result Failure GovernanceDecision
