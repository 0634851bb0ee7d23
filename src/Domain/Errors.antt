-- ===== src/Domain/Errors.antt =====
-- internal/domain/error.go and route_error.go. `Fault` is the tree of Go errors that these functions
-- look into; `errors.Is` and `errors.As` walk along the causes. A nil error is `none`.
pub mod Codes
use Prim.Native.String.{◌++◌ as ◌+++◌}
use mcpv.Base.{
  String, Bool, true, false, ◌&&◌, ◌||◌, not, Option, none, some, if◌then◌else◌, str_eq, is_some,
  List, [], ◌∷◌,
}

pub data ErrorCode : Type 0 where
  invalid_argument not_found unavailable failed_precondition permission_denied : ErrorCode
  unauthenticated internal canceled deadline_exceeded not_implemented no_code : ErrorCode

pub data Sentinel : Type 0 where
  invalid_request method_not_allowed invalid_cursor unknown_spec_key tool_not_found : Sentinel
  resource_not_found prompt_not_found task_not_found tasks_not_implemented : Sentinel
  client_not_registered no_ready_instance connection_closed unsupported_protocol : Sentinel
  invalid_command executable_not_found permission_refused : Sentinel

pub data RouteStage : Type 0 where
  decode validate acquire call : RouteStage

-- `coded` is `*Error` with a cause and `coded_root` one without; `noted` is `fmt.Errorf` with `%w` in
-- front of a text.
pub data Fault : Type 0 where
  sentinel : Sentinel → Fault
  plain : String → Fault
  noted : Fault → String → Fault
  coded : ErrorCode → String → String → Fault → Fault
  coded_root : ErrorCode → String → String → Fault
  routed : RouteStage → Fault → Fault

abbrev pub code_text : ErrorCode → String
code_text invalid_argument = "INVALID_ARGUMENT"
code_text not_found = "NOT_FOUND"
code_text unavailable = "UNAVAILABLE"
code_text failed_precondition = "FAILED_PRECONDITION"
code_text permission_denied = "PERMISSION_DENIED"
code_text unauthenticated = "UNAUTHENTICATED"
code_text internal = "INTERNAL"
code_text canceled = "CANCELED"
code_text deadline_exceeded = "DEADLINE_EXCEEDED"
code_text not_implemented = "NOT_IMPLEMENTED"
code_text no_code = ""

abbrev pub sentinel_text : Sentinel → String
sentinel_text invalid_request = "invalid request"
sentinel_text method_not_allowed = "method not allowed"
sentinel_text invalid_cursor = "invalid cursor"
sentinel_text unknown_spec_key = "unknown spec key"
sentinel_text tool_not_found = "tool not found"
sentinel_text resource_not_found = "resource not found"
sentinel_text prompt_not_found = "prompt not found"
sentinel_text task_not_found = "task not found"
sentinel_text tasks_not_implemented = "tasks not implemented"
sentinel_text client_not_registered = "client not registered"
sentinel_text no_ready_instance = "no ready instance"
sentinel_text connection_closed = "connection closed"
sentinel_text unsupported_protocol = "unsupported protocol version"
sentinel_text invalid_command = "invalid command"
sentinel_text executable_not_found = "executable not found"
sentinel_text permission_refused = "permission denied"

abbrev pub stage_text : RouteStage → String
stage_text decode = "decode"
stage_text validate = "validate"
stage_text acquire = "acquire"
stage_text call = "call"

-- The text of an `*Error` with the message that stands for it.
abbrev pub coded_text : ErrorCode → String → String → String
coded_text code op msg =
    if str_eq op ""
    then (if str_eq msg "" then code_text code else code_text code +++ ": " +++ msg)
    else if str_eq msg ""
    then op +++ ": " +++ code_text code
    else op +++ ": " +++ code_text code +++ ": " +++ msg

-- `Error()`.
unfoldable pub error_text : Fault → String
error_text (sentinel s) = sentinel_text s
error_text (plain text) = text
error_text (noted cause text) = error_text cause +++ ": " +++ text
error_text (coded code op msg cause) =
    let inner = error_text cause in coded_text code op (if str_eq msg "" then inner else msg)
error_text (coded_root code op msg) = coded_text code op msg
error_text (routed stage cause) = stage_text stage +++ ": " +++ error_text cause

-- `Unwrap`.
unfoldable pub unwrap : Fault → Option Fault
unwrap (sentinel s) = none
unwrap (plain text) = none
unwrap (noted cause text) = some cause
unwrap (coded code op msg cause) = some cause
unwrap (coded_root code op msg) = none
unwrap (routed stage cause) = some cause

-- `errors.As` for `*Error`: the first one along the causes.
unfoldable pub find_coded : Fault → Option Fault
find_coded (sentinel s) = none
find_coded (plain text) = none
find_coded (noted cause text) = find_coded cause
find_coded (coded code op msg cause) = some (coded code op msg cause)
find_coded (coded_root code op msg) = some (coded_root code op msg)
find_coded (routed stage cause) = find_coded cause

unfoldable pub route_stage_from : Fault → Option RouteStage
route_stage_from (sentinel s) = none
route_stage_from (plain text) = none
route_stage_from (noted cause text) = route_stage_from cause
route_stage_from (coded code op msg cause) = route_stage_from cause
route_stage_from (coded_root code op msg) = none
route_stage_from (routed stage cause) = some stage

-- The sentinel at the end of the causes, the one that `errors.Is` can find.
unfoldable pub find_sentinel : Fault → Option Sentinel
find_sentinel (sentinel s) = some s
find_sentinel (plain text) = none
find_sentinel (noted cause text) = find_sentinel cause
find_sentinel (coded code op msg cause) = find_sentinel cause
find_sentinel (coded_root code op msg) = none
find_sentinel (routed stage cause) = find_sentinel cause

-- `E`.
unfoldable pub new_error : ErrorCode → String → String → Option Fault → Fault
new_error code op msg none = coded_root code op msg
new_error code op msg (some cause) =
    coded code op (if str_eq msg "" then error_text cause else msg) cause

-- `Wrap` where `errors.As` has found an `*Error`, which it keeps but for an operation it lacks.
abbrev pub with_op : String → Fault → Fault
with_op op (coded code op' msg cause) =
    if not (str_eq op' "") || str_eq op ""
    then coded code op' msg cause
    else coded code op msg cause
with_op op (coded_root code op' msg) =
    if not (str_eq op' "") || str_eq op "" then coded_root code op' msg else coded_root code op msg
with_op op (sentinel s) = sentinel s
with_op op (plain text) = plain text
with_op op (noted cause text) = noted cause text
with_op op (routed stage cause) = routed stage cause

abbrev pub wrap_found : ErrorCode → String → Fault → Option Fault → Fault
wrap_found code op e none = new_error code op "" (some e)
wrap_found code op e (some existing) = with_op op existing

unfoldable pub wrap : ErrorCode → String → Fault → Fault
unfolding find_coded new_error
wrap code op e = wrap_found code op e (find_coded e)

unfoldable pub new_route_error : RouteStage → Fault → Fault
unfolding route_stage_from
new_route_error stage e = if is_some (route_stage_from e) then e else routed stage e

abbrev pub sentinel_code : Sentinel → ErrorCode
sentinel_code invalid_request = invalid_argument
sentinel_code method_not_allowed = invalid_argument
sentinel_code invalid_cursor = invalid_argument
sentinel_code unknown_spec_key = invalid_argument
sentinel_code tool_not_found = not_found
sentinel_code resource_not_found = not_found
sentinel_code prompt_not_found = not_found
sentinel_code task_not_found = not_found
sentinel_code tasks_not_implemented = not_implemented
sentinel_code client_not_registered = failed_precondition
sentinel_code no_ready_instance = unavailable
sentinel_code connection_closed = unavailable
sentinel_code unsupported_protocol = failed_precondition
sentinel_code invalid_command = failed_precondition
sentinel_code executable_not_found = failed_precondition
sentinel_code permission_refused = permission_denied

abbrev pub by_sentinel : Option Sentinel → Option ErrorCode
by_sentinel none = none
by_sentinel (some s) = some (sentinel_code s)

abbrev pub is_no_code : ErrorCode → Bool
is_no_code c = str_eq (code_text c) ""

abbrev pub code_found : Option Fault → Option Sentinel → Option ErrorCode
code_found (some (coded code op msg cause)) s = if is_no_code code then by_sentinel s else some code
code_found (some (coded_root code op msg)) s = if is_no_code code then by_sentinel s else some code
code_found (some (sentinel t)) s = by_sentinel s
code_found (some (plain text)) s = by_sentinel s
code_found (some (noted cause text)) s = by_sentinel s
code_found (some (routed stage cause)) s = by_sentinel s
code_found none s = by_sentinel s

-- `CodeFrom`: of a coded error its code, else that of the sentinel behind it.
unfoldable pub code_from : Fault → Option ErrorCode
unfolding find_coded find_sentinel
code_from e = code_found (find_coded e) (find_sentinel e)
