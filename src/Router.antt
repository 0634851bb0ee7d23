-- ===== src/Router.antt =====
-- internal/infra/router/router.go and internal/domain/methods.go: a request is decoded, an instance is
-- acquired for it, the call runs, and the instance is released. Parameters are the scheduler, the decoder
-- of JSON-RPC messages, and what an instance's connection answers within the route's timeout. The log is
-- left out.
pub mod Loads
pub mod Ready
use Prim.Native.String.{◌++◌ as ◌+++◌}
use mcpv.Base.{
  ℕ, ◌+◌, ◌-◌, ◌≡◌, String, Bool, true, false, ◌||◌, not, Option, none, some, if◌then◌else◌, str_eq,
  ◌==◌, Result, ok, err,
}
use mcpv.Domain.Errors.{
  Fault, sentinel, noted, wrap, new_route_error, invalid_argument, unavailable, decode, validate,
  acquire, call, invalid_request, method_not_allowed, connection_closed,
}

-- Which of the capabilities a server has, as far as `MethodAllowed` looks at them.
pub record ServerCapabilities : Type 0 where
  pub tools : Bool
  pub resources : Bool
  pub prompts : Bool
  pub logging : Bool
  pub completions : Bool

unfoldable pub method_allowed : ServerCapabilities → String → Bool
method_allowed caps m =
    if str_eq m "ping"
    then true
    else if str_eq m "tools/list" || str_eq m "tools/call"
    then caps.tools
    else if str_eq m "resources/list"
        || str_eq m "resources/read"
        || str_eq m "resources/subscribe"
        || str_eq m "resources/unsubscribe"
        || str_eq m "resources/templates/list"
    then caps.resources
    else if str_eq m "prompts/list" || str_eq m "prompts/get"
    then caps.prompts
    else if str_eq m "logging/setLevel" || str_eq m "notifications/message"
    then caps.logging
    else if str_eq m "completion/complete"
    then caps.completions
    else false

abbrev pub one_if : Bool → ℕ
one_if b = if b then 1 else 0

-- A grant is one request more for one instance; a refusal changes no instance's requests.
abbrev pub Held : {S : Type 0} → (S → ℕ → ℕ) → S → Result Fault ℕ × S → Type 0
Held load s (ok h, t) = (k : ℕ) → load t k ≡ load s k + one_if (k == h)
Held load s (err e, t) = (k : ℕ) → load t k ≡ load s k

-- What the router asks of the scheduler: `take` is `Acquire` or `AcquireReady` with a specification's
-- key and a routing key, and `load` counts the requests that an instance serves.
pub record Source {S : Type 0} (load : S → ℕ → ℕ) : Type 0 where
  pub take : String → String → S → Result Fault ℕ × S
  pub take-Held : (spec_key key : String) (s : S) → Held load s (take spec_key key s)

-- `Release`, which takes one request off.
pub record Releases {S : Type 0} (load : S → ℕ → ℕ) : Type 0 where
  pub release : ℕ → S → S
  pub release-load : (h : ℕ) (s : S) (k : ℕ) → load (release h s) k ≡ load s k - one_if (k == h)

-- An instance as the router reads it.
pub record Server (S : Type 0) : Type 0 where
  pub id_of : S → ℕ → String
  pub has_conn : S → ℕ → Bool
  pub capabilities_of : S → ℕ → ServerCapabilities
  -- `Conn.Call` with the payload, `RecordCall`, and what other goroutines do to the state meanwhile.
  pub serve : String → ℕ → S → Result Fault String × S

-- A decoded message: a request with its method and whether it has a valid identifier, or another one.
abbrev pub Decoder : Type 0
Decoder = String → Result Fault (Option (String × Bool))

abbrev pub method_of : Result Fault (Option (String × Bool)) → Result Fault (String × Bool)
method_of (err e) = err e
method_of (ok none) = ok ("", false)
method_of (ok (some (m, is_call))) = ok (m, is_call)

unfoldable pub extract_method : Decoder → String → Result Fault (String × Bool)
extract_method decode_message payload = method_of (decode_message payload)

-- The error for an instance without connection.
abbrev pub no_connection : String → Fault
no_connection id =
    wrap unavailable "route call"
      (noted (sentinel connection_closed) ("instance has no connection: " +++ id))

module _ {S : Type 0} {load : S → ℕ → ℕ} (server : Server S) (releases : Releases load) where
  -- What the call of an instance came to.
  abbrev pub answered : Result Fault String × S → Result Fault String × S
  answered (ok resp, s) = (ok resp, s)
  answered (err e, s) = (err (new_route_error call (wrap unavailable "route call" e)), s)

  unfoldable pub with_instance : String → String → ℕ → S → Result Fault String × S
  unfolding wrap new_route_error method_allowed
  with_instance payload method h s =
      if not (server.has_conn s h)
      then (err (new_route_error call (no_connection (server.id_of s h))), s)
      else if not (method_allowed (server.capabilities_of s h) method)
      then (err (new_route_error validate (sentinel method_not_allowed)), s)
      else answered (server.serve payload h s)

  -- The deferred release.
  abbrev pub then_release : ℕ → Result Fault String × S → Result Fault String × S
  then_release h (r, s) = (r, releases.release h s)

  abbrev pub with_grant : String → String → Result Fault ℕ × S → Result Fault String × S
  with_grant payload method (err e, s) = (err (new_route_error acquire e), s)
  with_grant payload method (ok h, s) = then_release h (with_instance payload method h s)

  abbrev pub after_decode :
      Source load
      → String
      → String
      → String
      → Result Fault (String × Bool)
      → S
      → Result Fault String × S
  after_decode source spec_key key payload (err e) s =
      (err (new_route_error decode (wrap invalid_argument "route decode" e)), s)
  after_decode source spec_key key payload (ok (m, is_call)) s =
      if str_eq m "" || not is_call
      then (err (new_route_error validate (sentinel invalid_request)), s)
      else with_grant payload m (source.take spec_key key s)

  -- `RouteWithOptions`.
  unfoldable pub route_with_options :
      Decoder
      → Source load
      → Source load
      → Bool
      → String
      → String
      → String
      → S
      → Result Fault String × S
  unfolding extract_method with_instance
  route_with_options decode_message acquires ready_only allow_start spec_key key payload s =
      after_decode (if allow_start then acquires else ready_only) spec_key key payload
        (extract_method decode_message payload) s
