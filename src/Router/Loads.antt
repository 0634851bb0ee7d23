-- ===== src/Router/Loads.antt =====
-- internal/infra/router/router.go: what a request leaves behind, whatever becomes of it.
use mcpv.Base.{
  ℕ, ◌-◌, ◌≡◌, refl, ap, ◌∙◌, inl, inr, String, Bool, true, ◌||◌, not, if◌then◌else◌, str_eq, ◌==◌,
  Result, ok, err, Bool-cases, arith, is_some,
}
use mcpv.Domain.Errors.{
  Fault, RouteStage, sentinel, new_route_error, route_stage_from, decode, validate, acquire, call,
  wrap, invalid_request, method_not_allowed, invalid_argument, unavailable,
}
use mcpv.Domain.Errors.Codes.{new_route_error-keeps}
use mcpv.Router.{
  Source, Releases, Server, Decoder, Held, one_if, answered, with_instance, with_grant,
  then_release, after_decode, route_with_options, method_allowed, extract_method, no_connection,
}

-- The error of a failed request says at which stage it failed.
abbrev pub IsStaged : Result Fault String → Type 0
IsStaged (ok resp) = Unit {0}
IsStaged (err e) = is_some (route_stage_from e) ≡ true

new_route_error-IsStaged :
    (stage : RouteStage) (e : Fault) → is_some (route_stage_from (new_route_error stage e)) ≡ true
new_route_error-IsStaged stage e = elim (Bool-cases (is_some (route_stage_from e))) [
  | inl t ↦ rw ((new_route_error-keeps stage e).0, t) t
  | inr t ↦ rw ((new_route_error-keeps stage e).0, t) refl
]

module _ {S : Type 0} {load : S → ℕ → ℕ} (server : Server S) (releases : Releases load) where
  -- The call leaves the requests of the instances alone.
  abbrev pub Keeps : Type 0
  Keeps =
      (payload : String) (h : ℕ) (s : S) (k : ℕ) → load (server.serve payload h s).1 k ≡ load s k

  answered-load : (r : Result Fault String × S) → (answered server releases r).1 ≡ r.1
  answered-load (ok resp, s) = refl
  answered-load (err e, s) = refl

  with_instance-load :
      (payload method : String) (h : ℕ) (s : S) (k : ℕ)
      → Keeps
      → load (with_instance server releases payload method h s).1 k ≡ load s k
  unfolding with_instance
  with_instance-load payload method h s k keeps = elim (Bool-cases (server.has_conn s h)) [
    | inr t ↦ rw t refl
    | inl t ↦ elim (Bool-cases (method_allowed (server.capabilities_of s h) method)) [
      | inr u ↦ rw (t, u) refl
      | inl u ↦
          rw (t, u)
            (ap (λ (x : S). load x k) (answered-load (server.serve payload h s))
              ∙ keeps payload h s k)
    ]
  ]

  then_release-load :
      (h : ℕ) (r : Result Fault String × S) (k : ℕ)
      → load (then_release server releases h r).1 k ≡ load r.1 k - one_if (k == h)
  then_release-load h (r, s) k = releases.release-load h s k

  with_grant-load :
      (payload method : String) (s : S) (g : Result Fault ℕ × S) (k : ℕ)
      → Keeps
      → Held load s g
      → load (with_grant server releases payload method g).1 k ≡ load s k
  with_grant-load payload method s (err e, t) k keeps held = held k
  with_grant-load payload method s (ok h, t) k keeps held =
      let a = then_release-load h (with_instance server releases payload method h t) k in
      let b = with_instance-load payload method h t k keeps in a ∙ omega (arith, b, held k)

  after_decode-load :
      (source : Source load) (spec_key key payload : String) (d : Result Fault (String × Bool))
      (s : S) (k : ℕ)
      → Keeps
      → load (after_decode server releases source spec_key key payload d s).1 k ≡ load s k
  after_decode-load source spec_key key payload (err e) s k keeps = refl
  after_decode-load source spec_key key payload (ok (m, is_call)) s k keeps =
      elim (Bool-cases (str_eq m "" || not is_call)) [
        | inl t ↦ rw t refl
        | inr t ↦ rw t (
            with_grant-load payload m s (source.take spec_key key s) k keeps
              (source.take-Held spec_key key s))
      ]

  -- For any sources that count one request more for the instance that they grant and any release that
  -- counts one less, as `Source` and `Releases` state: if the call of the server leaves the counts alone,
  -- so that no other request begins or ends during it, then each instance serves as many requests after
  -- a route as before it, whatever becomes of the request.
  pub route_with_options-load :
      (decode_message : Decoder) (acquires ready_only : Source load) (allow_start : Bool)
      (spec_key key payload : String) (s : S) (k : ℕ)
      → Keeps
      → load
          (route_with_options server releases decode_message acquires ready_only allow_start
            spec_key key payload s).1
          k
        ≡ load s k
  unfolding route_with_options
  route_with_options-load decode_message acquires ready_only allow_start spec_key key payload s k
        keeps =
      after_decode-load (if allow_start then acquires else ready_only) spec_key key payload
        (extract_method decode_message payload) s k keeps

  answered-IsStaged : (r : Result Fault String × S) → IsStaged (answered server releases r).0
  answered-IsStaged (ok resp, s) = tt
  answered-IsStaged (err e, s) = new_route_error-IsStaged call (wrap unavailable "route call" e)

  with_instance-IsStaged :
      (payload method : String) (h : ℕ) (s : S)
      → IsStaged (with_instance server releases payload method h s).0
  unfolding with_instance
  with_instance-IsStaged payload method h s = elim (Bool-cases (server.has_conn s h)) [
    | inr t ↦ rw t (new_route_error-IsStaged call (no_connection (server.id_of s h)))
    | inl t ↦ elim (Bool-cases (method_allowed (server.capabilities_of s h) method)) [
      | inr u ↦ rw (t, u) (new_route_error-IsStaged validate (sentinel method_not_allowed))
      | inl u ↦ rw (t, u) (answered-IsStaged (server.serve payload h s))
    ]
  ]

  then_release-IsStaged :
      (h : ℕ) (r : Result Fault String × S)
      → IsStaged r.0
      → IsStaged (then_release server releases h r).0
  then_release-IsStaged h (r, s) staged = staged

  with_grant-IsStaged :
      (payload method : String) (g : Result Fault ℕ × S)
      → IsStaged (with_grant server releases payload method g).0
  with_grant-IsStaged payload method (err e, t) = new_route_error-IsStaged acquire e
  with_grant-IsStaged payload method (ok h, t) =
      then_release-IsStaged h (with_instance server releases payload method h t)
        (with_instance-IsStaged payload method h t)

  after_decode-IsStaged :
      (source : Source load) (spec_key key payload : String) (d : Result Fault (String × Bool))
      (s : S)
      → IsStaged (after_decode server releases source spec_key key payload d s).0
  after_decode-IsStaged source spec_key key payload (err e) s =
      new_route_error-IsStaged decode (wrap invalid_argument "route decode" e)
  after_decode-IsStaged source spec_key key payload (ok (m, is_call)) s =
      elim (Bool-cases (str_eq m "" || not is_call)) [
        | inl t ↦ rw t (new_route_error-IsStaged validate (sentinel invalid_request))
        | inr t ↦ rw t (with_grant-IsStaged payload m (source.take spec_key key s))
      ]

  -- Every error that a route returns names a stage.
  pub route_with_options-IsStaged :
      (decode_message : Decoder) (acquires ready_only : Source load) (allow_start : Bool)
      (spec_key key payload : String) (s : S)
      → IsStaged
          (route_with_options server releases decode_message acquires ready_only allow_start
            spec_key key payload s).0
  unfolding route_with_options
  route_with_options-IsStaged decode_message acquires ready_only allow_start spec_key key payload
        s =
      after_decode-IsStaged (if allow_start then acquires else ready_only) spec_key key payload
        (extract_method decode_message payload) s
