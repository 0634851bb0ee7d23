-- ===== src/Domain/Errors/Codes.antt =====
-- internal/domain/error.go and route_error.go: what wrapping keeps of an error.
use mcpv.Base.{
  ◌≡◌, refl, ◌∙◌, inl, inr, String, false, ◌||◌, not, some, if◌then◌else◌, str_eq, is_some,
  Bool-cases, Option-cases, arith,
}
use mcpv.Domain.Errors.{
  Fault, ErrorCode, RouteStage, sentinel, plain, noted, coded, coded_root, routed, find_coded,
  find_sentinel, wrap, with_op, new_error, code_from, new_route_error, route_stage_from, is_no_code,
}

-- What `errors.As` finds is an `*Error`, with the same sentinel behind it.
found_is_coded :
    (e x : Fault)
    → find_coded e ≡ some x
    → (find_coded x ≡ some x) × (find_sentinel x ≡ find_sentinel e)
unfolding find_coded find_sentinel
found_is_coded (sentinel s) x h = absurd (cc)
found_is_coded (plain text) x h = absurd (cc)
found_is_coded (noted cause text) x h = found_is_coded cause x h
found_is_coded (coded code op msg cause) x h = (ground arith, ground arith)
found_is_coded (coded_root code op msg) x h = (ground arith, ground arith)
found_is_coded (routed stage cause) x h = found_is_coded cause x h

-- A new operation changes neither the code nor the sentinel.
with_op-code :
    (op : String) (x : Fault) → find_coded x ≡ some x → code_from (with_op op x) ≡ code_from x
unfolding find_coded find_sentinel code_from
with_op-code op (sentinel s) h = refl
with_op-code op (plain text) h = refl
with_op-code op (noted cause text) h = refl
with_op-code op (routed stage cause) h = refl
with_op-code op (coded code op' msg cause) h =
    elim (Bool-cases (not (str_eq op' "") || str_eq op "")) [
      | inl e ↦ rw e refl
      | inr e ↦ rw e refl
    ]
with_op-code op (coded_root code op' msg) h =
    elim (Bool-cases (not (str_eq op' "") || str_eq op "")) [
      | inl e ↦ rw e refl
      | inr e ↦ rw e refl
    ]

new_error-code :
    (code : ErrorCode) (op : String) (e : Fault)
    → is_no_code code ≡ false
    → code_from (new_error code op "" (some e)) ≡ some code
unfolding code_from new_error find_coded find_sentinel
new_error-code code op e real = rw real refl

same_code :
    (e x : Fault)
    → find_coded e ≡ some x
    → find_coded x ≡ some x
    → find_sentinel x ≡ find_sentinel e
    → code_from x ≡ code_from e
unfolding code_from
same_code e x f self same = rw (f, self, same) refl

-- `Wrap` keeps the code of an error that has one somewhere along its causes, and gives its own code
-- to an error that has none, so that `CodeFrom` finds it.
pub wrap-code :
    (code : ErrorCode) (op : String) (e : Fault)
    → is_no_code code ≡ false
    → code_from (wrap code op e) ≡ (if is_some (find_coded e) then code_from e else some code)
unfolding wrap
wrap-code code op e real = elim (Option-cases (find_coded e)) [
  | inl n ↦ rw n (new_error-code code op e real)
  | inr (x, f) ↦
      let (self, same) = found_is_coded e x f in
      rw f (with_op-code op x self ∙ same_code e x f self same)
]

routed_keeps :
    (stage : RouteStage) (e : Fault)
    → (route_stage_from (routed stage e) ≡ some stage) × (code_from (routed stage e) ≡ code_from e)
unfolding route_stage_from code_from find_coded find_sentinel
routed_keeps stage e = (refl, refl)

-- `NewRouteError` keeps the stage that an error has already, and else gives its own; it never changes
-- the code.
pub new_route_error-keeps :
    (stage : RouteStage) (e : Fault)
    → (route_stage_from (new_route_error stage e)
        ≡ (if is_some (route_stage_from e) then route_stage_from e else some stage))
      × (code_from (new_route_error stage e) ≡ code_from e)
unfolding new_route_error
new_route_error-keeps stage e = elim (Bool-cases (is_some (route_stage_from e))) [
  | inl x ↦ rw x (refl, refl)
  | inr x ↦ rw x (routed_keeps stage e)
]
