-- ===== src/ServerInit/States.antt =====
-- internal/app/bootstrap/serverinit/manager.go: what the states of a server say of its instances.
use mcpv.Base.{
  ℕ, ◌<◌, ◌≡◌, Bool, true, false, not, ◌&&◌, Option, if◌then◌else◌, ◌==◌, leb, is_some, arith,
}
use mcpv.Domain.Errors.{Fault}
use mcpv.ServerInit.{
  ServerInitState, ServerInitStatus, ready_state, result_state, derive_init_state, is_suspended,
  is_failed,
}

abbrev pub is_ready : ServerInitState → Bool
is_ready ready_state = true
is_ready _ = false

-- What `applyResult` calls ready has its target of instances, or a target of none and nothing failed; with
-- its target of instances a server with a positive target is ready.
pub result_state-ready :
    (target ready failed : ℕ) (e : Option Fault)
    → is_ready (result_state target ready failed e)
      ≡ (if target == 0 then not (is_some e) && failed == 0 else leb target ready)
unfolding result_state
result_state-ready target ready failed e = ground arith

-- The state that `Statuses` derives is ready under the same conditions, whatever the state before; without
-- its target of instances a server that was suspended stays suspended, and one that failed stays failed.
pub derive_init_state-ready :
    (st : ServerInitStatus) (ready failed : ℕ)
    → (is_ready (derive_init_state st ready failed)
        ≡ (if st.min_ready == 0 then failed == 0 else leb st.min_ready ready))
      × (0 < st.min_ready
          → ready < st.min_ready
          → (is_suspended (derive_init_state st ready failed) ≡ is_suspended st.state)
            × (is_failed st.state ≡ true → is_failed (derive_init_state st ready failed) ≡ true))
unfolding derive_init_state
derive_init_state-ready st ready failed =
    (ground arith, λ some_target short. (ground arith, λ broken. ground arith))
