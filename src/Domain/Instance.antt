-- ===== src/Domain/Instance.antt =====
-- internal/domain/instance.go: a server instance. Its methods run under the instance's own lock,
-- so each is one step; a setter returns the changed record.
use mcpv.Base.{ℕ, ◌+◌, ◌-◌, String, Bool, true, false, Option, if◌then◌else◌, ltb}

pub data InstanceState : Type 0 where
  starting initializing handshaking ready busy draining stopped failed : InstanceState

pub data StartCauseReason : Type 0 where
  bootstrap : StartCauseReason
  other_cause : String → StartCauseReason

-- A timestamp of 0 is Go's zero time.
pub record StartCause : Type 0 where
  pub reason : StartCauseReason
  pub timestamp : ℕ

pub record Instance : Type 0 where
  pub id : String
  pub spec_key : String
  pub state : InstanceState
  pub busy_count : ℕ
  pub last_active : ℕ
  pub last_heartbeat_at : ℕ
  pub sticky_key : String
  pub last_start_cause : Option StartCause

abbrev pub set_state : InstanceState → Instance → Instance
set_state st i = record i { state = st }

abbrev pub inc_busy_count : Instance → Instance
inc_busy_count i = record i { busy_count = i.busy_count + 1 }

abbrev pub dec_busy_count : Instance → Instance
dec_busy_count i = if ltb 0 i.busy_count then record i { busy_count = i.busy_count - 1 } else i

abbrev pub set_last_active : ℕ → Instance → Instance
set_last_active at i = record i { last_active = at }

abbrev pub set_last_heartbeat_at : ℕ → Instance → Instance
set_last_heartbeat_at at i = record i { last_heartbeat_at = at }

abbrev pub set_sticky_key : String → Instance → Instance
set_sticky_key key i = record i { sticky_key = key }

abbrev pub set_last_start_cause : Option StartCause → Instance → Instance
set_last_start_cause cause i = record i { last_start_cause = cause }

abbrev pub is_ready : InstanceState → Bool
is_ready ready = true
is_ready _ = false

-- `isRoutable` of internal/infra/scheduler/pool.go.
abbrev pub is_routable : InstanceState → Bool
is_routable ready = true
is_routable busy = true
is_routable _ = false
