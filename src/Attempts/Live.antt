-- ===== src/Attempts/Live.antt =====
-- backend/proxy/postgres/attempts.py: which attempts and sessions count, `_count` and
-- `_owned_session`. The join with the sessions' table is a search by the session's key.
use stolosio.Prelude.{
  ℕ, Bool, true, false, ◌&&◌, Option, List, Time, ◌==◌, is_after, is_value, any, count, find,
}
use stolosio.Contracts.{
  Key, ProviderName, same_provider, SessionState, AttemptState, StolosioSession,
}
use stolosio.Tables.{GatewaySession, AcquisitionAttempt, Database}
use stolosio.Sessions.Live.{is_owned}

-- _LIVE_SESSION_STATES of this file, which leaves `closing` out.
abbrev pub live_session_state : SessionState → Bool
live_session_state SessionState.admitted = true
live_session_state SessionState.opened = true
live_session_state _ = false

-- _ACTIVE_ATTEMPT_STATES
abbrev pub active_attempt_state : AttemptState → Bool
active_attempt_state AttemptState.acquiring = true
active_attempt_state AttemptState.active = true
active_attempt_state _ = false

abbrev pub queued_attempt_state : AttemptState → Bool
queued_attempt_state AttemptState.queued = true
queued_attempt_state _ = false

-- GatewaySession.state.in_(_LIVE_SESSION_STATES), GatewaySession.lease_expires_at > now
abbrev pub serves : Time → GatewaySession → Bool
serves now row = live_session_state row.state && is_after row.lease_expires_at now

-- The join of an attempt with a session that serves at `now`.
abbrev pub session_serves : Time → List GatewaySession → Key → Bool
session_serves now sessions id = any (λ row. row.id == id && serves now row) sessions

abbrev pub counted :
    ProviderName → (AttemptState → Bool) → Time → List GatewaySession → AcquisitionAttempt → Bool
counted provider states now sessions a =
    same_provider a.provider provider
    && (states a.state && session_serves now sessions a.session_id)

-- `_count`
abbrev pub count_attempts : ProviderName → (AttemptState → Bool) → Time → Database → ℕ
count_attempts provider states now db = count (counted provider states now db.sessions) db.attempts

unfoldable pub active_count : ProviderName → Time → Database → ℕ
active_count provider now db = count_attempts provider active_attempt_state now db

-- `_owned_session`
abbrev pub owned_session : StolosioSession → Time → Database → Option GatewaySession
owned_session s now db = find (λ row. is_owned s row && serves now row) db.sessions

-- The slot of instance `id` is taken by an attempt in an active state, its session aside.
abbrev pub occupies : Key → AcquisitionAttempt → Bool
occupies id a = is_value a.provider_instance_id id && active_attempt_state a.state

-- The occupied slots of an instance, as `_select_instance` counts them.
abbrev pub occupied : Time → Database → Key → ℕ
occupied now db id =
    count (λ a. occupies id a && session_serves now db.sessions a.session_id) db.attempts
