-- ===== src/Sessions/Live.antt =====
-- backend/proxy/postgres/sessions.py: which sessions and attempts are live, and which lease counts.
use stolosio.Prelude.{Bool, true, false, ◌&&◌, Time, ◌==◌, is_after, is_due}
use stolosio.Contracts.{
  SessionState, admitted, opened, closing, AttemptState, queued, acquiring, active, StolosioSession,
}
use stolosio.Tables.{GatewaySession}

-- _LIVE_SESSION_STATES
abbrev pub live_session_state : SessionState → Bool
live_session_state admitted = true
live_session_state opened = true
live_session_state closing = true
live_session_state _ = false

-- _LIVE_ATTEMPT_STATES
abbrev pub live_attempt_state : AttemptState → Bool
live_attempt_state queued = true
live_attempt_state acquiring = true
live_attempt_state active = true
live_attempt_state _ = false

-- A live session whose lease runs past `now`.
abbrev pub holds_lease : Time → GatewaySession → Bool
holds_lease now row = live_session_state row.state && is_after row.lease_expires_at now

-- A live session whose lease is due.
abbrev pub is_stale : Time → GatewaySession → Bool
is_stale now row = live_session_state row.state && is_due row.lease_expires_at now

-- `_owned`: the row with the session's id, owner and lease token.
abbrev pub is_owned : StolosioSession → GatewaySession → Bool
is_owned s row =
    row.id == s.session_id && (row.owner_id == s.owner_id && row.lease_token == s.lease_token)
