-- ===== src/Sessions/Expiry.antt =====
-- backend/proxy/postgres/sessions.py: `_expire_stale`, and how a live attempt ends with its session.
use stolosio.Prelude.{
  String, none, some, List, [], ◌∷◌, ◌++◌, Bool, ◌&&◌, Time, ◌==◌, select, any, update_where, map,
  reverse,
}
use stolosio.Contracts.{Key, SessionState, AttemptState}
use stolosio.Tables.{GatewaySession, AcquisitionAttempt, attempt_failed, SessionEvent, Database}
use stolosio.Usage.{finalize_attempt_usage}
use stolosio.Sessions.Live.{live_attempt_state, is_stale}
use stolosio.Sessions.Events.{session_event, attempt_event}

-- A live attempt of a session that ends is finalised and ends with it.
unfoldable pub end_attempt :
    Database → Time → AttemptState → String → AcquisitionAttempt → AcquisitionAttempt
end_attempt db now state reason attempt = record (finalize_attempt_usage db.rates now attempt) {
  state = state;
  finished_at = some now;
  terminal_reason = some reason;
}

-- The attempts that end with the session of key `id`.
abbrev pub of_session : Key → AcquisitionAttempt → Bool
of_session id attempt = attempt.session_id == id && live_attempt_state attempt.state

unfoldable pub expire_row : Time → GatewaySession → GatewaySession
expire_row now row = record row {
  state = SessionState.failed;
  closed_at = some now;
  lease_expires_at = none;
  terminal_reason = some "session_lease_expired";
}

expire_events :
    Database → Time → String → List GatewaySession → List SessionEvent → List SessionEvent
unfolding session_event attempt_event
expire_events db now reason [] events = events
expire_events db now reason (row ∷ rows) events = expire_events db now reason rows (
    session_event row SessionState.failed now (some reason)
    ∷ (reverse (
          map (attempt_event attempt_failed now (some reason))
            (select (of_session row.id) db.attempts))
        ++ events))

-- The attempts that `_expire_stale` ends: the live ones of a stale session.
abbrev pub orphaned : Database → Time → AcquisitionAttempt → Bool
orphaned db now attempt =
    live_attempt_state attempt.state
    && any (λ row. is_stale now row && row.id == attempt.session_id) db.sessions

-- `_expire_stale`: every live session whose lease is due fails, and its live attempts with it.
unfoldable pub expire_stale : Time → Database → Database
unfolding expire_events end_attempt expire_row
expire_stale now db = record db {
  attempts =
      update_where (orphaned db now) (end_attempt db now AttemptState.failed reason) db.attempts;
  sessions = update_where (is_stale now) (expire_row now) db.sessions;
  events = expire_events db now reason (select (is_stale now) db.sessions) db.events;
}
  where
    reason : String
    reason = "session_lease_expired"
