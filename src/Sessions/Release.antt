-- ===== src/Sessions/Release.antt =====
-- backend/proxy/postgres/sessions.py: `release`.
use stolosio.Prelude.{
  String, Option, none, some, List, [], ◌∷◌, ◌++◌, Bool, true, false, not, ◌&&◌, ◌||◌, Time, leb,
  if◌then◌else◌, select, update_where, update_row, find, map, reverse,
}
use stolosio.Contracts.{SessionState, AttemptState, StolosioSession}
use stolosio.Tables.{
  GatewaySession, AcquisitionAttempt, EventType, attempt_closed, attempt_failed, Database,
}
use stolosio.Sessions.Live.{is_owned}
use stolosio.Sessions.Events.{session_event, attempt_event, text_or}
use stolosio.Sessions.Expiry.{of_session, end_attempt}

abbrev pub is_terminal : SessionState → Bool
is_terminal SessionState.closed = true
is_terminal SessionState.failed = true
is_terminal _ = false

abbrev pub is_failed : SessionState → Bool
is_failed SessionState.failed = true
is_failed _ = false

abbrev is_opened : SessionState → Bool
is_opened SessionState.opened = true
is_opened _ = false

unfoldable pub terminate : Bool → String → Time → GatewaySession → GatewaySession
terminate failed reason now row =
    record (if not failed && is_opened row.state
      then record row { closing_at = some now }
      else row) {
        state = if failed then SessionState.failed else SessionState.closed;
        closed_at = some now;
        lease_expires_at = none;
        terminal_reason = some reason;
      }

-- order_by(AcquisitionAttempt.id)
abbrev insert_by_id : AcquisitionAttempt → List AcquisitionAttempt → List AcquisitionAttempt
insert_by_id a [] = a ∷ []
insert_by_id a (b ∷ rest) =
    let later = insert_by_id a rest in if leb a.id b.id then a ∷ b ∷ rest else b ∷ later

abbrev pub sorted_by_id : List AcquisitionAttempt → List AcquisitionAttempt
sorted_by_id [] = []
sorted_by_id (a ∷ rest) = insert_by_id a (sorted_by_id rest)

-- The live attempts of a released session are finalised, each with its event, in the order of their
-- ids.
unfoldable pub release_attempts : GatewaySession → Bool → String → Time → Database → Database
unfolding end_attempt attempt_event
release_attempts row cleanup_failed cleanup_reason now db = record db {
  attempts = update_where (of_session row.id) (end_attempt db now state cleanup_reason) db.attempts;
  events =
      reverse (
        map (attempt_event event_type now (if cleanup_failed then some cleanup_reason else none))
          (sorted_by_id (select (of_session row.id) db.attempts)))
      ++ db.events;
}
  where
    state : AttemptState
    state = if cleanup_failed then AttemptState.failed else AttemptState.completed

    event_type : EventType
    event_type = if cleanup_failed then attempt_failed else attempt_closed

release_found :
    StolosioSession → Bool → String → Time → Option GatewaySession → Database → Bool × Database
unfolding release_attempts terminate session_event
release_found s failed reason now none db = (false, db)
release_found s failed reason now (some row) db =
    let cleaned =
      release_attempts row (failed || is_failed row.state) (text_or row.terminal_reason reason) now
        db in
    if is_terminal row.state then (true, cleaned) else (
      true,
      record cleaned {
        sessions = update_row (is_owned s) (terminate failed reason now) cleaned.sessions;
        events =
            session_event row (if failed then SessionState.failed else SessionState.closed) now
              (some reason)
            ∷ cleaned.events;
      },
    )

unfoldable pub release : StolosioSession → Bool → String → Time → Database → Bool × Database
unfolding release_found
release s failed reason now db =
    release_found s failed reason now (find (is_owned s) db.sessions) db
