-- ===== src/Attempts/Expiry.antt =====
-- backend/proxy/postgres/attempts.py: `_expire_stale` and `_event`.
use stolosio.Prelude.{
  String, Option, some, ◌++◌, Bool, not, ◌&&◌, Time, ◌==◌, select, any, update_where, map, reverse,
}
use stolosio.Contracts.{ProviderName, same_provider, AttemptState}
use stolosio.Tables.{AcquisitionAttempt, EventType, attempt_failed, SessionEvent, Database}
use stolosio.Usage.{finalize_attempt_usage}
use stolosio.Sessions.Live.{live_attempt_state}
use stolosio.Attempts.Live.{serves}

-- `_event`, whose payload tells the cost once it is known.
unfoldable pub event : EventType → Time → Option String → AcquisitionAttempt → SessionEvent
event type now reason row = record {
  session_id = row.session_id;
  attempt_id = some row.id;
  event_type = type;
  provider = some row.provider;
  reason = reason;
  occurred_at = now;
  payload_reason = reason;
  payload_cost_units = row.modeled_cost_units;
}

-- A live attempt of the provider whose session serves no more.
abbrev pub is_stranded : ProviderName → Time → Database → AcquisitionAttempt → Bool
is_stranded provider now db a =
    same_provider a.provider provider
    && (live_attempt_state a.state
        && any (λ row. row.id == a.session_id && not (serves now row)) db.sessions)

unfoldable pub expire_attempt : Database → Time → AcquisitionAttempt → AcquisitionAttempt
expire_attempt db now a =
    record (finalize_attempt_usage db.rates now
      (record a { state = AttemptState.failed; finished_at = some now })) {
        terminal_reason = some "session_lease_expired";
      }

unfoldable pub expire_stale : ProviderName → Time → Database → Database
unfolding expire_attempt event
expire_stale provider now db = record db {
  attempts = update_where (is_stranded provider now db) (expire_attempt db now) db.attempts;
  events =
      reverse (
        map (λ a. event attempt_failed now (some "session_lease_expired") (expire_attempt db now a))
          (select (is_stranded provider now db) db.attempts))
      ++ db.events;
}
