-- ===== src/Sessions/Events.antt =====
-- backend/proxy/postgres/sessions.py: the events that a session and its attempts leave.
use stolosio.Prelude.{String, Option, none, some, Time}
use stolosio.Contracts.{SessionState}
use stolosio.Tables.{GatewaySession, AcquisitionAttempt, EventType, session, SessionEvent}

pub record SessionRepositorySettings : Type 0 where
  pub lease : Time

-- `a or b` over a nullable text: the empty text is falsy too.
abbrev pub text_or : Option String → String → String
text_or none b = b
text_or (some String.[]) b = b
text_or (some a) b = a

abbrev nonempty : String → Option String
nonempty String.[] = none
nonempty a = some a

-- `_event`, with the session's new state.
unfoldable pub session_event : GatewaySession → SessionState → Time → Option String → SessionEvent
session_event row state now reason = record {
  session_id = row.id;
  attempt_id = none;
  event_type = session state;
  provider = none;
  reason = reason;
  occurred_at = now;
  payload_reason = reason;
  payload_cost_units = none;
}

-- `_attempt_event`, whose payload leaves an empty reason out.
unfoldable pub attempt_event : EventType → Time → Option String → AcquisitionAttempt → SessionEvent
attempt_event type now reason attempt = record {
  session_id = attempt.session_id;
  attempt_id = some attempt.id;
  event_type = type;
  provider = some attempt.provider;
  reason = reason;
  occurred_at = now;
  payload_reason = elim reason [ none ↦ none | some r ↦ nonempty r ];
  payload_cost_units = none;
}
