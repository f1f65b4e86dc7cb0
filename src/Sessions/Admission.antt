-- ===== src/Sessions/Admission.antt =====
-- backend/proxy/postgres/sessions.py: `admit` and `active_count`. `none` is an integrity error,
-- which rolls the transaction back.
use stolosio.Prelude.{
  ℕ, ◌+◌, Option, none, some, List, ◌∷◌, Bool, false, ◌||◌, Time, if◌then◌else◌, ◌==◌, leb, any,
  count,
}
use stolosio.Contracts.{Key, Json, SessionState, SessionAdmissionStatus, StolosioSession}
use stolosio.Tables.{GatewaySession, Database}
use stolosio.Sessions.Live.{holds_lease}
use stolosio.Sessions.Events.{SessionRepositorySettings, session_event}
use stolosio.Sessions.Expiry.{expire_stale}

new_row : StolosioSession → Json → Option Key → Time → GatewaySession
new_row s requested_settings client_reference now = record {
  id = s.session_id;
  owner_id = s.owner_id;
  lease_token = s.lease_token;
  client_reference = client_reference;
  requested_settings = requested_settings;
  workload = s.workload;
  capture_hostname = s.capture_hostname;
  state = SessionState.requested;
  created_at = now;
  admitted_at = none;
  opened_at = none;
  closing_at = none;
  closed_at = none;
  lease_expires_at = none;
  terminal_reason = none;
}

-- The primary key of the table, and the unique index on the client's reference.
abbrev pub taken : StolosioSession → Option Key → List GatewaySession → Bool
taken s reference rows =
    any (λ row. row.id == s.session_id || same_reference reference row.client_reference) rows
  where
    same_reference : Option Key → Option Key → Bool
    same_reference (some a) (some b) = a == b
    same_reference _ _ = false

unfoldable pub active_count : Time → Database → ℕ
active_count now db = count (holds_lease now) db.sessions

admit_row :
    SessionRepositorySettings
    → ℕ
    → Time
    → GatewaySession
    → Database
    → SessionAdmissionStatus × Database
unfolding session_event active_count
admit_row settings max_active now row db =
    if leb max_active (active_count now db)
    then (
      SessionAdmissionStatus.full,
      record db {
        sessions = refused ∷ db.sessions;
        events =
            session_event row SessionState.failed now (some "gateway_capacity_full") ∷ db.events;
      },
    )
    else (SessionAdmissionStatus.admitted, record db { sessions = granted ∷ db.sessions })
  where
    refused : GatewaySession
    refused = record row {
      state = SessionState.failed;
      closed_at = some now;
      terminal_reason = some "gateway_capacity_full";
    }

    granted : GatewaySession
    granted = record row {
      state = SessionState.admitted;
      admitted_at = some now;
      lease_expires_at = some (now + settings.lease);
    }

unfoldable pub admit :
    SessionRepositorySettings
    → StolosioSession
    → ℕ
    → Json
    → Option Key
    → Time
    → Database
    → Option (SessionAdmissionStatus × Database)
unfolding admit_row new_row
admit settings s max_active requested_settings client_reference now db =
    let swept = expire_stale now db in
    if taken s client_reference swept.sessions
    then none
    else some (
        admit_row settings max_active now (new_row s requested_settings client_reference now) swept)
