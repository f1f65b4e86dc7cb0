-- ===== src/Sessions/Lease.antt =====
-- backend/proxy/postgres/sessions.py: `heartbeat` and `open`, which need a lease that still runs.
use stolosio.Prelude.{
  ◌+◌, Option, none, some, ◌∷◌, Bool, true, false, ◌&&◌, Time, if◌then◌else◌, is_after, update_row,
  find,
}
use stolosio.Contracts.{SessionState, StolosioSession}
use stolosio.Tables.{GatewaySession, Database}
use stolosio.Sessions.Live.{holds_lease, is_owned}
use stolosio.Sessions.Events.{SessionRepositorySettings, session_event}

unfoldable pub renew_lease : SessionRepositorySettings → Time → GatewaySession → GatewaySession
renew_lease settings now row = record row { lease_expires_at = some (now + settings.lease) }

-- The read and the write of one owned row; the answer is whether the write was allowed.
heartbeat_row :
    SessionRepositorySettings
    → StolosioSession
    → Time
    → Option GatewaySession
    → Database
    → Bool × Database
unfolding renew_lease
heartbeat_row settings s now none db = (false, db)
heartbeat_row settings s now (some row) db =
    if holds_lease now row
    then (
      true,
      record db { sessions = update_row (is_owned s) (renew_lease settings now) db.sessions },
    )
    else (false, db)

unfoldable pub heartbeat :
    SessionRepositorySettings → StolosioSession → Time → Database → Bool × Database
unfolding heartbeat_row
heartbeat settings s now db = heartbeat_row settings s now (find (is_owned s) db.sessions) db

abbrev is_admitted : SessionState → Bool
is_admitted SessionState.admitted = true
is_admitted _ = false

-- The conditions of `open` on the owned row.
abbrev pub may_open : GatewaySession → Time → Bool
may_open row now = is_admitted row.state && is_after row.lease_expires_at now

unfoldable pub open_session : SessionRepositorySettings → Time → GatewaySession → GatewaySession
open_session settings now row = record row {
  state = SessionState.opened;
  opened_at = some now;
  lease_expires_at = some (now + settings.lease);
}

open_found :
    SessionRepositorySettings
    → StolosioSession
    → Time
    → Option GatewaySession
    → Database
    → Bool × Database
unfolding open_session session_event
open_found settings s now none db = (false, db)
open_found settings s now (some row) db =
    if may_open row now
    then (
      true,
      record db {
        sessions = update_row (is_owned s) (open_session settings now) db.sessions;
        events = session_event row SessionState.opened now none ∷ db.events;
      },
    )
    else (false, db)

-- `open`
unfoldable pub open_lease :
    SessionRepositorySettings → StolosioSession → Time → Database → Bool × Database
unfolding open_found
open_lease settings s now db = open_found settings s now (find (is_owned s) db.sessions) db
