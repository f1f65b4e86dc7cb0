-- ===== src/Sessions/Calls.antt =====
-- The calls of the session repository, in any order and with any clock values.
use stolosio.Prelude.{ℕ, String, Option, none, some, List, [], ◌∷◌, Bool, Time}
use stolosio.Contracts.{Key, Json, SessionAdmissionStatus, StolosioSession}
use stolosio.Tables.{Database}
use stolosio.Sessions.Events.{SessionRepositorySettings}
use stolosio.Sessions.Admission.{admit}
use stolosio.Sessions.Lease.{heartbeat, open_lease}
use stolosio.Sessions.Release.{release}

pub data SessionCall : Type 0 where
  admits : StolosioSession → Json → Option Key → SessionCall
  heartbeats opens : StolosioSession → SessionCall
  releases : StolosioSession → Bool → String → SessionCall

-- A transaction that is rolled back leaves the database as it was.
abbrev committed : Option (SessionAdmissionStatus × Database) → Database → Database
committed none db = db
committed (some (status, db')) db = db'

module _ (settings : SessionRepositorySettings) (max_active : ℕ) where
  unfoldable pub step : Database → Time × SessionCall → Database
  step db (now, admits s requested reference) =
      committed (admit settings s max_active requested reference now db) db
  step db (now, heartbeats s) = (heartbeat settings s now db).1
  step db (now, opens s) = (open_lease settings s now db).1
  step db (now, releases s failed reason) = (release s failed reason now db).1

  unfoldable pub run : Database → List (Time × SessionCall) → Database
  run db [] = db
  run db (call ∷ calls) = run (step db call) calls
