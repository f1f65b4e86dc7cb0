-- ===== src/Pacing/Calls.antt =====
-- The calls of the pacing repository, as one relation of the database to the next one.
use stolosio.Prelude.{Option, none, some, List, [], ◌∷◌, Time}
use stolosio.Contracts.{Key}
use stolosio.Pacing.Contracts.{Observation, Lease}
use stolosio.Pacing.Tables.{PacingDatabase}
use stolosio.Pacing.Refresh.{SettingsChanges, update_settings}
use stolosio.Pacing.Acquire.{acquire}
use stolosio.Pacing.Release.{release, request_reset}

-- `acquires hostname session_id lease_seconds lease_id before`
pub data PacingCall : Type 0 where
  acquires : Key → Key → Time → Key → Time → PacingCall
  releases : Lease → Option Observation → PacingCall
  requests_reset : Key → PacingCall
  updates_settings : SettingsChanges → PacingCall

-- A transaction that fails leaves the database as it was.
abbrev pub committed : Option PacingDatabase → PacingDatabase → PacingDatabase
committed none db = db
committed (some after) db = after

unfoldable pub step : PacingDatabase → Time × PacingCall → PacingDatabase
step db (now, acquires hostname session_id lease_seconds lease_id before) =
    (acquire hostname session_id lease_seconds lease_id before now db).1
step db (now, releases lease o) = committed (release lease o now db) db
step db (now, requests_reset hostname) = (request_reset hostname db).1
step db (now, updates_settings changes) = committed (update_settings changes db) db

unfoldable pub run : PacingDatabase → List (Time × PacingCall) → PacingDatabase
run db [] = db
run db (call ∷ calls) = run (step db call) calls
