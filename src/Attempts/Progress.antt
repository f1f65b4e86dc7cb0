-- ===== src/Attempts/Progress.antt =====
-- backend/proxy/postgres/attempts.py: `activate`, `bind_provider_session`, `record_provider_usage`
-- and `finish`.
use stolosio.Prelude.{
  ℕ, String, Option, none, some, ◌∷◌, Bool, true, false, Time, if◌then◌else◌, ◌==◌, find,
  update_row,
}
use stolosio.Contracts.{Json, AttemptState, ProviderAttempt}
use stolosio.Tables.{
  AcquisitionAttempt, attempt_connected, attempt_closed, attempt_failed, Database,
}
use stolosio.Usage.{elapsed_ms, finalize_attempt_usage}
use stolosio.Attempts.Expiry.{event}

abbrev pub has_key : ProviderAttempt → AcquisitionAttempt → Bool
has_key attempt a = a.id == attempt.attempt_id

abbrev pub is_acquiring : AttemptState → Bool
is_acquiring AttemptState.acquiring = true
is_acquiring _ = false

abbrev pub is_ended : AttemptState → Bool
is_ended AttemptState.completed = true
is_ended AttemptState.failed = true
is_ended _ = false

unfoldable pub active_row : Time → AcquisitionAttempt → AcquisitionAttempt
active_row now row = record row { state = AttemptState.active; active_at = some now }

activate_row : ProviderAttempt → Time → Option AcquisitionAttempt → Database → Bool × Database
unfolding active_row event
activate_row attempt now none db = (false, db)
activate_row attempt now (some row) db =
    if is_acquiring row.state
    then (
      true,
      record db {
        attempts = update_row (has_key attempt) (active_row now) db.attempts;
        events = event attempt_connected now none (active_row now row) ∷ db.events;
      },
    )
    else (false, db)

unfoldable pub activate : ProviderAttempt → Time → Database → Bool × Database
unfolding activate_row
activate attempt now db = activate_row attempt now (find (has_key attempt) db.attempts) db

unfoldable pub bound_row : Option String → Option Time → AcquisitionAttempt → AcquisitionAttempt
bound_row provider_session_id provider_started_at row = record row {
  provider_session_id = provider_session_id;
  provider_started_at = provider_started_at;
}

unfoldable pub bind_provider_session :
    ProviderAttempt → Option String → Option Time → Database → Database
unfolding bound_row
bind_provider_session attempt provider_session_id provider_started_at db = record db {
  attempts =
      update_row (has_key attempt) (bound_row provider_session_id provider_started_at) db.attempts;
}

abbrev or_now : Option Time → Time → Time
or_now none now = now
or_now (some t) now = t

abbrev measured : Option Time → Time → Option ℕ → Option ℕ
measured none ended before = before
measured (some started) ended before = some (elapsed_ms ended started)

unfoldable pub usage_row : Option Time → Time → AcquisitionAttempt → AcquisitionAttempt
usage_row provider_ended_at now row =
    let ended = or_now provider_ended_at now in
    record row {
      provider_ended_at = some ended;
      provider_reported_ms = measured row.provider_started_at ended row.provider_reported_ms;
    }

unfoldable pub record_provider_usage : ProviderAttempt → Option Time → Time → Database → Database
unfolding usage_row
record_provider_usage attempt provider_ended_at now db = record db {
  attempts = update_row (has_key attempt) (usage_row provider_ended_at now) db.attempts;
}

unfoldable pub finished_row :
    Database
    → Bool
    → String
    → Option Json
    → Option Json
    → Time
    → AcquisitionAttempt
    → AcquisitionAttempt
finished_row db failed reason command_summary phase_summary now row =
    record (finalize_attempt_usage db.rates now (record row {
      state = if failed then AttemptState.failed else AttemptState.completed;
      finished_at = some now;
    })) {
      command_summary = command_summary;
      phase_summary = phase_summary;
      terminal_reason = some reason;
    }

unfoldable pub finish_row :
    ProviderAttempt
    → Bool
    → String
    → Option Json
    → Option Json
    → Time
    → Option AcquisitionAttempt
    → Database
    → Bool × Database
unfolding finished_row event
finish_row attempt failed reason command_summary phase_summary now none db = (false, db)
finish_row attempt failed reason command_summary phase_summary now (some row) db =
    let done = finished_row db failed reason command_summary phase_summary now in
    if is_ended row.state then (true, db) else (
      true,
      record db {
        attempts = update_row (has_key attempt) done db.attempts;
        events =
            event (if failed then attempt_failed else attempt_closed) now
              (if failed then some reason else none) (done row)
            ∷ db.events;
      },
    )

unfoldable pub finish :
    ProviderAttempt → Bool → String → Option Json → Option Json → Time → Database → Bool × Database
unfolding finish_row
finish attempt failed reason command_summary phase_summary now db =
    finish_row attempt failed reason command_summary phase_summary now
      (find (has_key attempt) db.attempts) db
