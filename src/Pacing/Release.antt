-- ===== src/Pacing/Release.antt =====
-- backend/proxy/domain_pacing/repository.py: `release` and `request_reset`.
use stolosio.Prelude.{
  ◌+◌, Option, none, some, List, ◌∷◌, Bool, true, not, Time, if◌then◌else◌, ltb, ◌==◌, max, find,
  update_where, update_row, delete_where, is_some,
}
use stolosio.Contracts.{Key}
use stolosio.Pacing.Contracts.{model_validate, Policy, Observation, Lease}
use stolosio.Pacing.Controller.{update}
use stolosio.Pacing.Tables.{
  DomainPacingSettings, DomainPacingState, DomainPacingLease, DomainPacingRequest, RequestOutcome,
  observed, interrupted, Adjustment, PacingDatabase,
}
use stolosio.Pacing.Refresh.{configuration, refreshed, adjustment, adjustments_of}
use stolosio.Pacing.Acquire.{of_host}

abbrev pub is_lease : Key → DomainPacingLease → Bool
is_lease id lease = lease.id == id

-- What the observation makes of the row's policy.
unfoldable pub learned :
    DomainPacingSettings → DomainPacingLease → Observation → Time → DomainPacingState → Policy
learned config held o now row =
    update config.settings (refreshed config now row).policy o now held.at_limit
      held.concurrency_at_limit held.generation

abbrev spaced : Option Time → Time → Time → Time
spaced none spacing next = next
spaced (some last) spacing next = max next (last + spacing)

unfoldable pub learned_row :
    DomainPacingSettings
    → DomainPacingLease
    → Observation
    → Time
    → DomainPacingState
    → DomainPacingState
learned_row config held o now row =
    let fresh = refreshed config now row in
    let after = learned config held o now row in
    if after.generation == fresh.policy.generation
    then record fresh { policy = after }
    else record fresh {
      policy = after;
      next_start_at = spaced fresh.last_started_at after.spacing_seconds fresh.next_start_at;
    }

unfoldable pub learned_events :
    DomainPacingSettings
    → DomainPacingLease
    → Observation
    → Time
    → DomainPacingState
    → List Adjustment
    → List Adjustment
unfolding learned_row
learned_events config held o now row events =
    let rest = adjustments_of held.session_id config now row events in
    if (learned config held o now row).generation == (refreshed config now row).policy.generation
    then rest
    else adjustment held.session_id (learned_row config held o now row) now ∷ rest

abbrev outcome_of : Option Observation → RequestOutcome
outcome_of none = interrupted
outcome_of (some o) = observed o.outcome

unfoldable pub finished_request :
    Option Observation → Time → DomainPacingRequest → DomainPacingRequest
finished_request o now request = record request {
  finished_at = some now;
  outcome = some (outcome_of o);
}

-- The request is finished and the lease is deleted.
unfoldable pub close_lease : Lease → Option Observation → Time → PacingDatabase → PacingDatabase
unfolding finished_request
close_lease lease o now db = record db {
  settings = some (configuration db);
  leases = delete_where (is_lease lease.id) db.leases;
  requests = update_where (λ r. r.id == lease.id) (finished_request o now) db.requests;
}

-- An observation counts while the lease runs.
unfoldable pub learn :
    Lease
    → DomainPacingState
    → DomainPacingLease
    → Observation
    → Time
    → PacingDatabase
    → Option PacingDatabase
unfolding learned_row learned_events configuration
learn lease row held o now db =
    let config = configuration db in
    if not (ltb now held.expires_at)
    then some db
    else if model_validate config.settings
    then some (record db {
      states =
          update_row (of_host lease.hostname) (λ _. learned_row config held o now row) db.states;
      adjustments = learned_events config held o now row db.adjustments;
    })
    else none

abbrev pub closed :
    Lease → Option Observation → Time → Option PacingDatabase → Option PacingDatabase
closed lease o now none = none
closed lease o now (some db) = some (close_lease lease o now db)

abbrev pub release_found :
    Lease
    → Option Observation
    → Time
    → Option DomainPacingState
    → Option DomainPacingLease
    → PacingDatabase
    → Option PacingDatabase
release_found lease o now none held db = some db
release_found lease o now (some row) none db = some db
release_found lease none now (some row) (some held) db = closed lease none now (some db)
release_found lease (some o) now (some row) (some held) db =
    closed lease (some o) now (learn lease row held o now db)

-- `none` is a validation error, which rolls the transaction back.
unfoldable pub release : Lease → Option Observation → Time → PacingDatabase → Option PacingDatabase
unfolding release_found
release lease o now db =
    release_found lease o now (find (of_host lease.hostname) db.states)
      (find (is_lease lease.id) db.leases) db

abbrev pub reset_row : DomainPacingState → DomainPacingState
reset_row row = record row { reset_requested = true }

unfoldable pub request_reset : Key → PacingDatabase → Bool × PacingDatabase
unfolding reset_row
request_reset hostname db = (
  is_some (find (of_host hostname) db.states),
  record db { states = update_row (of_host hostname) reset_row db.states },
)
