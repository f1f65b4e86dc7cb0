-- ===== src/Attempts/Enqueue.antt =====
-- backend/proxy/postgres/attempts.py: `enqueue`, the admission of an attempt to its provider.
use stolosio.Prelude.{
  ℕ, suc, ◌+◌, String, Option, none, some, List, [], ◌∷◌, Bool, true, false, not, ◌&&◌, Time,
  if◌then◌else◌, ◌==◌, ltb, max, is_some, select, find, any,
}
use stolosio.Contracts.{
  Key, Json, ProviderName, same_provider, AttemptState, AttemptAdmissionStatus, StolosioSession,
  ProviderAttempt, lease_not_active, live_attempt_exists, source_not_active,
  capacity_not_configured, integrity_error, Result, ok, err, ◌>>=◌, ◌>>◌, require,
}
use stolosio.Tables.{
  AcquisitionAttempt, attempt_failed, ProviderInstance, ProviderFleet, ExternalProviderLimit,
  Database,
}
use stolosio.Sessions.Expiry.{of_session}
use stolosio.Attempts.Live.{owned_session, count_attempts, queued_attempt_state, active_count}
use stolosio.Attempts.Placement.{select_instance}
use stolosio.Attempts.Expiry.{event, expire_stale}

-- `_contract`
unfoldable pub contract : AcquisitionAttempt → Option String → ProviderAttempt
contract row endpoint = record {
  attempt_id = row.id;
  session_id = row.session_id;
  ordinal = row.ordinal;
  provider = row.provider;
  state = row.state;
  provider_instance_id = row.provider_instance_id;
  endpoint = endpoint;
}

abbrev pub instance_id : Option ProviderInstance → Option Key
instance_id none = none
instance_id (some i) = some i.id

abbrev pub instance_endpoint : Option ProviderInstance → Option String
instance_endpoint none = none
instance_endpoint (some i) = some i.endpoint

abbrev is_active_source : Key → AcquisitionAttempt → Bool
is_active_source id a = a.id == id && is_active a.state
  where
    is_active : AttemptState → Bool
    is_active AttemptState.active = true
    is_active _ = false

-- A session has no live attempt, or just the active one that the new attempt replaces.
abbrev pub may_start : Option Key → List AcquisitionAttempt → Result (Unit {0})
may_start none [] = ok tt
may_start none (a ∷ rest) = err live_attempt_exists
may_start (some id) (a ∷ []) = require (is_active_source id a) source_not_active
may_start (some id) _ = err source_not_active

-- coalesce(max(ordinal), 0) over the attempts of the session
abbrev max_ordinal : Key → List AcquisitionAttempt → ℕ
max_ordinal id [] = 0
max_ordinal id (a ∷ rest) =
    let others = max_ordinal id rest in if a.session_id == id then max a.ordinal others else others

abbrev pub fleet_of : ProviderName → Database → Option ProviderFleet
fleet_of provider db = find (λ f. same_provider f.provider provider) db.fleets

abbrev pub limit_of : ProviderName → Database → Option ExternalProviderLimit
limit_of provider db = find (λ l. same_provider l.provider provider) db.limits

-- max_active and max_queued. A managed fleet is bounded by its instances instead of by max_active.
pub record Limits : Type 0 where
  pub max_active : ℕ
  pub max_queued : ℕ

abbrev pub limits_of : Option ProviderFleet → Option ExternalProviderLimit → Result Limits
limits_of (some managed) external = ok (record {
  max_active = 0;
  max_queued = if managed.enabled then managed.max_queued_attempts else 0;
})
limits_of none (some external) = ok (record {
  max_active = if external.enabled then external.max_active_sessions else 0;
  max_queued = if external.enabled then external.max_queued_attempts else 0;
})
limits_of none none = err capacity_not_configured

unfoldable pub new_attempt :
    StolosioSession → Key → ProviderName → Json → Json → Time → Database → AcquisitionAttempt
new_attempt s attempt_id provider resolved_settings setting_sources now db = record {
  id = attempt_id;
  session_id = s.session_id;
  ordinal = max_ordinal s.session_id db.attempts + 1;
  provider = provider;
  provider_instance_id = none;
  provider_session_id = none;
  resolved_settings = resolved_settings;
  setting_sources = setting_sources;
  state = AttemptState.requested;
  queue_sequence = db.next_queue_sequence;
  created_at = now;
  queued_at = none;
  acquiring_at = none;
  active_at = none;
  finished_at = none;
  provider_started_at = none;
  provider_ended_at = none;
  capacity_occupied_ms = none;
  browser_connected_ms = none;
  provider_reported_ms = none;
  chargeable_time_ms = none;
  cost_basis = none;
  cost_rate_units_per_second = none;
  terminal_reason = none;
  modeled_cost_units = none;
  command_summary = none;
  phase_summary = none;
}

unfoldable pub acquiring_row :
    Time → Option ProviderInstance → AcquisitionAttempt → AcquisitionAttempt
acquiring_row now instance' row = record row {
  state = AttemptState.acquiring;
  acquiring_at = some now;
  provider_instance_id = instance_id instance';
}

unfoldable pub queued_row : Time → AcquisitionAttempt → AcquisitionAttempt
queued_row now row = record row { state = AttemptState.queued; queued_at = some now }

unfoldable pub refused_row : Time → AcquisitionAttempt → AcquisitionAttempt
refused_row now row = record row {
  state = AttemptState.failed;
  finished_at = some now;
  terminal_reason = some "provider_queue_full";
}

-- The instance that a managed fleet offers: none while others wait in the queue.
abbrev pub offer :
    Option ProviderFleet → ProviderName → ℕ → Time → Database → Option ProviderInstance
offer none provider waiting now db = none
offer (some managed) provider waiting now db =
    if managed.enabled && waiting == 0 then select_instance provider now db else none

abbrev pub can_acquire : Option ProviderFleet → Option ProviderInstance → ℕ → ℕ → ℕ → Bool
can_acquire (some managed) instance' waiting active limit = waiting == 0 && is_some instance'
can_acquire none instance' waiting active limit = waiting == 0 && ltb active limit

unfoldable pub insert_attempt : AcquisitionAttempt → Database → Database
insert_attempt row db = record db {
  attempts = row ∷ db.attempts;
  next_queue_sequence = suc db.next_queue_sequence;
}

-- The last step: the new row gets its slot, its place in the queue, or its refusal.
unfoldable pub place :
    ProviderName
    → Time
    → Option ProviderFleet
    → Limits
    → AcquisitionAttempt
    → Database
    → (AttemptAdmissionStatus × ProviderAttempt) × Database
unfolding contract acquiring_row queued_row refused_row insert_attempt event active_count
place provider now managed limits row db =
    let waiting = count_attempts provider queued_attempt_state now db in
    let instance' = offer managed provider waiting now db in
    if can_acquire managed instance' waiting (active_count provider now db) limits.max_active
    then (
      (
        AttemptAdmissionStatus.acquiring,
        contract (acquiring_row now instance' row) (instance_endpoint instance'),
      ),
      insert_attempt (acquiring_row now instance' row) db,
    )
    else if ltb waiting limits.max_queued
    then (
      (AttemptAdmissionStatus.queued, contract (queued_row now row) (instance_endpoint instance')),
      insert_attempt (queued_row now row) db,
    )
    else (
      (AttemptAdmissionStatus.full, contract (refused_row now row) (instance_endpoint instance')),
      let with_row = insert_attempt (refused_row now row) db in
          record with_row {
            events =
                event attempt_failed now (some "provider_queue_full") (refused_row now row)
                ∷ with_row.events;
          },
    )

unfoldable pub enqueue :
    StolosioSession
    → Key
    → ProviderName
    → Json
    → Json
    → Option Key
    → Time
    → Database
    → Result ((AttemptAdmissionStatus × ProviderAttempt) × Database)
unfolding place new_attempt
enqueue s attempt_id provider resolved_settings setting_sources replacement_for now db = do
  require (is_some (owned_session s now db)) lease_not_active
  let swept = expire_stale provider now db
  may_start replacement_for (select (of_session s.session_id) swept.attempts)
  require (not (any (λ a. a.id == attempt_id) swept.attempts)) integrity_error
  limits ← limits_of (fleet_of provider swept) (limit_of provider swept)
  ok (
      place provider now (fleet_of provider swept) limits
        (new_attempt s attempt_id provider resolved_settings setting_sources now swept) swept)
