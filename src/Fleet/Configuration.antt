-- ===== src/Fleet/Configuration.antt =====
-- backend/fleet/repository.py: a fleet's limits, and `evaluate`, which applies the policy to the
-- fleet's row. A negative number, which `_validate` refuses, is not a number of the model.
use stolosio.Prelude.{
  ℕ, ◌+◌, String, Option, none, some, ◌∷◌, Bool, true, false, not, ◌&&◌, Time, if◌then◌else◌, ltb,
  leb, ◌==◌, length, select, find, any, count, update_row, sum_by,
}
use stolosio.Contracts.{
  ProviderName, same_provider, AttemptState, Result, ok, err, no_managed_fleet, invalid_limits,
}
use stolosio.Tables.{ProviderFleet, ProviderInstance, FleetInstanceState, starting, ready, Database}
use stolosio.Sessions.Live.{holds_lease, live_attempt_state}
use stolosio.Fleet.Policy.{Direction, up, down, ScalingDecision, Provisioned, scaling_decision}

-- _CONFIGURATION_FIELDS
pub record FleetLimits : Type 0 where
  pub minimum_instances : ℕ
  pub maximum_instances : ℕ
  pub session_capacity_per_instance : ℕ
  pub scale_down_cooldown_seconds : ℕ
  pub max_queued_attempts : ℕ
  pub enabled : Bool

-- `_validate`
unfoldable pub validate : FleetLimits → Bool
validate l =
    leb l.minimum_instances l.maximum_instances
    && (leb l.maximum_instances 100
        && (leb 1 l.session_capacity_per_instance && leb 1 l.scale_down_cooldown_seconds))

abbrev pub fleet_of : ProviderName → ProviderFleet → Bool
fleet_of provider row = same_provider row.provider provider

unfoldable pub new_fleet : ProviderName → FleetLimits → Time → ProviderFleet
new_fleet provider l now = record {
  provider = provider;
  minimum_instances = l.minimum_instances;
  maximum_instances = l.maximum_instances;
  session_capacity_per_instance = l.session_capacity_per_instance;
  scale_down_cooldown_seconds = l.scale_down_cooldown_seconds;
  max_queued_attempts = l.max_queued_attempts;
  desired_instances = l.minimum_instances;
  configuration_version = 1;
  enabled = true;
  last_scale_up_at = none;
  last_scale_down_at = none;
  idle_since = none;
  last_reconciled_at = none;
  controller_status = none;
  updated_at = now;
}

-- The limits of a provider that has none yet.
unfoldable pub ensure_fleet : ProviderName → FleetLimits → Time → Database → Result Database
unfolding new_fleet
ensure_fleet provider l now db =
    if validate l
    then ok (
        if any (fleet_of provider) db.fleets
        then db
        else record db { fleets = new_fleet provider l now ∷ db.fleets })
    else err invalid_limits

-- The values that a caller gives, each of them or not.
pub record FleetChanges : Type 0 where
  pub minimum_instances : Option ℕ
  pub maximum_instances : Option ℕ
  pub session_capacity_per_instance : Option ℕ
  pub scale_down_cooldown_seconds : Option ℕ
  pub max_queued_attempts : Option ℕ
  pub enabled : Option Bool

abbrev given {ℓ} : {A : Type ℓ} → Option A → A → A
given none old = old
given (some new) old = new

-- {**previous, **values}
unfoldable pub updated_limits : ProviderFleet → FleetChanges → FleetLimits
updated_limits row c = record {
  minimum_instances = given c.minimum_instances row.minimum_instances;
  maximum_instances = given c.maximum_instances row.maximum_instances;
  session_capacity_per_instance =
      given c.session_capacity_per_instance row.session_capacity_per_instance;
  scale_down_cooldown_seconds = given c.scale_down_cooldown_seconds row.scale_down_cooldown_seconds;
  max_queued_attempts = given c.max_queued_attempts row.max_queued_attempts;
  enabled = given c.enabled row.enabled;
}

unfoldable pub with_limits : FleetLimits → Time → ProviderFleet → ProviderFleet
with_limits l now row = record row {
  minimum_instances = l.minimum_instances;
  maximum_instances = l.maximum_instances;
  session_capacity_per_instance = l.session_capacity_per_instance;
  scale_down_cooldown_seconds = l.scale_down_cooldown_seconds;
  max_queued_attempts = l.max_queued_attempts;
  enabled = l.enabled;
  configuration_version = row.configuration_version + 1;
  updated_at = now;
}

-- FleetConfigurationEvent: the audit's row, which comes with the answer.
pub record FleetConfigurationEvent : Type 0 where
  pub provider : ProviderName
  pub configuration_version : ℕ
  pub previous : ProviderFleet
  pub new_values : FleetLimits
  pub actor : String

unfoldable pub update_found :
    ProviderName
    → FleetChanges
    → String
    → Time
    → Option ProviderFleet
    → Database
    → Result (Option FleetConfigurationEvent × Database)
unfolding updated_limits with_limits
update_found provider changes actor now none db = ok (none, db)
update_found provider changes actor now (some row) db =
    let l = updated_limits row changes in
    if validate l
    then ok (
      some (record {
        provider = row.provider;
        configuration_version = row.configuration_version + 1;
        previous = row;
        new_values = l;
        actor = actor;
      }),
      record db { fleets = update_row (fleet_of provider) (with_limits l now) db.fleets },
    )
    else err invalid_limits

unfoldable pub update_configuration :
    ProviderName
    → FleetChanges
    → String
    → Time
    → Database
    → Result (Option FleetConfigurationEvent × Database)
unfolding update_found
update_configuration provider changes actor now db =
    update_found provider changes actor now (find (fleet_of provider) db.fleets) db

-- `_attempt_count`: the attempts in these states whose session is live with a lease past `now`.
unfoldable pub attempt_count : ProviderName → (AttemptState → Bool) → Time → Database → ℕ
attempt_count provider states now db =
    count
      (λ a.
        same_provider a.provider provider
        && (states a.state && any (λ s. s.id == a.session_id && holds_lease now s) db.sessions))
      db.attempts

-- Started or ready, and seen not long ago.
abbrev is_provisioned : ProviderName → Time → ProviderInstance → Bool
is_provisioned provider now i =
    same_provider i.provider provider && (counts i.state && ltb now i.observation_expires_at)
  where
    counts : FleetInstanceState → Bool
    counts starting = true
    counts ready = true
    counts _ = false

unfoldable pub provisioned : ProviderName → Time → Database → Provisioned
provisioned provider now db =
    let rows = select (is_provisioned provider now) db.instances in
    record { instances = length rows; capacity = sum_by (λ i. i.capacity) rows }

abbrev scaled : Direction → Bool → Time → Option Time → Direction → Option Time
scaled _ false now old _ = old
scaled up true now old up = some now
scaled down true now old down = some now
scaled _ true now old _ = old

-- The row after a decision.
unfoldable pub decided : ScalingDecision → Time → ProviderFleet → ProviderFleet
decided d now row =
    let changed = not (d.desired_instances == row.desired_instances) in
    record row {
      last_scale_up_at = scaled up changed now row.last_scale_up_at d.direction;
      last_scale_down_at = scaled down changed now row.last_scale_down_at d.direction;
      desired_instances = d.desired_instances;
      idle_since = d.idle_since;
      updated_at = now;
    }

unfoldable pub decision_of : ProviderName → Time → Database → ProviderFleet → ScalingDecision
unfolding attempt_count provisioned
decision_of provider now db row =
    scaling_decision row (attempt_count provider live_attempt_state now db) now
      (some (provisioned provider now db))

unfoldable pub evaluate_found :
    ProviderName → Time → Option ProviderFleet → Database → Result (ScalingDecision × Database)
unfolding decided decision_of
evaluate_found provider now none db = err no_managed_fleet
evaluate_found provider now (some row) db =
    let d = decision_of provider now db row in
    ok (d, record db { fleets = update_row (fleet_of provider) (decided d now) db.fleets })

unfoldable pub evaluate : ProviderName → Time → Database → Result (ScalingDecision × Database)
unfolding evaluate_found
evaluate provider now db = evaluate_found provider now (find (fleet_of provider) db.fleets) db

abbrev reconciled : String → Time → ProviderFleet → ProviderFleet
reconciled status now row = record row {
  controller_status = some status;
  last_reconciled_at = some now;
  updated_at = now;
}

unfoldable pub record_reconciliation : ProviderName → String → Time → Database → Database
record_reconciliation provider status now db = record db {
  fleets = update_row (fleet_of provider) (reconciled status now) db.fleets;
}
