-- ===== src/Fleet/Tests.antt =====
-- The theorems on the fleets, at a fleet of two browsers that may grow to four.
use stolosio.Prelude.{◌*◌, ◌≤◌, ◌≡◌, ◌⊎◌, refl, none, some, [], ◌∷◌, true, second, arith, All, find}
use stolosio.Contracts.{browserless}
use stolosio.Tables.{ProviderFleet, ProviderInstance, ready, Database}
use stolosio.Fleet.Instances.{prepare_scale_down}
use stolosio.Fleet.Draining.{IsRetired, prepare_scale_down-IsRetired}
use stolosio.Fleet.Policy.{target, scaling_decision}
use stolosio.Fleet.Bounds.{IsValid, IsMeasured, scaling_decision-IsMeasured, target-covers}
use stolosio.Fleet.Configuration.{
  FleetLimits, ensure_fleet, FleetChanges, fleet_of, evaluate, update_configuration,
}
use stolosio.Fleet.Limits.{IsBounded, outcome, evaluate-IsBounded}
use stolosio.Fleet.Permits.{IsSetUp, IsUpdated, update_configuration-IsConfigured}

abbrev fleet : ProviderFleet
fleet = record {
  provider = browserless;
  minimum_instances = 1;
  maximum_instances = 4;
  session_capacity_per_instance = 3;
  scale_down_cooldown_seconds = 60;
  max_queued_attempts = 100;
  desired_instances = 2;
  configuration_version = 1;
  enabled = true;
  last_scale_up_at = none;
  last_scale_down_at = none;
  idle_since = some 0;
  last_reconciled_at = none;
  controller_status = none;
  updated_at = 0;
}

abbrev one_fleet : Database
one_fleet = record {
  sessions = [];
  attempts = [];
  instances = [];
  fleets = fleet ∷ [];
  limits = [];
  rates = [];
  events = [];
  next_queue_sequence = 1;
}

fleet-IsValid : IsValid fleet
fleet-IsValid = record { ordered = omega arith; capacity = omega arith }

scaling_decision-IsMeasured_example :
    IsMeasured fleet 0 (61 * second) none (scaling_decision fleet 0 (61 * second) none)
scaling_decision-IsMeasured_example = scaling_decision-IsMeasured fleet 0 (61 * second) none

target-covers_example :
    (8 ≤ target fleet 8 none * fleet.session_capacity_per_instance)
    ⊎ (target fleet 8 none ≡ fleet.maximum_instances)
target-covers_example = target-covers fleet 8 none fleet-IsValid refl

evaluate-IsBounded_example :
    All IsBounded (outcome (evaluate browserless (61 * second) one_fleet) one_fleet).fleets
evaluate-IsBounded_example =
    evaluate-IsBounded browserless (61 * second) one_fleet
      (record { valid = fleet-IsValid; enabled = λ e. (omega arith, omega arith) }, tt)

abbrev limits : FleetLimits
limits = record {
  minimum_instances = 1;
  maximum_instances = 4;
  session_capacity_per_instance = 3;
  scale_down_cooldown_seconds = 60;
  max_queued_attempts = 100;
  enabled = true;
}

abbrev smaller : FleetChanges
smaller = record {
  minimum_instances = none;
  maximum_instances = some 1;
  session_capacity_per_instance = none;
  scale_down_cooldown_seconds = none;
  max_queued_attempts = none;
  enabled = none;
}

update_configuration-IsConfigured_example :
    IsSetUp browserless limits (ensure_fleet browserless limits 5 one_fleet)
    × IsUpdated browserless smaller
        (find (fleet_of browserless) one_fleet.fleets)
        (update_configuration browserless smaller "operator" 5 one_fleet)
update_configuration-IsConfigured_example =
    update_configuration-IsConfigured browserless limits smaller "operator" 5 one_fleet (
      record {
        ordered = omega arith;
        limited = omega arith;
        has_slot = omega arith;
        waits = omega arith;
      },
      tt,
    )

abbrev instance_row : ProviderInstance
instance_row = record {
  id = 7;
  provider = browserless;
  platform = "docker";
  endpoint = "ws://7";
  state = ready;
  capacity = 3;
  observed_at = 0;
  observation_expires_at = 900 * second;
  started_at = some 0;
  ready_at = some 0;
  draining_at = none;
  stopped_at = none;
}

abbrev one_instance : Database
one_instance = record one_fleet { instances = instance_row ∷ [] }

prepared : (prepare_scale_down browserless 7 5 one_instance).0 ≡ true
unfolding prepare_scale_down
prepared = refl

prepare_scale_down-IsRetired_example :
    IsRetired 7 5 (prepare_scale_down browserless 7 5 one_instance).1
prepare_scale_down-IsRetired_example =
    prepare_scale_down-IsRetired browserless 7 5 one_instance (refl, tt) prepared
