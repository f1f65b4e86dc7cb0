-- ===== src/Gateway/Tests.antt =====
-- Runs of the gateway on a database with one fleet of one instance with one slot.
use stolosio.Prelude.{
  ◌*◌, ◌≤◌, ◌≡◌, refl, none, some, List, [], ◌∷◌, true, false, Time, arith, second,
}
use stolosio.Contracts.{
  Key, browserless, StolosioSession, ProviderAttempt, AttemptState, automation, ok,
}
use stolosio.Tables.{Database, ProviderInstance, ProviderFleet, ready}
use stolosio.Sessions.Events.{SessionRepositorySettings}
use stolosio.Sessions.Expiry
use stolosio.Sessions.Admission.{admit}
use stolosio.Sessions.Calls
use stolosio.Sessions.Calls.{SessionCall, admits, heartbeats, opens, releases}
use stolosio.Attempts.Live.{occupied}
use stolosio.Usage.{finalize_attempt_usage}
use stolosio.Attempts.Placement.{select_instance}
use stolosio.Attempts.Expiry.{expire_stale}
use stolosio.Attempts.Enqueue.{enqueue}
use stolosio.Attempts.Claim.{claim}
use stolosio.Attempts.Progress.{finish}
use stolosio.Attempts.Occupancy.{IsRoomy}
use stolosio.Attempts.Order.{IsFirst, claim-IsFirst}
use stolosio.Attempts.Slots.{after}
use stolosio.Gateway.Calls.{GatewayCall, session_call, enqueues, claims, finishes, step, run}
use stolosio.Gateway.Safety.{occupied-run_le}

abbrev instance_row : ProviderInstance
instance_row = record {
  id = 7;
  provider = browserless;
  platform = "docker";
  endpoint = "ws://7";
  state = ready;
  capacity = 1;
  observed_at = 0;
  observation_expires_at = 900 * second;
  started_at = some 0;
  ready_at = some 0;
  draining_at = none;
  stopped_at = none;
}

abbrev fleet_row : ProviderFleet
fleet_row = record {
  provider = browserless;
  minimum_instances = 1;
  maximum_instances = 1;
  session_capacity_per_instance = 1;
  scale_down_cooldown_seconds = 60;
  max_queued_attempts = 5;
  desired_instances = 1;
  configuration_version = 1;
  enabled = true;
  last_scale_up_at = none;
  last_scale_down_at = none;
  idle_since = none;
  last_reconciled_at = none;
  controller_status = none;
  updated_at = 0;
}

abbrev empty_gateway : Database
empty_gateway = record {
  sessions = [];
  attempts = [];
  instances = instance_row ∷ [];
  fleets = fleet_row ∷ [];
  limits = [];
  rates = [];
  events = [];
  next_queue_sequence = 1;
}

abbrev client : Key → StolosioSession
client id = record {
  session_id = id;
  owner_id = 50;
  lease_token = 60;
  workload = automation;
  capture_hostname = none;
}

abbrev attempt_of : Key → Key → ProviderAttempt
attempt_of id session_id = record {
  attempt_id = id;
  session_id = session_id;
  ordinal = 1;
  provider = browserless;
  state = AttemptState.queued;
  provider_instance_id = none;
  endpoint = none;
}

abbrev settings : SessionRepositorySettings
settings = record { lease = 30 * second }

-- Two clients; the second waits for the slot, and claims it when the first has finished.
abbrev handover : List (Time × GatewayCall)
handover =
    (1, session_call (admits (client 1) "{}" none))
    ∷ (2, session_call (admits (client 2) "{}" none))
    ∷ (3, enqueues (client 1) 11 browserless "{}" "{}" none)
    ∷ (4, enqueues (client 2) 12 browserless "{}" "{}" none)
    ∷ (5, claims (client 2) (attempt_of 12 2))
    ∷ (6, finishes (attempt_of 11 1) false "client_disconnected" none none)
    ∷ (7, claims (client 2) (attempt_of 12 2))
    ∷ []

empty_gateway-IsRoomy : IsRoomy 7 browserless 1 empty_gateway
empty_gateway-IsRoomy = record {
  known = ((λ e. (refl, refl)), tt);
  distinct = tt;
  linked = tt;
  bounded = omega arith;
}

occupied-run_le_example : occupied 8 (run settings 4 empty_gateway handover) 7 ≤ 1
occupied-run_le_example =
    occupied-run_le 7 browserless 1 settings 4 empty_gateway handover 8 empty_gateway-IsRoomy

-- The slot is the second client's in the end.
handover-run : occupied 8 (run settings 4 empty_gateway handover) 7 ≡ 1
unfolding run step Calls.step admit Expiry.expire_stale enqueue expire_stale claim finish
    select_instance finalize_attempt_usage
handover-run = refl

-- The calls until the slot is free again.
abbrev finished : Database
finished = run settings 4 empty_gateway (
    (1, session_call (admits (client 1) "{}" none))
    ∷ (2, session_call (admits (client 2) "{}" none))
    ∷ (3, enqueues (client 1) 11 browserless "{}" "{}" none)
    ∷ (4, enqueues (client 2) 12 browserless "{}" "{}" none)
    ∷ (6, finishes (attempt_of 11 1) false "client_disconnected" none none)
    ∷ [])

abbrev granted : ProviderAttempt
granted = record {
  attempt_id = 12;
  session_id = 2;
  ordinal = 1;
  provider = browserless;
  state = AttemptState.acquiring;
  provider_instance_id = some 7;
  endpoint = some "ws://7";
}

claimed :
    claim (client 2) (attempt_of 12 2) 7 finished
    ≡ ok (some granted, after (claim (client 2) (attempt_of 12 2) 7 finished) finished)
unfolding run step Calls.step admit Expiry.expire_stale enqueue expire_stale claim finish
    select_instance finalize_attempt_usage
claimed = refl

claim-IsFirst_example : IsFirst (attempt_of 12 2) 7 (expire_stale browserless 7 finished)
claim-IsFirst_example =
    claim-IsFirst (client 2) (attempt_of 12 2) 7 finished
      (after (claim (client 2) (attempt_of 12 2) 7 finished) finished) granted claimed
