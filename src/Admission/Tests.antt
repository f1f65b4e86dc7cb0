-- ===== src/Admission/Tests.antt =====
-- A client that waits for a browser, is answered by a deadlock, and gives up.
use stolosio.Prelude.{
  ℕ, zero, suc, ◌+◌, ◌*◌, ◌≤◌, ◌<◌, ◌≡◌, refl, none, some, [], ◌∷◌, true, false, second, map, arith,
}
use stolosio.Contracts.{browserless, AttemptState, SessionState, automation}
use stolosio.Tables.{Database, GatewaySession, ProviderFleet, AcquisitionAttempt}
use stolosio.Usage.{finalize_attempt_usage}
use stolosio.Attempts.Expiry.{expire_stale}
use stolosio.Attempts.Placement.{select_instance}
use stolosio.Admission.Retry.{
  transient, Run, retry_transient, met, committed, retry_transient-commits,
}
use stolosio.Admission.Acquire.{
  Request, times_out, Circumstances, acquire_attempt, AttemptLease, Release, finishing,
  release_lease,
}
use stolosio.Admission.Settlement.{IsClosed, release_lease-IsClosed}

abbrev fleet_row : ProviderFleet
fleet_row = record {
  provider = browserless;
  minimum_instances = 0;
  maximum_instances = 1;
  session_capacity_per_instance = 1;
  scale_down_cooldown_seconds = 60;
  max_queued_attempts = 5;
  desired_instances = 0;
  configuration_version = 1;
  enabled = true;
  last_scale_up_at = none;
  last_scale_down_at = none;
  idle_since = none;
  last_reconciled_at = none;
  controller_status = none;
  updated_at = 0;
}

abbrev session_row : GatewaySession
session_row = record {
  id = 1;
  owner_id = 50;
  lease_token = 60;
  client_reference = none;
  requested_settings = "{}";
  workload = automation;
  capture_hostname = none;
  state = SessionState.admitted;
  created_at = 0;
  admitted_at = some 0;
  opened_at = none;
  closing_at = none;
  closed_at = none;
  lease_expires_at = some (30 * second);
  terminal_reason = none;
}

abbrev waiting_room : Database
waiting_room = record {
  sessions = session_row ∷ [];
  attempts = [];
  instances = [];
  fleets = fleet_row ∷ [];
  limits = [];
  rates = [];
  events = [];
  next_queue_sequence = 1;
}

abbrev request : Request
request = record {
  session = record {
    session_id = 1;
    owner_id = 50;
    lease_token = 60;
    workload = automation;
    capture_hostname = none;
  };
  attempt_id = 11;
  provider = browserless;
  resolved_settings = "{}";
  setting_sources = "{}";
  replacement_for = none;
}

abbrev calm : ℕ → Run
calm k = record { fault = none; now = 3 + k; others = λ db. db }

-- The first run meets a deadlock.
abbrev deadlocked : ℕ → Run
deadlocked zero = record { fault = some transient; now = 2; others = λ db. db }
deadlocked (suc k) = calm k

abbrev impatient : Circumstances
impatient = record {
  cancelled_early = false;
  enqueue_runs = deadlocked;
  rounds = calm ∷ calm ∷ [];
  interruption = times_out;
  cut_off = none;
  cleanup = calm 5;
}

given_up :
    map
      (λ (a : AcquisitionAttempt). a.state)
      (acquire_attempt request impatient waiting_room).1.attempts
    ≡ AttemptState.failed ∷ []
unfolding acquire_attempt select_instance expire_stale finalize_attempt_usage
given_up = refl

abbrev lease : AttemptLease
lease = record {
  attempt = record {
    attempt_id = 11;
    session_id = 1;
    ordinal = 1;
    provider = browserless;
    state = AttemptState.active;
    provider_instance_id = none;
    endpoint = none;
  };
  released = false;
}

abbrev left : Release
left = record {
  failed = false;
  reason = "client_disconnected";
  command_summary = none;
  phase_summary = none;
}

release_lease-IsClosed_example :
    IsClosed
      (release_lease deadlocked left lease (acquire_attempt request impatient waiting_room).1)
release_lease-IsClosed_example =
    release_lease-IsClosed deadlocked left lease (acquire_attempt request impatient waiting_room).1
      refl

only_first : (i : ℕ) → 0 ≤ i → i < 0 + 1 → (deadlocked i).fault ≡ some transient
only_first zero a b = refl
only_first (suc i) a b = absurd (omega arith)

retry_transient-commits_example :
    retry_transient (finishing lease left) deadlocked 3 0 waiting_room
    ≡ committed
        (met (finishing lease left) deadlocked 1 0 waiting_room)
        (finishing lease left 3 (met (finishing lease left) deadlocked 1 0 waiting_room))
retry_transient-commits_example =
    retry_transient-commits (finishing lease left) deadlocked 1 3 0 waiting_room (omega arith)
      only_first refl
