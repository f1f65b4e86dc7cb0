-- ===== src/Pacing/Tests.antt =====
-- The theorems on the domain pacing, at a domain that two captures want at once.
use stolosio.Prelude.{
  String, str_eq, Option, Bool, false, max, ◌/◌, ◌+◌, find, ◌*◌, ◌≤◌, ◌≡◌, refl, none, some, List,
  [], ◌∷◌, true, Time, second, arith, count,
}
use stolosio.Pacing.Contracts.{
  default_settings, Policy, Reason, Observation, Outcome, Lease, throttled, healthy, RetryAfter,
  finite,
}
use stolosio.Pacing.Controller.{update}
use stolosio.Pacing.Evidence.{CaptureResult, pacing_observation}
use stolosio.Pacing.Attribution.{update-Elsewhere, update-throttled}
use stolosio.Pacing.Bounds.{IsWithin, update-IsWithin}
use stolosio.Pacing.Generations.{IsOrderly, update-IsOrderly}
use stolosio.Pacing.Tables.{PacingDatabase, DomainPacingState}
use stolosio.Pacing.Refresh.{configuration}
use stolosio.Pacing.Acquire.{acquire, of_host, granted, leases_host}
use stolosio.Pacing.Soundness.{IsSound}
use stolosio.Pacing.Calls.{PacingCall, acquires, releases, requests_reset, step, run, committed}
use stolosio.Pacing.Laws.{run-IsSound}
use stolosio.Pacing.Capacity.{granted-run_le}
use stolosio.Pacing.Distance.{acquire_spaced_apart}
use stolosio.Pacing.Retries.{release_once}
use stolosio.Pacing.Release.{release}

abbrev learned_policy : Policy
learned_policy = record {
  concurrency = 5;
  spacing_seconds = 800000;
  expires_at = 900 * second;
  cooldown_until = none;
  healthy_samples = 4;
  concurrency_samples = 2;
  overload_samples = 1;
  generation = 7;
  reason = Reason.healthy_at_limit;
  adjusted_at = some 0;
}

abbrev refused_capture : Observation
refused_capture = record { outcome = throttled; retry_after_seconds = some (finite (90 * second)) }

learned_policy-IsWithin : IsWithin default_settings learned_policy
learned_policy-IsWithin = record {
  one = omega arith;
  concurrency = omega arith;
  low = omega arith;
  high = omega arith;
}

update-IsWithin_example :
    IsWithin default_settings
      (update default_settings learned_policy refused_capture second true false 7)
update-IsWithin_example =
    update-IsWithin default_settings learned_policy refused_capture second true false 7
      learned_policy-IsWithin

update-IsOrderly_example :
    IsOrderly 6 learned_policy
      (update default_settings learned_policy refused_capture second true false 6)
update-IsOrderly_example =
    update-IsOrderly default_settings learned_policy refused_capture second true false 6

abbrev fresh_database : PacingDatabase
fresh_database = record {
  settings = none;
  states = [];
  leases = [];
  requests = [];
  adjustments = [];
}

fresh_database-IsSound : IsSound fresh_database
unfolding configuration
fresh_database-IsSound = record {
  settings = record {
    one = omega arith;
    concurrency = omega arith;
    low = omega arith;
    high = omega arith;
  };
  rows = tt;
}

abbrev captures : List (Time × PacingCall)
captures =
    (10, acquires 1 40 (300 * second) 101 9)
    ∷ (20, acquires 1 41 (300 * second) 102 19)
    ∷ (2 * second, acquires 1 42 (300 * second) 103 second)
    ∷ (3 * second, releases (record { id = 101; hostname = 1 }) (some refused_capture))
    ∷ (4 * second, requests_reset 1)
    ∷ []

run-IsSound_example : IsSound (run fresh_database captures)
run-IsSound_example = run-IsSound fresh_database captures fresh_database-IsSound

abbrev first_capture : List (Time × PacingCall)
first_capture = (10, acquires 1 40 (300 * second) 101 9) ∷ []

second_capture :
    (acquire 1 42 (300 * second) 103 second (2 * second) (run fresh_database first_capture)).0
    ≡ granted (record { id = 103; hostname = 1 })
unfolding acquire run step stolosio.Pacing.Contracts.model_validate
    stolosio.Pacing.Acquire.acquire_row
second_capture = refl

granted-run_le_example :
    count
      (leases_host 1)
      (acquire 1 42
        (300 * second)
        103
        second
        (2 * second)
        (run fresh_database first_capture)).1.leases
    ≤ (configuration (run fresh_database first_capture)).settings.maximum_concurrency
granted-run_le_example =
    granted-run_le fresh_database first_capture 1 42 (300 * second) 103 second (2 * second)
      (record { id = 103; hostname = 1 }) fresh_database-IsSound second_capture

abbrev first_row : DomainPacingState
first_row = record {
  hostname = 1;
  policy = record {
    concurrency = 2;
    spacing_seconds = second;
    expires_at = 9 + 86400 * second;
    cooldown_until = none;
    healthy_samples = 0;
    concurrency_samples = 0;
    overload_samples = 0;
    generation = 0;
    reason = Reason.default;
    adjusted_at = none;
  };
  next_start_at = 10 + second;
  last_started_at = some 10;
  reset_requested = false;
  spacing_refused_at = none;
  settings_version = 1;
}

abbrev too_early : List (Time × PacingCall)
too_early = (20, acquires 1 41 (300 * second) 102 19) ∷ []

first_granted :
    (acquire 1 40 (300 * second) 101 9 10 fresh_database).0
    ≡ granted (record { id = 101; hostname = 1 })
unfolding acquire stolosio.Pacing.Contracts.model_validate stolosio.Pacing.Acquire.acquire_row
first_granted = refl

first_row_found :
    find (of_host 1) (acquire 1 40 (300 * second) 101 9 10 fresh_database).1.states ≡ some first_row
unfolding acquire stolosio.Pacing.Contracts.model_validate stolosio.Pacing.Acquire.acquire_row
first_row_found = refl

next_granted :
    (acquire 1 42
      (300 * second)
      103
      second
      (2 * second)
      (run (acquire 1 40 (300 * second) 101 9 10 fresh_database).1 too_early)).0
    ≡ granted (record { id = 103; hostname = 1 })
unfolding acquire run step stolosio.Pacing.Contracts.model_validate
    stolosio.Pacing.Acquire.acquire_row
next_granted = refl

acquire_spaced_apart_example : 10 + second ≤ 2 * second
acquire_spaced_apart_example =
    acquire_spaced_apart 1 40 42 (300 * second) (300 * second) 101 103 9 second 10 (2 * second)
      fresh_database (record { id = 101; hostname = 1 }) (record { id = 103; hostname = 1 })
      too_early first_row first_granted first_row_found next_granted

abbrev held : Lease
held = record { id = 101; hostname = 1 }

abbrev one_lease : PacingDatabase
one_lease = (acquire 1 40 (300 * second) 101 9 10 fresh_database).1

abbrev after_release : PacingDatabase
after_release = committed (release held (some refused_capture) second one_lease) one_lease

released : release held (some refused_capture) second one_lease ≡ some after_release
unfolding release acquire stolosio.Pacing.Contracts.model_validate
    stolosio.Pacing.Acquire.acquire_row stolosio.Pacing.Release.learn
released = refl

release_once_example :
    release held (some refused_capture) (2 * second) after_release ≡ some after_release
release_once_example =
    release_once held (some refused_capture) (some refused_capture) second (2 * second) one_lease
      after_release released

abbrev on_example : Option String → Bool
on_example none = false
on_example (some url) = str_eq url "https://example.com/"

abbrev redirected : CaptureResult
redirected = record {
  attempts =
      record {
        status_code = some 429;
        final_url = some "https://other.example/";
        retry_after_seconds = none;
      }
      ∷ [];
  final_url = some "https://other.example/";
  failure = none;
}

abbrev retried : CaptureResult
retried = record redirected {
  attempts =
      record {
        status_code = some 429;
        final_url = some "https://example.com/";
        retry_after_seconds = some (finite second);
      }
      ∷ redirected.attempts;
}

update-Elsewhere_example :
    update default_settings learned_policy
      (pacing_observation on_example redirected)
      second
      true
      false
      7
    ≡ learned_policy
update-Elsewhere_example =
    update-Elsewhere on_example default_settings learned_policy second true false redirected 7
      (refl, tt) refl

update-throttled_example :
    (update default_settings learned_policy
      (pacing_observation on_example retried)
      second
      true
      false
      learned_policy.generation).concurrency
    ≡ max 1 (learned_policy.concurrency / 2)
update-throttled_example =
    update-throttled on_example default_settings learned_policy second true false retried refl
