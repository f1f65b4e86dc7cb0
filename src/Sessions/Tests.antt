-- ===== src/Sessions/Tests.antt =====
-- The session repository's theorems at a gateway with one live session and room for two.
use stolosio.Prelude.{◌≤◌, ◌≡◌, refl, none, some, List, [], ◌∷◌, true, false, Time, arith}
use stolosio.Contracts.{Key, StolosioSession, SessionState, automation}
use stolosio.Tables.{Database, GatewaySession}
use stolosio.Sessions.Events.{SessionRepositorySettings}
use stolosio.Sessions.Admission.{active_count}
use stolosio.Sessions.Release.{release}
use stolosio.Sessions.Calls.{SessionCall, admits, heartbeats, opens, run}
use stolosio.Sessions.Capacity.{active_count-run_le}
use stolosio.Sessions.Fencing.{HasLapsed, run-HasLapsed}
use stolosio.Sessions.Idempotence.{IsReleased, release-IsReleased, release-release}

abbrev client : Key → StolosioSession
client id = record {
  session_id = id;
  owner_id = 50;
  lease_token = 60;
  workload = automation;
  capture_hostname = none;
}

abbrev open_row : GatewaySession
open_row = record {
  id = 1;
  owner_id = 50;
  lease_token = 60;
  client_reference = none;
  requested_settings = "{}";
  workload = automation;
  capture_hostname = none;
  state = SessionState.opened;
  created_at = 0;
  admitted_at = some 0;
  opened_at = some 5;
  closing_at = none;
  closed_at = none;
  lease_expires_at = some 100;
  terminal_reason = none;
}

abbrev one_session : Database
one_session = record {
  sessions = open_row ∷ [];
  attempts = [];
  instances = [];
  fleets = [];
  limits = [];
  rates = [];
  events = [];
  next_queue_sequence = 1;
}

abbrev settings : SessionRepositorySettings
settings = record { lease = 100 }

abbrev arrivals : List (Time × SessionCall)
arrivals =
    (10, admits (client 2) "{}" none)
    ∷ (20, admits (client 3) "{}" none)
    ∷ (90, heartbeats (client 2))
    ∷ (150, admits (client 4) "{}" none)
    ∷ []

abbrev late_calls : List (Time × SessionCall)
late_calls = (120, heartbeats (client 1)) ∷ (130, opens (client 1)) ∷ []

active_count-run_le_example : active_count 160 (run settings 2 one_session arrivals) ≤ 2
active_count-run_le_example =
    active_count-run_le settings 2 one_session arrivals 160
      (record { leased = ((λ e. refl), tt); bounded = omega arith })

run-HasLapsed_example : HasLapsed 1 110 (run settings 2 one_session late_calls)
run-HasLapsed_example =
    run-HasLapsed settings 2 1 110 one_session late_calls (omega arith, (omega arith, tt))
      (record { known = refl; lapsed = refl })

released : (release (client 1) false "client_disconnected" 50 one_session).0 ≡ true
unfolding release
released = refl

release-IsReleased_example :
    IsReleased (client 1) (release (client 1) false "client_disconnected" 50 one_session).1
release-IsReleased_example =
    release-IsReleased (client 1) false "client_disconnected" 50 one_session released

release-release_example :
    release
      (client 1)
      true
      "gateway_error"
      70
      (release (client 1) false "client_disconnected" 50 one_session).1
    ≡ (true, (release (client 1) false "client_disconnected" 50 one_session).1)
release-release_example =
    release-release (client 1) false true "client_disconnected" "gateway_error" 50 70 one_session
      released
