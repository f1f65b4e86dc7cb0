-- ===== src/Reconciler/Tests.antt =====
-- A fleet of two browsers that shrinks to one, and of which one does not answer.
use stolosio.Prelude.{◌*◌, ◌≡◌, refl, none, some, [], ◌∷◌, true, false, second, map}
use stolosio.Contracts.{Key, browserless}
use stolosio.Tables.{ProviderFleet, ProviderInstance, ready, Database}
use stolosio.Reconciler.State.{RuntimeInstance, FleetReconciler, Surroundings, scale, remove, Call}
use stolosio.Reconciler.Pass.{reconcile}
use stolosio.Reconciler.Caution.{IsCareful}
use stolosio.Reconciler.Commands.{reconcile-IsCareful}
use stolosio.Reconciler.Report.{IsReported, reconcile-IsReported}

abbrev fleet : ProviderFleet
fleet = record {
  provider = browserless;
  minimum_instances = 1;
  maximum_instances = 4;
  session_capacity_per_instance = 3;
  scale_down_cooldown_seconds = 60;
  max_queued_attempts = 100;
  desired_instances = 2;
  configuration_version = 1;
  enabled = true;
  last_scale_up_at = none;
  last_scale_down_at = none;
  idle_since = some 0;
  last_reconciled_at = none;
  controller_status = none;
  updated_at = 0;
}

abbrev row : Key → ProviderInstance
row id = record {
  id = id;
  provider = browserless;
  platform = "docker";
  endpoint = "ws://browser";
  state = ready;
  capacity = 3;
  observed_at = 0;
  observation_expires_at = 900 * second;
  started_at = some 0;
  ready_at = some 0;
  draining_at = none;
  stopped_at = none;
}

abbrev two_browsers : Database
two_browsers = record {
  sessions = [];
  attempts = [];
  instances = row 7 ∷ row 8 ∷ [];
  fleets = fleet ∷ [];
  limits = [];
  rates = [];
  events = [];
  next_queue_sequence = 1;
}

abbrev browser : Key → RuntimeInstance
browser id = record {
  instance_id = id;
  started_at = some 0;
  session_capacity = some 3;
  configuration_stale = false;
}

abbrev minute_later : Surroundings
minute_later = record {
  provider = browserless;
  platform = "docker";
  endpoint = λ i. "ws://browser";
  observation_ttl = 30 * second;
  startup_timeout = 30 * second;
  first_listing = browser 7 ∷ browser 8 ∷ [];
  second_listing = browser 7 ∷ [];
  scale_down_candidate = λ instances. some (browser 8);
  scale_fails = false;
  port_open = λ i. false;
  remove_fails = λ id. false;
  clock = λ m. 61 * second;
  others = λ m db. db;
}

abbrev watching : FleetReconciler
watching = record {
  unhealthy_since = (7, 1 * second) ∷ [];
  known_instances = 7 ∷ 8 ∷ [];
  unbound_scale_requests = [];
  scale_requests = [];
}

one_less :
    map (λ (c : Call). c.command) (reconcile minute_later watching two_browsers).1.calls
    ≡ scale 1 3 ∷ remove 7 ∷ []
unfolding reconcile stolosio.Fleet.Policy.scaling_decision stolosio.Fleet.Policy.target
one_less = refl

reconcile-IsCareful_example :
    IsCareful minute_later (reconcile minute_later watching two_browsers).1.calls
reconcile-IsCareful_example =
    reconcile-IsCareful minute_later (λ m db k. k) watching two_browsers (refl, (refl, tt))

reconcile-IsReported_example :
    IsReported minute_later (reconcile minute_later watching two_browsers)
reconcile-IsReported_example = reconcile-IsReported minute_later watching two_browsers
