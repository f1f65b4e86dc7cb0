-- ===== src/Reconciler/Requests.antt =====
-- backend/fleet/reconciler.py: which instance answers a request to scale up, and after how long.
use stolosio.Prelude.{
  ℕ, ◌+◌, ◌-◌, Option, none, some, List, [], ◌∷◌, Bool, not, ◌&&◌, ◌||◌, Time, if◌then◌else◌, leb,
  ltb, is_value, is_some, map, select,
}
use stolosio.Prelude.Registers.{put, member}
use stolosio.Contracts.{Key, ProviderName, same_provider}
use stolosio.Tables.{AcquisitionAttempt, Database}
use stolosio.Reconciler.State.{RuntimeInstance, ScaleRequest, FleetReconciler}

abbrev pub ids_of : List RuntimeInstance → List Key
ids_of = map (λ i. i.instance_id)

-- sorted(ids), each once
abbrev insert_sorted : Key → List Key → List Key
insert_sorted k [] = k ∷ []
insert_sorted k (j ∷ js) =
    let rest = insert_sorted k js in
    if ltb k j then k ∷ j ∷ js else if ltb j k then j ∷ rest else j ∷ js

abbrev sorted : List Key → List Key
sorted [] = []
sorted (k ∷ ks) = insert_sorted k (sorted ks)

-- The oldest requests that are not bound go to the new instances, in the order of their ids.
abbrev bind_each :
    List Key
    → List ScaleRequest
    → List (Key × ScaleRequest)
    → List ScaleRequest × List (Key × ScaleRequest)
bind_each [] unbound bound = (unbound, bound)
bind_each (id ∷ ids) [] bound = ([], bound)
bind_each (id ∷ ids) (q ∷ rest) bound = bind_each ids rest (put id q bound)

-- `_bind_scale_requests`
unfoldable pub bind_scale_requests : List RuntimeInstance → FleetReconciler → FleetReconciler
bind_scale_requests instances r =
    let live_ids = ids_of instances in
    let new_ids = sorted (select (λ id. not (member id r.known_instances)) live_ids) in
    let (unbound, bound) = bind_each new_ids r.unbound_scale_requests r.scale_requests in
    record r {
      known_instances = live_ids;
      unbound_scale_requests = unbound;
      scale_requests = bound;
    }

-- func.min over a nullable column
abbrev min_time : Option Time → Option Time → Option Time
min_time none b = b
min_time (some a) none = some a
min_time (some a) (some b) = if leb a b then some a else some b

-- `first_assignment_times`, of one instance: when the first of its attempts was given to it.
unfoldable pub first_assignment_time : ProviderName → Key → List AcquisitionAttempt → Option Time
first_assignment_time provider id [] = none
first_assignment_time provider id (a ∷ attempts) =
    let rest = first_assignment_time provider id attempts in
    if same_provider a.provider provider && is_value a.provider_instance_id id
    then min_time a.acquiring_at rest
    else rest

-- The latencies of a pass, and the requests that it keeps.
pub record Latencies : Type 0 where
  pub ready : List Time
  pub assigned : List Time
  pub unassigned : ℕ
  pub kept : List (Key × ScaleRequest)

abbrev if_new : Bool → Time → List Time → List Time
if_new test latency rest = if test then latency ∷ rest else rest

-- One request: its latencies, each the first time that it is seen, and whether it is kept.
unfoldable pub one_latency :
    Key → ScaleRequest → Bool → Bool → Time → Option Time → Latencies → Latencies
one_latency id q is_live is_ready now assigned_at rest =
    let newly_ready = is_ready && not q.ready_observed in
    let assignment_seen = is_some assigned_at || q.assignment_observed in
    record {
      ready = if_new newly_ready (now - q.requested_at) rest.ready;
      assigned = assigned_now assigned_at rest.assigned;
      unassigned =
          if not is_live && not assignment_seen then rest.unassigned + 1 else rest.unassigned;
      kept =
          if is_live && not assignment_seen
          then (id, record q { ready_observed = q.ready_observed || is_ready }) ∷ rest.kept
          else rest.kept;
    }
  where
    assigned_now : Option Time → List Time → List Time
    assigned_now none rest = rest
    assigned_now (some t) rest = if_new (not q.assignment_observed) (t - q.requested_at) rest

-- `_lifecycle_latencies`
unfoldable pub lifecycle_latencies :
    ProviderName
    → List Key
    → List Key
    → (Key → Time)
    → Database
    → List (Key × ScaleRequest)
    → Latencies
unfolding first_assignment_time one_latency
lifecycle_latencies provider live ready_ids clock db [] = record {
  ready = [];
  assigned = [];
  unassigned = 0;
  kept = [];
}
lifecycle_latencies provider live ready_ids clock db ((id, q) ∷ requests) =
    one_latency id q (member id live) (member id ready_ids) (clock id)
      (first_assignment_time provider id db.attempts)
      (lifecycle_latencies provider live ready_ids clock db requests)
