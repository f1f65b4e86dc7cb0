-- ===== src/Reconciler/Scaling.antt =====
-- backend/fleet/reconciler.py: the section of `reconcile` that scales the deployment.
use stolosio.Prelude.{
  ℕ, ◌+◌, ◌-◌, String, Option, none, some, List, [], ◌∷◌, ◌++◌, Bool, true, false, not, ◌&&◌, ◌||◌,
  if◌then◌else◌, ltb, ◌==◌, is_value, any, length,
}
use stolosio.Tables.{ProviderFleet, Database}
use stolosio.Fleet.Configuration.{record_reconciliation}
use stolosio.Fleet.Instances.{prepare_scale_down, cancel_scale_down}
use stolosio.Reconciler.State.{
  RuntimeInstance, FleetReconciler, preparing, cancelling, scaling, recording, Surroundings,
  Operation, up, down, configure, scale, Pass, operation_failed, Progress, ends, goes_on,
}
use stolosio.Reconciler.Requests.{bind_scale_requests}

abbrev pub capacity_changed : ProviderFleet → List RuntimeInstance → Bool
capacity_changed fleet = any (λ i.
    i.configuration_stale || not (is_value i.session_capacity fleet.session_capacity_per_instance))

-- The capacity of the first instance that tells one, or the configured one.
abbrev pub current_capacity : ProviderFleet → List RuntimeInstance → ℕ
current_capacity fleet [] = fleet.session_capacity_per_instance
current_capacity fleet (i ∷ instances) = told i.session_capacity (current_capacity fleet instances)
  where
    told : Option ℕ → ℕ → ℕ
    told none rest = rest
    told (some capacity) rest = capacity

abbrev pub wanted : ProviderFleet → ℕ → Operation
wanted fleet current =
    if current == fleet.desired_instances
    then configure
    else if ltb current fleet.desired_instances
    then up
    else down

abbrev pub next_count : ℕ → Operation → ℕ
next_count current up = current + 1
next_count current down = current - 1
next_count current _ = current

abbrev pub set_status : String → Pass → Pass
set_status status p = record p { controller_status = status }

-- The write before the exception.
abbrev pub failed_pass : Surroundings → String → Pass → Pass
failed_pass w status p = record p {
  database =
      record_reconciliation w.provider status (w.clock recording) (w.others recording p.database);
}

-- `prepare_scale_down` of the runtime's candidate.
unfoldable pub prepare : Surroundings → Option RuntimeInstance → Database → Bool × Database
unfolding prepare_scale_down
prepare w none db = (false, db)
prepare w (some candidate) db =
    prepare_scale_down w.provider candidate.instance_id (w.clock preparing) (w.others preparing db)

unfoldable pub cleared :
    Surroundings → Operation → List RuntimeInstance → Database → Bool × Database
unfolding prepare cancel_scale_down
cleared w down instances db = prepare w (w.scale_down_candidate instances) db
cleared w _ instances db = (true, cancel_scale_down w.provider (w.others cancelling db))

abbrev requested : Surroundings → Operation → FleetReconciler → FleetReconciler
requested w up r = record r {
  unbound_scale_requests =
      r.unbound_scale_requests
      ++ record {
        requested_at = w.clock scaling;
        ready_observed = false;
        assignment_observed = false;
      }
        ∷ [];
}
requested w _ r = r

-- The instances that the rest of the pass looks at, with the direction.
abbrev pub Scaled : Type 0
Scaled = Option Operation × List RuntimeInstance

abbrev relisted : Surroundings → Option Operation → Pass → Progress Scaled
relisted w direction p =
    goes_on (direction, w.second_listing)
      (record p { reconciler = bind_scale_requests w.second_listing p.reconciler })

unfoldable pub scale_deployment : Surroundings → Operation → ℕ → ℕ → Bool → Pass → Progress Scaled
scale_deployment w op replicas capacity false p =
    relisted w none (set_status "waiting_for_scale_down_drain" p)
scale_deployment w op replicas capacity true p =
    let called = record p {
      calls = p.calls ++ record { command = scale replicas capacity; database = p.database } ∷ [];
    } in
    if w.scale_fails
    then ends (operation_failed op) (failed_pass w "runtime_scale_failed" called)
    else relisted w (some op) (record called { reconciler = requested w op p.reconciler })

-- From the first listing to the second one, where there is one.
unfoldable pub adjust : Surroundings → ProviderFleet → ℕ → Pass → Progress Scaled
unfolding cleared scale_deployment bind_scale_requests
adjust w fleet demand p =
    let instances = w.first_listing in
    let current = length instances in
    let changed = capacity_changed fleet instances in
    let status = if changed && ltb 0 demand then "waiting_for_zero_demand" else "ready" in
    let bound = record p {
      reconciler = bind_scale_requests instances p.reconciler;
      controller_status = status;
    } in
    let op = wanted fleet current in
    let capacity =
      if demand == 0
      then fleet.session_capacity_per_instance
      else current_capacity fleet instances in
    if not (current == fleet.desired_instances) || (changed && demand == 0)
    then (let (free, db) = cleared w op instances p.database in
        scale_deployment w op (next_count current op) capacity free
          (record bound { database = db }))
    else goes_on (none, instances) bound
