-- ===== src/Reconciler/Pass.antt =====
-- backend/fleet/reconciler.py: `reconcile`.
use stolosio.Prelude.{Option, none, some, List, [], find}
use stolosio.Contracts.{no_managed_fleet, Result, ok, err}
use stolosio.Tables.{ProviderFleet, Database}
use stolosio.Fleet.Policy.{ScalingDecision}
use stolosio.Fleet.Configuration.{fleet_of, evaluate, record_reconciliation}
use stolosio.Fleet.Instances.{observe_instances}
use stolosio.Reconciler.State.{
  RuntimeInstance, FleetReconciler, evaluating, observing, measuring, recording, latency_of,
  Surroundings, Operation, Pass, ReconciliationResult, Ending, reconciled, repository_failed,
  Progress, ends, goes_on,
}
use stolosio.Reconciler.Requests.{ids_of, Latencies, lifecycle_latencies}
use stolosio.Reconciler.Scaling.{Scaled, adjust}
use stolosio.Reconciler.Health.{Checks, check_instances}

abbrev pub result_of : Option Operation → Checks → Latencies → ReconciliationResult
result_of direction c l = record {
  scale_direction = direction;
  replaced_instances = c.replaced;
  ready_latencies = l.ready;
  first_assignment_latencies = l.assigned;
  unassigned_scale_requests = l.unassigned;
}

-- After `observe_instances`.
unfoldable pub conclude :
    Surroundings → Option Operation → List RuntimeInstance → Checks → Pass → Ending × Pass
unfolding lifecycle_latencies record_reconciliation
conclude w direction instances c p =
    let measured = w.others measuring p.database in
    let l =
      lifecycle_latencies w.provider (ids_of instances) c.ready_ids (λ id. w.clock (latency_of id))
        measured p.reconciler.scale_requests in
    (
      reconciled (result_of direction c l),
      record p {
        reconciler = record p.reconciler { scale_requests = l.kept };
        database =
            record_reconciliation w.provider p.controller_status (w.clock recording)
              (w.others recording measured);
      },
    )

unfoldable pub observed :
    Surroundings
    → Option Operation
    → List RuntimeInstance
    → Checks
    → Pass
    → Result Database
    → Ending × Pass
unfolding conclude
observed w direction instances c p (err e) = (repository_failed e, p)
observed w direction instances c p (ok db) =
    conclude w direction instances c (record p { database = db })

unfoldable pub after_checks :
    Surroundings → Option Operation → List RuntimeInstance → Progress Checks → Ending × Pass
unfolding observed observe_instances
after_checks w direction instances (ends e p) = (e, p)
after_checks w direction instances (goes_on c p) = observed w direction instances c p (
    observe_instances w.provider c.observations w.platform w.observation_ttl (w.clock observing)
      (w.others observing p.database))

unfoldable pub after_scaling : Surroundings → Progress Scaled → Ending × Pass
unfolding after_checks check_instances
after_scaling w (ends e p) = (e, p)
after_scaling w (goes_on (direction, instances) p) =
    after_checks w direction instances (check_instances w instances p)

abbrev begun : FleetReconciler → Database → Pass
begun r db = record { database = db; reconciler = r; calls = []; controller_status = "ready" }

unfoldable pub with_configuration :
    Surroundings → Option ProviderFleet → ScalingDecision → Pass → Ending × Pass
unfolding after_scaling adjust
with_configuration w none decision p = (repository_failed no_managed_fleet, p)
with_configuration w (some fleet) decision p = after_scaling w (adjust w fleet decision.demand p)

unfoldable pub evaluated :
    Surroundings → FleetReconciler → Database → Result (ScalingDecision × Database) → Ending × Pass
unfolding with_configuration
evaluated w r db (err e) = (repository_failed e, begun r db)
evaluated w r db (ok (decision, next)) =
    with_configuration w (find (fleet_of w.provider) next.fleets) decision (begun r next)

unfoldable pub reconcile : Surroundings → FleetReconciler → Database → Ending × Pass
unfolding evaluated evaluate
reconcile w r db =
    let found = w.others evaluating db in
    evaluated w r found (evaluate w.provider (w.clock evaluating) found)
