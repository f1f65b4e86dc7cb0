-- ===== src/Reconciler/Commands.antt =====
-- The commands of a whole pass are careful.
use stolosio.Prelude.{
  ℕ, ◌+◌, ◌-◌, ◌≤◌, Option, none, some, List, [], ◌∷◌, ◌++◌, Bool, true, false, not, ◌&&◌, ◌||◌,
  ◌≡◌, refl, ◌==◌, length, find, either, arith,
}
use stolosio.Contracts.{Result, ok, err}
use stolosio.Tables.{ProviderFleet, Database}
use stolosio.Fleet.Policy.{ScalingDecision}
use stolosio.Fleet.Configuration.{fleet_of, evaluate}
use stolosio.Fleet.Instances.{observe_instances}
use stolosio.Fleet.Keys.{Keyed, prepare_scale_down-Keyed, cancel_scale_down-Keyed, evaluate-Keyed}
use stolosio.Fleet.Draining.{prepare_scale_down-IsRetired}
use stolosio.Reconciler.State.{
  RuntimeInstance, FleetReconciler, evaluating, preparing, cancelling, observing, Surroundings,
  Operation, up, down, configure, replace, scale, Pass, Progress, ends, goes_on,
}
use stolosio.Reconciler.Scaling.{
  wanted, next_count, prepare, cleared, Scaled, scale_deployment, adjust, capacity_changed,
}
use stolosio.Reconciler.Health.{Checks, check_instances}
use stolosio.Reconciler.Pass.{
  conclude, observed, after_checks, after_scaling, with_configuration, evaluated, reconcile,
}
use stolosio.Reconciler.Caution.{KeepsKeys, IsModest, IsCareful, Keeps, check_each-Keeps}

module _ (w : Surroundings) (keeps : KeepsKeys w) where
  prepare-IsModest :
      (found : Option RuntimeInstance) (n : ℕ) (db : Database)
      → w.scale_down_candidate w.first_listing ≡ found
      → Keyed db
      → (prepare w found db).0 ≡ true
      → (n ≤ length w.first_listing + 1)
      → (length w.first_listing ≤ n + 1)
      → IsModest w n (prepare w found db).1
  unfolding prepare
  prepare-IsModest none n db e k h a b = absurd (cc)
  prepare-IsModest (some c) n db e k h a b = (
    a,
    b,
    λ lt. (
      c,
      e,
      prepare_scale_down-IsRetired w.provider c.instance_id (w.clock preparing)
          (w.others preparing db) (keeps preparing db k) h,
    ),
  )

  prepare-Keyed :
      (found : Option RuntimeInstance) (db : Database) → Keyed db → Keyed (prepare w found db).1
  unfolding prepare
  prepare-Keyed none db k = k
  prepare-Keyed (some c) db k =
      prepare_scale_down-Keyed w.provider c.instance_id (w.clock preparing) (w.others preparing db)
        (keeps preparing db k)

  cleared-Keyed :
      (op : Operation) (instances : List RuntimeInstance) (db : Database)
      → Keyed db
      → Keyed (cleared w op instances db).1
  unfolding cleared
  cleared-Keyed up instances db k =
      cancel_scale_down-Keyed w.provider (w.others cancelling db) (keeps cancelling db k)
  cleared-Keyed configure instances db k =
      cancel_scale_down-Keyed w.provider (w.others cancelling db) (keeps cancelling db k)
  cleared-Keyed replace instances db k =
      cancel_scale_down-Keyed w.provider (w.others cancelling db) (keeps cancelling db k)
  cleared-Keyed down instances db k = prepare-Keyed (w.scale_down_candidate instances) db k

  cleared-IsModest :
      (op : Operation) (db : Database)
      → Keyed db
      → (cleared w op w.first_listing db).0 ≡ true
      → IsModest w (next_count (length w.first_listing) op) (cleared w op w.first_listing db).1
  unfolding cleared
  cleared-IsModest up db k h = (omega arith, omega arith, λ lt. absurd (omega arith))
  cleared-IsModest configure db k h = (omega arith, omega arith, λ lt. absurd (omega arith))
  cleared-IsModest replace db k h = (omega arith, omega arith, λ lt. absurd (omega arith))
  cleared-IsModest down db k h =
      prepare-IsModest (w.scale_down_candidate w.first_listing) (length w.first_listing - 1) db refl
        k h (omega arith) (omega arith)

  scale_deployment-Keeps :
      (op : Operation) (n capacity : ℕ) (free : Bool) (p : Pass)
      → Keyed p.database
      → p.calls ≡ []
      → (free ≡ true → IsModest w n p.database)
      → Keeps w (scale_deployment w op n capacity free p)
  unfolding scale_deployment
  scale_deployment-Keeps op n capacity false p k e m = record {
    keyed = k;
    careful = rw e (record { cautious = tt; single = omega arith });
  }
  scale_deployment-Keeps op n capacity true p k e m =
      let careful : IsCareful w
          (p.calls ++ record { command = scale n capacity; database = p.database } ∷ []) =
        rw e (record { cautious = (m refl, tt); single = omega arith }) in
      either (Keeps w) w.scale_fails careful (record { keyed = k; careful = careful })

  adjust-Keeps :
      (fleet : ProviderFleet) (demand : ℕ) (p : Pass)
      → Keyed p.database
      → p.calls ≡ []
      → Keeps w (adjust w fleet demand p)
  unfolding adjust
  adjust-Keeps fleet demand p k e =
      let current = length w.first_listing in
      let op = wanted fleet current in
      let changed = capacity_changed fleet w.first_listing in
      either (Keeps w) (not (current == fleet.desired_instances) || (changed && demand == 0))
        (scale_deployment-Keeps op (next_count current op) _
          (cleared w op w.first_listing p.database).0 _
          (cleared-Keyed op w.first_listing p.database k) e (cleared-IsModest op p.database k))
        (record { keyed = k; careful = rw e (record { cautious = tt; single = omega arith }) })

  observed-IsCareful :
      (direction : Option Operation) (instances : List RuntimeInstance) (c : Checks) (p : Pass)
      (r : Result Database)
      → IsCareful w p.calls
      → IsCareful w (observed w direction instances c p r).1.calls
  unfolding observed conclude
  observed-IsCareful direction instances c p (err e) g = g
  observed-IsCareful direction instances c p (ok db) g = g

  after_checks-IsCareful :
      (direction : Option Operation) (instances : List RuntimeInstance) (r : Progress Checks)
      → Keeps w r
      → IsCareful w (after_checks w direction instances r).1.calls
  unfolding after_checks
  after_checks-IsCareful direction instances (ends e p) g = g
  after_checks-IsCareful direction instances (goes_on c p) g =
      observed-IsCareful direction instances c p
        (observe_instances w.provider c.observations w.platform w.observation_ttl
          (w.clock observing) (w.others observing p.database))
        g.careful

  after_scaling-IsCareful :
      (r : Progress Scaled) → Keeps w r → IsCareful w (after_scaling w r).1.calls
  unfolding after_scaling check_instances
  after_scaling-IsCareful (ends e p) g = g
  after_scaling-IsCareful (goes_on (direction, instances) p) g =
      after_checks-IsCareful direction instances _
        (check_each-Keeps w keeps instances _ _ (record { keyed = g.keyed; careful = g.careful }))

  with_configuration-IsCareful :
      (fleet : Option ProviderFleet) (decision : ScalingDecision) (p : Pass)
      → Keyed p.database
      → p.calls ≡ []
      → IsCareful w (with_configuration w fleet decision p).1.calls
  unfolding with_configuration
  with_configuration-IsCareful none decision p k e =
      rw e (record { cautious = tt; single = omega arith })
  with_configuration-IsCareful (some fleet) decision p k e =
      after_scaling-IsCareful (adjust w fleet decision.demand p)
        (adjust-Keeps fleet decision.demand p k e)

  evaluated-IsCareful :
      (r : FleetReconciler) (db : Database) (answer : Result (ScalingDecision × Database))
      → ((decision : ScalingDecision) (next : Database) → answer ≡ ok (decision, next) → Keyed next)
      → IsCareful w (evaluated w r db answer).1.calls
  unfolding evaluated
  evaluated-IsCareful r db (err e) k = record { cautious = tt; single = omega arith }
  evaluated-IsCareful r db (ok (decision, next)) k =
      with_configuration-IsCareful (find (fleet_of w.provider) next.fleets) decision _
        (k decision next refl) refl

  -- Where the instances have different keys, whatever other processes do and whatever the runtime
  -- answers: a pass scales the deployment once at most, by one instance at most, and to fewer only
  -- where the runtime's candidate serves no live session and no selection chooses it; and each
  -- instance that it removes had its port closed, serves no live session and is chosen by none. All
  -- this holds in the database that the pass's last transaction before the command has left.
  pub reconcile-IsCareful :
      (r : FleetReconciler) (db : Database) → Keyed db → IsCareful w (reconcile w r db).1.calls
  unfolding reconcile
  reconcile-IsCareful r db k =
      evaluated-IsCareful r (w.others evaluating db)
        (evaluate w.provider (w.clock evaluating) (w.others evaluating db))
        (λ decision next e.
          evaluate-Keyed w.provider (w.clock evaluating) (w.others evaluating db) decision next e
            (keeps evaluating db k))
