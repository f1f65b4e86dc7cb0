-- ===== src/Reconciler/Report.antt =====
-- What a pass answers is what it has told the runtime to do.
use stolosio.Prelude.{
  ℕ, ◌+◌, ◌-◌, Option, none, some, List, [], ◌∷◌, ◌++◌, Bool, true, false, not, ◌&&◌, ◌||◌, ◌≡◌,
  refl, ap, ltb, ◌==◌, length, find, count, either, arith,
}
use stolosio.Prelude.Registers.{entry}
use stolosio.Contracts.{Key, Result, ok, err}
use stolosio.Tables.{ProviderFleet, Database}
use stolosio.Fleet.Policy.{ScalingDecision}
use stolosio.Fleet.Configuration.{fleet_of, evaluate}
use stolosio.Fleet.Instances.{prepare_scale_down, observe_instances}
use stolosio.Reconciler.State.{
  RuntimeInstance, FleetReconciler, evaluating, checking, replacing, observing, Surroundings,
  Operation, up, down, configure, replace, Command, scale, remove, Call, Pass, Ending, reconciled,
  operation_failed, repository_failed, Progress, ends, goes_on,
}
use stolosio.Reconciler.Scaling.{
  wanted, next_count, cleared, Scaled, scale_deployment, adjust, capacity_changed,
}
use stolosio.Reconciler.Health.{
  Checks, noted, is_expired, replace_instance, check_instance, check_each, check_instances,
}
use stolosio.Reconciler.Pass.{
  observed, after_checks, after_scaling, with_configuration, evaluated, reconcile,
}
use stolosio.Reconciler.Caution.{is_scale}

-- The number of instances that are removed, and the sizes that the deployment is scaled to.
abbrev pub removals : List Call → ℕ
removals = count (λ c. not (is_scale c))

abbrev pub with_size : Command → List ℕ → List ℕ
with_size (scale n capacity) rest = n ∷ rest
with_size (remove id) rest = rest

abbrev pub sizes : List Call → List ℕ
sizes [] = []
sizes (c ∷ calls) = with_size c.command (sizes calls)

-- What a direction says of a deployment that had so many instances: one more, one less, the same
-- number again with another configuration, or no command.
abbrev pub told : ℕ → Option Operation → List ℕ
told current none = []
told current (some up) = (current + 1) ∷ []
told current (some down) = (current - 1) ∷ []
told current (some configure) = current ∷ []
told current (some replace) = []

abbrev pub Matches : Surroundings → Option Operation → ℕ → List Call → Type 0
Matches w direction n calls =
    (sizes calls ≡ told (length w.first_listing) direction) × (removals calls ≡ n)

removals-append :
    (xs : List Call) (id : Key) (db : Database)
    → (removals (xs ++ record { command = remove id; database = db } ∷ []) ≡ removals xs + 1)
      × (sizes (xs ++ record { command = remove id; database = db } ∷ []) ≡ sizes xs)
removals-append [] id db = (refl, refl)
removals-append (x ∷ xs) id db =
    let (a, b) = removals-append xs id db in (ground arith, ap (with_size x.command) b)

-- Of a pass that ends as it should: the deployment was scaled once, to the size that the answered
-- direction says, or not at all where there is none; and as many instances were removed as it
-- answers.
abbrev pub IsReported : Surroundings → Ending × Pass → Type 0
IsReported w (reconciled result, p) =
    Matches w result.scale_direction result.replaced_instances p.calls
IsReported w (operation_failed op, p) = Unit
IsReported w (repository_failed e, p) = Unit

module _ (w : Surroundings) (direction : Option Operation) where
  abbrev Counts : Progress Checks → Type 0
  Counts (ends e p) = IsReported w (e, p)
  Counts (goes_on c p) = Matches w direction c.replaced p.calls

  replace_instance-Counts :
      (i : RuntimeInstance) (free : Bool) (c : Checks) (p : Pass)
      → Matches w direction c.replaced p.calls
      → Counts (replace_instance w i free c p)
  unfolding replace_instance
  replace_instance-Counts i false c p m = m
  replace_instance-Counts i true c p m =
      let (a, b) = removals-append p.calls i.instance_id p.database in
      either Counts (w.remove_fails i.instance_id) tt (rw b m.0, rw a (ground (arith, m.1)))

  check_instance-Counts :
      (i : RuntimeInstance) (is_ready : Bool) (c : Checks) (p : Pass)
      → Matches w direction c.replaced p.calls
      → Counts (check_instance w i is_ready c p)
  unfolding check_instance
  check_instance-Counts i true c p m =
      either Counts
        (is_expired
          (entry i.instance_id (
            noted true i.instance_id (w.clock (checking i.instance_id))
              p.reconciler.unhealthy_since))
          w.startup_timeout (w.clock (checking i.instance_id)))
        (replace_instance-Counts i
          (prepare_scale_down w.provider i.instance_id (w.clock (replacing i.instance_id))
            (w.others (replacing i.instance_id) p.database)).0
          _ _ m)
        m
  check_instance-Counts i false c p m =
      either Counts
        (is_expired
          (entry i.instance_id (
            noted false i.instance_id (w.clock (checking i.instance_id))
              p.reconciler.unhealthy_since))
          w.startup_timeout (w.clock (checking i.instance_id)))
        (replace_instance-Counts i
          (prepare_scale_down w.provider i.instance_id (w.clock (replacing i.instance_id))
            (w.others (replacing i.instance_id) p.database)).0
          _ _ m)
        m

  and_then :
      (instances : List RuntimeInstance) (r : Progress Checks)
      → Counts r
      → ((c : Checks) (p : Pass)
          → Matches w direction c.replaced p.calls
          → Counts (check_each w instances c p))
      → Counts (elim r [ ends e q ↦ ends e q | goes_on d q ↦ check_each w instances d q ])
  and_then instances (ends e q) k next = k
  and_then instances (goes_on d q) k next = next d q k

  check_each-Counts :
      (instances : List RuntimeInstance) (c : Checks) (p : Pass)
      → Matches w direction c.replaced p.calls
      → Counts (check_each w instances c p)
  unfolding check_each
  check_each-Counts [] c p m = m
  check_each-Counts (i ∷ instances) c p m =
      and_then instances (check_instance w i (w.port_open i) c p)
        (check_instance-Counts i (w.port_open i) c p m) (check_each-Counts instances)

  after_checks-IsReported :
      (instances : List RuntimeInstance) (r : Progress Checks)
      → Counts r
      → IsReported w (after_checks w direction instances r)
  unfolding after_checks
  after_checks-IsReported instances (ends e p) k = k
  after_checks-IsReported instances (goes_on c p) k = at (
      observe_instances w.provider c.observations w.platform w.observation_ttl (w.clock observing)
        (w.others observing p.database))
    where
      at : (r : Result Database) → IsReported w (observed w direction instances c p r)
      at (err e) = tt
      at (ok db) = k

module _ (w : Surroundings) where
  Tells : Progress Scaled → Type 0
  Tells (ends e p) = IsReported w (e, p)
  Tells (goes_on (direction, instances) p) = Matches w direction 0 p.calls

  scale_deployment-Tells :
      (op : Operation) (n capacity : ℕ) (free : Bool) (p : Pass)
      → p.calls ≡ []
      → n ∷ [] ≡ told (length w.first_listing) (some op)
      → Tells (scale_deployment w op n capacity free p)
  unfolding scale_deployment Tells
  scale_deployment-Tells op n capacity false p e m = rw e (refl, refl)
  scale_deployment-Tells op n capacity true p e m = either Tells w.scale_fails tt (rw e (m, refl))

  -- The number of instances that is asked for is the one that the direction says.
  wanted-told :
      (fleet : ProviderFleet) (current : ℕ)
      → next_count current (wanted fleet current) ∷ [] ≡ told current (some (wanted fleet current))
  wanted-told fleet current =
      either (λ op. next_count current op ∷ [] ≡ told current (some op))
        (current == fleet.desired_instances) refl
        (either (λ op. next_count current op ∷ [] ≡ told current (some op))
          (ltb current fleet.desired_instances) refl refl)

  adjust-Tells :
      (fleet : ProviderFleet) (demand : ℕ) (p : Pass)
      → p.calls ≡ []
      → Tells (adjust w fleet demand p)
  unfolding adjust Tells
  adjust-Tells fleet demand p e =
      let current = length w.first_listing in
      let op = wanted fleet current in
      either Tells
        (not (current == fleet.desired_instances)
          || (capacity_changed fleet w.first_listing && demand == 0))
        (scale_deployment-Tells op (next_count current op) _
          (cleared w op w.first_listing p.database).0 _ e (wanted-told fleet current))
        (rw e (refl, refl))

  after_scaling-IsReported : (r : Progress Scaled) → Tells r → IsReported w (after_scaling w r)
  unfolding after_scaling check_instances Tells
  after_scaling-IsReported (ends e p) k = k
  after_scaling-IsReported (goes_on (direction, instances) p) k =
      after_checks-IsReported w direction instances _
        (check_each-Counts w direction instances _ _ k)

  with_configuration-IsReported :
      (fleet : Option ProviderFleet) (decision : ScalingDecision) (p : Pass)
      → p.calls ≡ []
      → IsReported w (with_configuration w fleet decision p)
  unfolding with_configuration
  with_configuration-IsReported none decision p e = tt
  with_configuration-IsReported (some fleet) decision p e =
      after_scaling-IsReported (adjust w fleet decision.demand p)
        (adjust-Tells fleet decision.demand p e)

  -- Where a pass answers a result, whatever the runtime and other processes do: with the direction
  -- `up`, `down` or `configure` it told the runtime once to scale, to one instance more than the first
  -- listing has, to one less, or to as many; without a direction it did not tell it to scale; and the
  -- number of instances that it told it to remove is the result's.
  pub reconcile-IsReported : (r : FleetReconciler) (db : Database) → IsReported w (reconcile w r db)
  unfolding reconcile evaluated
  reconcile-IsReported r db = at (evaluate w.provider (w.clock evaluating) (w.others evaluating db))
    where
      at :
          (answer : Result (ScalingDecision × Database))
          → IsReported w (evaluated w r (w.others evaluating db) answer)
      at (err e) = tt
      at (ok (decision, next)) =
          with_configuration-IsReported (find (fleet_of w.provider) next.fleets) decision _ refl
