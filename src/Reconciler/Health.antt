-- ===== src/Reconciler/Health.antt =====
-- backend/fleet/reconciler.py: the loop of `reconcile` that checks each instance.
use stolosio.Prelude.{
  ℕ, ◌+◌, Option, none, some, List, [], ◌∷◌, ◌++◌, Bool, true, false, Time, if◌then◌else◌, leb,
}
use stolosio.Prelude.Registers.{entry, put, pop, member}
use stolosio.Contracts.{Key}
use stolosio.Tables.{FleetInstanceState, starting, ready, unhealthy}
use stolosio.Fleet.Instances.{ObservedInstance, prepare_scale_down}
use stolosio.Reconciler.State.{
  RuntimeInstance, checking, replacing, Surroundings, replace, remove, Pass, operation_failed,
  Progress, ends, goes_on,
}
use stolosio.Reconciler.Requests.{ids_of}
use stolosio.Reconciler.Scaling.{set_status, failed_pass}

-- What the loop collects.
pub record Checks : Type 0 where
  pub observations : List ObservedInstance
  pub ready_ids : List Key
  pub replaced : ℕ

abbrev pub no_checks : Checks
no_checks = record { observations = []; ready_ids = []; replaced = 0 }

abbrev pub set_since : List (Key × Time) → Pass → Pass
set_since m p = record p { reconciler = record p.reconciler { unhealthy_since = m } }

-- entries.setdefault(k, v)
abbrev set_default : Key → Time → Option Time → List (Key × Time) → List (Key × Time)
set_default id now none m = put id now m
set_default id now (some t) m = m

abbrev pub noted : Bool → Key → Time → List (Key × Time) → List (Key × Time)
noted is_ready id now m = if is_ready then pop id m else set_default id now (entry id m) m

abbrev pub is_expired : Option Time → Time → Time → Bool
is_expired none timeout now = false
is_expired (some since) timeout now = leb (since + timeout) now

abbrev observation : Surroundings → RuntimeInstance → FleetInstanceState → ObservedInstance
observation w i state = record {
  instance_id = i.instance_id;
  endpoint = w.endpoint i;
  state = state;
  started_at = i.started_at;
  session_capacity = i.session_capacity;
}

abbrev pub observe : Surroundings → RuntimeInstance → FleetInstanceState → Checks → Checks
observe w i state c = record c { observations = c.observations ++ observation w i state ∷ [] }

-- An instance that has been unhealthy for too long, by the answer of `prepare_scale_down`.
unfoldable pub replace_instance :
    Surroundings → RuntimeInstance → Bool → Checks → Pass → Progress Checks
replace_instance w i false c p =
    goes_on (observe w i unhealthy c) (set_status "waiting_for_unhealthy_instance_sessions" p)
replace_instance w i true c p =
    let called = record p {
      calls = p.calls ++ record { command = remove i.instance_id; database = p.database } ∷ [];
    } in
    if w.remove_fails i.instance_id
    then ends (operation_failed replace) (failed_pass w "runtime_replace_failed" called)
    else goes_on (record c { replaced = c.replaced + 1 })
        (set_since (pop i.instance_id p.reconciler.unhealthy_since) called)

-- One instance, by whether its port is open.
unfoldable pub check_instance :
    Surroundings → RuntimeInstance → Bool → Checks → Pass → Progress Checks
unfolding replace_instance prepare_scale_down
check_instance w i is_ready c p =
    let id = i.instance_id in
    let now = w.clock (checking id) in
    let since = noted is_ready id now p.reconciler.unhealthy_since in
    let seen = if is_ready then record c { ready_ids = id ∷ c.ready_ids } else c in
    let checked = set_since since p in
    if is_expired (entry id since) w.startup_timeout now
    then (let (free, db) =
          prepare_scale_down w.provider id (w.clock (replacing id))
            (w.others (replacing id) p.database) in
        replace_instance w i free seen (record checked { database = db }))
    else goes_on (observe w i (if is_ready then ready else starting) seen) checked

unfoldable pub check_each : Surroundings → List RuntimeInstance → Checks → Pass → Progress Checks
unfolding check_instance
check_each w [] c p = goes_on c p
check_each w (i ∷ instances) c p = elim (check_instance w i (w.port_open i) c p) [
  | ends e q ↦ ends e q
  | goes_on d q ↦ check_each w instances d q
]

abbrev keep_live : List Key → List (Key × Time) → List (Key × Time)
keep_live live [] = []
keep_live live ((id, t) ∷ m) =
    let rest = keep_live live m in if member id live then (id, t) ∷ rest else rest

-- From the forgetting of the instances that are gone to the end of the loop.
unfoldable pub check_instances : Surroundings → List RuntimeInstance → Pass → Progress Checks
unfolding check_each
check_instances w instances p =
    check_each w instances no_checks
      (set_since (keep_live (ids_of instances) p.reconciler.unhealthy_since) p)
