-- ===== src/Fleet/Instances.antt =====
-- backend/fleet/repository.py: what is observed of the instances, and the drain of one of them.
use stolosio.Prelude.{
  ℕ, zero, suc, ◌+◌, String, Option, none, some, List, [], ◌∷◌, Bool, true, false, not, ◌&&◌, Time,
  if◌then◌else◌, ◌==◌, find, any, count, update_where, update_row,
}
use stolosio.Contracts.{
  Key, ProviderName, same_provider, Result, ok, err, no_managed_fleet, integrity_error,
}
use stolosio.Tables.{
  ProviderFleet, ProviderInstance, FleetInstanceState, starting, ready, draining, stopped, Database,
}
use stolosio.Sessions.Live.{holds_lease}
use stolosio.Attempts.Live.{occupies}
use stolosio.Fleet.Configuration.{fleet_of}

pub record ObservedInstance : Type 0 where
  pub instance_id : Key
  pub endpoint : String
  pub state : FleetInstanceState
  pub started_at : Option Time
  pub session_capacity : Option ℕ

abbrev pub is_ready_state : FleetInstanceState → Bool
is_ready_state ready = true
is_ready_state _ = false

abbrev pub is_draining : FleetInstanceState → Bool
is_draining draining = true
is_draining _ = false

abbrev pub is_stopped : FleetInstanceState → Bool
is_stopped stopped = true
is_stopped _ = false

-- `a or b` on a number and on a time
abbrev slots_or : Option ℕ → ℕ → ℕ
slots_or none default = default
slots_or (some zero) default = default
slots_or (some (suc n)) default = suc n

abbrev time_or : Option Time → Time → Time
time_or none now = now
time_or (some t) now = t

abbrev if_given : Option Time → Option Time → Option Time
if_given none old = old
if_given (some t) old = some t

unfoldable pub new_instance :
    ProviderName → String → ℕ → Time → Time → ObservedInstance → ProviderInstance
new_instance provider platform slots ttl now o = record {
  id = o.instance_id;
  provider = provider;
  platform = platform;
  endpoint = o.endpoint;
  state = o.state;
  capacity = slots_or o.session_capacity slots;
  observed_at = now;
  observation_expires_at = now + ttl;
  started_at = some (time_or o.started_at now);
  ready_at = if is_ready_state o.state then some now else none;
  draining_at = if is_draining o.state then some now else none;
  stopped_at = none;
}

-- A drain is not undone by an observation that the instance is ready.
unfoldable pub observed_instance :
    String → ℕ → Time → Time → ObservedInstance → ProviderInstance → ProviderInstance
observed_instance platform slots ttl now o row = record row {
  platform = platform;
  endpoint = o.endpoint;
  state = if is_draining row.state && is_ready_state o.state then row.state else o.state;
  capacity = slots_or o.session_capacity slots;
  observed_at = now;
  observation_expires_at = now + ttl;
  stopped_at = none;
  started_at = if_given o.started_at row.started_at;
  ready_at =
      if is_ready_state o.state && not (is_ready_state row.state) then some now else row.ready_at;
  draining_at =
      if is_draining o.state && not (is_draining row.state) then some now else row.draining_at;
}

-- One observation. A row counts as there when it was there before the first one: a second
-- observation of a new instance violates the primary key.
unfoldable pub observe_one :
    ProviderName
    → String
    → ℕ
    → Time
    → Time
    → List ProviderInstance
    → ObservedInstance
    → List ProviderInstance
    → Option (List ProviderInstance)
unfolding observed_instance new_instance
observe_one provider platform slots ttl now locked o rows =
    if any (λ i. i.id == o.instance_id) locked
    then some
        (update_row (λ i. i.id == o.instance_id) (observed_instance platform slots ttl now o) rows)
    else if any (λ i. i.id == o.instance_id) rows
    then none
    else some (new_instance provider platform slots ttl now o ∷ rows)

unfoldable pub observe_each :
    ProviderName
    → String
    → ℕ
    → Time
    → Time
    → List ProviderInstance
    → List ObservedInstance
    → List ProviderInstance
    → Option (List ProviderInstance)
observe_each provider platform slots ttl now locked [] rows = some rows
observe_each provider platform slots ttl now locked (o ∷ rest) rows =
    elim (observe_one provider platform slots ttl now locked o rows) [
      | none ↦ none
      | some next ↦ observe_each provider platform slots ttl now locked rest next
    ]

-- The provider's instances that were not stopped and are not seen any more.
abbrev pub is_gone : ProviderName → List ObservedInstance → ProviderInstance → Bool
is_gone provider observations i =
    same_provider i.provider provider
    && (not (is_stopped i.state) && not (any (λ o. o.instance_id == i.id) observations))

abbrev pub stop_instance : Time → ProviderInstance → ProviderInstance
stop_instance now row = record row {
  state = stopped;
  stopped_at = some now;
  observation_expires_at = now;
}

observe_found :
    ProviderName
    → List ObservedInstance
    → String
    → Time
    → Time
    → Option ProviderFleet
    → Database
    → Result Database
unfolding observe_each
observe_found provider observations platform ttl now none db = err no_managed_fleet
observe_found provider observations platform ttl now (some fleet) db = go (
    observe_each provider platform fleet.session_capacity_per_instance ttl now db.instances
      observations db.instances)
  where
    go : Option (List ProviderInstance) → Result Database
    go none = err integrity_error
    go (some rows) = ok (record db {
      instances = update_where (is_gone provider observations) (stop_instance now) rows;
    })

unfoldable pub observe_instances :
    ProviderName → List ObservedInstance → String → Time → Time → Database → Result Database
unfolding observe_found
observe_instances provider observations platform ttl now db =
    observe_found provider observations platform ttl now (find (fleet_of provider) db.fleets) db

abbrev pub drained : Time → ProviderInstance → ProviderInstance
drained now row = record row { state = draining; draining_at = some (time_or row.draining_at now) }

-- The attempts on the instance whose session is live with a lease past `now`.
unfoldable pub assigned : Key → Time → Database → ℕ
assigned id now db =
    count (λ a. occupies id a && any (λ s. s.id == a.session_id && holds_lease now s) db.sessions)
      db.attempts

unfoldable pub prepare_found :
    ProviderName → Time → Option ProviderInstance → Database → Bool × Database
unfolding assigned
prepare_found provider now none db = (false, db)
prepare_found provider now (some row) db =
    if same_provider row.provider provider
    then (
      assigned row.id now db == 0,
      record db { instances = update_row (λ i. i.id == row.id) (drained now) db.instances },
    )
    else (false, db)

unfoldable pub prepare_scale_down : ProviderName → Key → Time → Database → Bool × Database
unfolding prepare_found
prepare_scale_down provider id now db =
    prepare_found provider now (find (λ i. i.id == id) db.instances) db

abbrev pub is_draining_of : ProviderName → ProviderInstance → Bool
is_draining_of provider i = same_provider i.provider provider && is_draining i.state

abbrev pub undrained : ProviderInstance → ProviderInstance
undrained row = record row { state = starting; draining_at = none }

unfoldable pub cancel_scale_down : ProviderName → Database → Database
cancel_scale_down provider db = record db {
  instances = update_where (is_draining_of provider) undrained db.instances;
}
