-- ===== src/Fleet/Permits.antt =====
-- The limits set for a fleet: `ensure`, `update_configuration` and `_validate` of
-- backend/fleet/repository.py.
use stolosio.Prelude.{
  ℕ, ◌+◌, ◌≤◌, ◌≡◌, refl, true, false, ◌||◌, any, by_test, Option, none, some, Time, All, String,
  Bool-cases, inl, inr, find, update_row, arith,
}
use stolosio.Prelude.Counts.{All-update_row}
use stolosio.Prelude.Writes.{find-update_row, find-test}
use stolosio.Contracts.{
  ProviderName, browserless, browserless_cloud, same_provider, Result, ok, err, invalid_limits,
}
use stolosio.Tables.{ProviderFleet, Database}
use stolosio.Fleet.Configuration.{
  fleet_of, FleetLimits, validate, new_fleet, ensure_fleet, FleetChanges, FleetConfigurationEvent,
  updated_limits, with_limits, update_found, update_configuration,
}

-- What `_validate` asks of a fleet's limits.
pub record IsPermitted (minimum maximum capacity cooldown : ℕ) : Type 0 where
  pub ordered : minimum ≤ maximum
  pub limited : maximum ≤ 100
  pub has_slot : 1 ≤ capacity
  pub waits : 1 ≤ cooldown

abbrev pub HasPermittedLimits : ProviderFleet → Type 0
HasPermittedLimits row =
    IsPermitted row.minimum_instances row.maximum_instances row.session_capacity_per_instance
      row.scale_down_cooldown_seconds

abbrev pub ArePermitted : FleetLimits → Type 0
ArePermitted l =
    IsPermitted l.minimum_instances l.maximum_instances l.session_capacity_per_instance
      l.scale_down_cooldown_seconds

validate-ArePermitted : (l : FleetLimits) → validate l ≡ true → ArePermitted l
unfolding validate
validate-ArePermitted l t = record {
  ordered = ground arith;
  limited = ground arith;
  has_slot = ground arith;
  waits = ground arith;
}

validate-refuses : (l : FleetLimits) → validate l ≡ false → ¬ ArePermitted l
unfolding validate
validate-refuses l f p =
    let ordered = p.ordered in
    let limited = p.limited in let has_slot = p.has_slot in let waits = p.waits in ground arith

-- A value that may be given: what is given stands, and without it the old one.
abbrev pub Took {ℓ} : {A : Type ℓ} → Option A → A → A → Type ℓ
Took none old new = new ≡ old
Took (some value) old new = new ≡ value

-- The row of a fleet that was changed.
pub record IsChanged (c : FleetChanges) (old new : ProviderFleet) : Type 0 where
  pub minimum : Took c.minimum_instances old.minimum_instances new.minimum_instances
  pub maximum : Took c.maximum_instances old.maximum_instances new.maximum_instances
  pub capacity :
      Took c.session_capacity_per_instance old.session_capacity_per_instance
        new.session_capacity_per_instance
  pub cooldown :
      Took c.scale_down_cooldown_seconds old.scale_down_cooldown_seconds
        new.scale_down_cooldown_seconds
  pub queue : Took c.max_queued_attempts old.max_queued_attempts new.max_queued_attempts
  pub enabled : Took c.enabled old.enabled new.enabled
  pub version : new.configuration_version ≡ old.configuration_version + 1
  pub desired : new.desired_instances ≡ old.desired_instances

abbrev pub IsStored : FleetChanges → Option ProviderFleet → Option ProviderFleet → Type 0
IsStored c none after = after ≡ none
IsStored c (some old) after = (new : ProviderFleet) × (after ≡ some new) × IsChanged c old new

-- A change of a fleet whose row is `found`, by what it answers: every row's limits are permitted and
-- the fleet's row has what was given; or the limits that it would have had are not permitted.
abbrev pub IsUpdated :
    ProviderName
    → FleetChanges
    → Option ProviderFleet
    → Result (Option FleetConfigurationEvent × Database)
    → Type 0
IsUpdated provider c found (ok (event, after)) =
    All HasPermittedLimits after.fleets × IsStored c found (find (fleet_of provider) after.fleets)
IsUpdated provider c found (err e) =
    (e ≡ invalid_limits)
    × ((row : ProviderFleet) × (found ≡ some row) × (¬ ArePermitted (updated_limits row c)))

-- The set-up of a fleet, by what it answers: every row's limits are permitted and the provider has a
-- row; or the given limits are not permitted.
abbrev pub IsSetUp : ProviderName → FleetLimits → Result Database → Type 0
IsSetUp provider l (ok after) =
    All HasPermittedLimits after.fleets × (any (fleet_of provider) after.fleets ≡ true)
IsSetUp provider l (err e) = (e ≡ invalid_limits) × (¬ ArePermitted l)

taken {ℓ} :
    {A : Type ℓ} (value : Option A) (old : A) (chosen : A)
    → (value ≡ none → chosen ≡ old)
    → ((v : A) → value ≡ some v → chosen ≡ v)
    → Took value old chosen
taken none old chosen n h = n refl
taken (some v) old chosen n h = h v refl

with_limits-IsChanged :
    (row : ProviderFleet) (c : FleetChanges) (now : Time)
    → IsChanged c row (with_limits (updated_limits row c) now row)
unfolding with_limits updated_limits
with_limits-IsChanged row c now = record {
  minimum = taken _ _ _ (λ e. rw e refl) (λ v e. rw e refl);
  maximum = taken _ _ _ (λ e. rw e refl) (λ v e. rw e refl);
  capacity = taken _ _ _ (λ e. rw e refl) (λ v e. rw e refl);
  cooldown = taken _ _ _ (λ e. rw e refl) (λ v e. rw e refl);
  queue = taken _ _ _ (λ e. rw e refl) (λ v e. rw e refl);
  enabled = taken _ _ _ (λ e. rw e refl) (λ v e. rw e refl);
  version = refl;
  desired = refl;
}

update_found-IsUpdated :
    (provider : ProviderName) (c : FleetChanges) (actor : String) (now : Time)
    (found : Option ProviderFleet) (db : Database)
    → find (fleet_of provider) db.fleets ≡ found
    → All HasPermittedLimits db.fleets
    → IsUpdated provider c found (update_found provider c actor now found db)
unfolding update_found with_limits
update_found-IsUpdated provider c actor now none db e a = (a, e)
update_found-IsUpdated provider c actor now (some row) db e a =
    let l = updated_limits row c in
    elim (Bool-cases (validate l)) [
      | inl t ↦ rw t (
        All-update_row HasPermittedLimits (fleet_of provider) (with_limits l now)
            (λ x p q. limited x (validate-ArePermitted l t)) db.fleets a,
        (with_limits l now row, stored, with_limits-IsChanged row c now),
      )
      | inr t ↦ rw t (refl, (row, refl, validate-refuses l t))
    ]
  where
    limited :
        (x : ProviderFleet)
        → ArePermitted (updated_limits row c)
        → HasPermittedLimits (with_limits (updated_limits row c) now x)
    limited x p = p

    same_fleet : fleet_of provider (with_limits (updated_limits row c) now row) ≡ true
    same_fleet = find-test (fleet_of provider) db.fleets e

    stored :
        find
          (fleet_of provider)
          (update_row (fleet_of provider) (with_limits (updated_limits row c) now) db.fleets)
        ≡ some (with_limits (updated_limits row c) now row)
    stored =
        find-update_row (fleet_of provider) (with_limits (updated_limits row c) now) row db.fleets e
          same_fleet

ensure_fleet-IsSetUp :
    (provider : ProviderName) (l : FleetLimits) (now : Time) (db : Database)
    → All HasPermittedLimits db.fleets
    → IsSetUp provider l (ensure_fleet provider l now db)
unfolding ensure_fleet new_fleet
ensure_fleet-IsSetUp provider l now db a = elim (Bool-cases (validate l)) [
  | inl t ↦ rw t (
      by_test
        (λ (after : Database).
          All HasPermittedLimits after.fleets × (any (fleet_of provider) after.fleets ≡ true))
        (any (fleet_of provider) db.fleets) (λ has. (a, has))
        (λ n. ((validate-ArePermitted l t, a), own provider)))
  | inr t ↦ rw t (refl, validate-refuses l t)
]
  where
    own : (p : ProviderName) → (same_provider p p || any (fleet_of p) db.fleets) ≡ true
    own browserless = refl
    own browserless_cloud = refl

-- Where the limits of every fleet are permitted (the minimum is no larger than the maximum, the
-- maximum is at most 100, an instance has a slot, and the cooldown is a second or more), they are
-- after a fleet is set up with any limits, which then has a row, and after an operator's changes of
-- one, whatever they are, whose row then has each given value, its old values for the rest and the
-- next version; and either call is refused only for limits that are not permitted.
pub update_configuration-IsConfigured :
    (provider : ProviderName) (l : FleetLimits) (c : FleetChanges) (actor : String) (now : Time)
    (db : Database)
    → All HasPermittedLimits db.fleets
    → IsSetUp provider l (ensure_fleet provider l now db)
      × IsUpdated provider c
          (find (fleet_of provider) db.fleets)
          (update_configuration provider c actor now db)
unfolding update_configuration
update_configuration-IsConfigured provider l c actor now db a = (
  ensure_fleet-IsSetUp provider l now db a,
  update_found-IsUpdated provider c actor now (find (fleet_of provider) db.fleets) db refl a,
)
