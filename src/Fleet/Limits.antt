-- ===== src/Fleet/Limits.antt =====
-- A fleet's number of instances stays within its limits: `evaluate` of backend/fleet/repository.py.
use stolosio.Prelude.{◌≤◌, ◌≡◌, refl, true, Option, none, some, Time, All, find}
use stolosio.Prelude.Counts.{All-update_found}
use stolosio.Contracts.{ProviderName, Result, ok, err}
use stolosio.Tables.{ProviderFleet, Database}
use stolosio.Sessions.Live.{live_attempt_state}
use stolosio.Fleet.Bounds.{IsValid, scaling_decision_bounds}
use stolosio.Fleet.Configuration.{
  fleet_of, attempt_count, provisioned, decided, decision_of, evaluate_found, evaluate,
}

-- A fleet with valid limits, whose number of instances lies within them while it is enabled.
pub record IsBounded (row : ProviderFleet) : Type 0 where
  pub valid : IsValid row
  pub enabled :
      row.enabled ≡ true
      → (row.minimum_instances ≤ row.desired_instances)
        × (row.desired_instances ≤ row.maximum_instances)

-- The database after a call that answers.
abbrev pub outcome {ℓ} : {A : Type ℓ} → Result (A × Database) → Database → Database
outcome (ok (_, after)) db = after
outcome (err _) db = db

decided-IsBounded :
    (provider : ProviderName) (now : Time) (db : Database) (row : ProviderFleet)
    → IsBounded row
    → IsBounded (decided (decision_of provider now db row) now row)
unfolding decided decision_of
decided-IsBounded provider now db row b = record {
  valid = record { ordered = b.valid.ordered; capacity = b.valid.capacity };
  enabled = λ on.
      let (low, high) = b.enabled on in
      scaling_decision_bounds row (attempt_count provider live_attempt_state now db) now
        (some (provisioned provider now db)) b.valid on low high;
}

evaluate_found-IsBounded :
    (provider : ProviderName) (now : Time) (found : Option ProviderFleet) (db : Database)
    → find (fleet_of provider) db.fleets ≡ found
    → All IsBounded db.fleets
    → All IsBounded (outcome (evaluate_found provider now found db) db).fleets
unfolding evaluate_found
evaluate_found-IsBounded provider now none db e a = a
evaluate_found-IsBounded provider now (some row) db e a =
    All-update_found IsBounded (fleet_of provider) (decided (decision_of provider now db row) now)
      row (decided-IsBounded provider now db row) db.fleets e a

-- Where every fleet's limits are valid and every enabled fleet wants a number of instances within
-- its limits, `evaluate` leaves it so, for any provider, clock value, demand and observed
-- instances.
pub evaluate-IsBounded :
    (provider : ProviderName) (now : Time) (db : Database)
    → All IsBounded db.fleets
    → All IsBounded (outcome (evaluate provider now db) db).fleets
unfolding evaluate
evaluate-IsBounded provider now db a =
    evaluate_found-IsBounded provider now (find (fleet_of provider) db.fleets) db refl a
