-- ===== src/ExternalCapacity/Tests.antt =====
-- Browserless cloud is set up, changed, and asked to be enabled without a token.
use stolosio.Prelude.{◌≡◌, refl, none, some, List, [], ◌∷◌, true, false, find, any, ◌⊎◌}
use stolosio.Contracts.{browserless_cloud}
use stolosio.Blocking.Json.{pos}
use stolosio.ExternalCapacity.Repository.{
  CapacityValues, CapacityChanges, CapacityTables, is_limit_of, not_configured, update_capacity,
  CapacityCall, ensures, updates, capacity_run,
}
use stolosio.ExternalCapacity.Audit.{IsAudited, capacity_run-IsAudited}
use stolosio.ExternalCapacity.Credentials.{is_enabled, turns_on, capacity_run-IsGranted}

abbrev off : CapacityValues
off = record { enabled = false; max_active_sessions = pos 5; max_queued_attempts = pos 9 }

abbrev larger : CapacityChanges
larger = record {
  enabled = none;
  max_active_sessions = some (pos 8);
  max_queued_attempts = none;
  has_unknown = false;
}

abbrev on : CapacityChanges
on = record larger { enabled = some true }

abbrev no_rows : CapacityTables
no_rows = record { limits = []; limit_events = [] }

abbrev calls : List CapacityCall
calls =
    ensures browserless_cloud off 1
    ∷ updates false browserless_cloud larger "operator" 2
    ∷ updates false browserless_cloud on "operator" 3
    ∷ []

refused :
    (update_capacity false browserless_cloud on "operator" 4 (capacity_run calls no_rows)).0
    ≡ not_configured
unfolding update_capacity capacity_run
refused = refl

capacity_run-IsAudited_example : IsAudited browserless_cloud (capacity_run calls no_rows)
capacity_run-IsAudited_example = capacity_run-IsAudited browserless_cloud calls no_rows tt

abbrev with_token : List CapacityCall
with_token = ensures browserless_cloud off 1 ∷ updates true browserless_cloud on "operator" 2 ∷ []

turned_on :
    is_enabled (find (is_limit_of browserless_cloud) (capacity_run with_token no_rows).limits)
    ≡ true
unfolding capacity_run
turned_on = refl

capacity_run-IsGranted_example :
    (is_enabled (find (is_limit_of browserless_cloud) no_rows.limits) ≡ true)
    ⊎ (any (turns_on browserless_cloud) with_token ≡ true)
capacity_run-IsGranted_example =
    capacity_run-IsGranted browserless_cloud with_token no_rows turned_on
