-- ===== src/ExternalCapacity/Repository.antt =====
-- backend/proxy/external_capacity.py: ExternalCapacityRepository. A row that is returned stands for
-- its contract, which has the same fields. `now` is the process's clock.
use stolosio.Prelude.{
  ℕ, ◌+◌, String, Option, none, some, List, [], ◌∷◌, Bool, true, false, not, ◌||◌, Time,
  if◌then◌else◌, find, any, update_row,
}
use stolosio.Contracts.{ProviderName, browserless_cloud, same_provider}
use stolosio.Tables.{ExternalProviderLimit}
use stolosio.Blocking.Json.{ℤ, pos, negsuc}

-- The fields that a caller may set, as the program's values; the limits may be negative.
pub record CapacityValues : Type 0 where
  pub enabled : Bool
  pub max_active_sessions : ℤ
  pub max_queued_attempts : ℤ

-- The values that a caller gives, each of them or not; and whether there are others.
pub record CapacityChanges : Type 0 where
  pub enabled : Option Bool
  pub max_active_sessions : Option ℤ
  pub max_queued_attempts : Option ℤ
  pub has_unknown : Bool

pub record ExternalProviderLimitEvent : Type 0 where
  pub provider : ProviderName
  pub configuration_version : ℕ
  pub previous_values : CapacityValues
  pub new_values : CapacityValues
  pub actor : String

-- The newest event stands first.
pub record CapacityTables : Type 0 where
  pub limits : List ExternalProviderLimit
  pub limit_events : List ExternalProviderLimitEvent

-- What a call raises, or answers.
pub data CapacityAnswer : Type 0 where
  unknown_fields not_configured negative_limits : CapacityAnswer
  answers : Option ExternalProviderLimit → CapacityAnswer

abbrev pub is_limit_of : ProviderName → ExternalProviderLimit → Bool
is_limit_of provider row = same_provider row.provider provider

abbrev pub is_negative : ℤ → Bool
is_negative (pos n) = false
is_negative (negsuc n) = true

-- `_validate`, where it does not raise
abbrev pub are_valid : CapacityValues → Bool
are_valid v = not (is_negative v.max_active_sessions || is_negative v.max_queued_attempts)

-- A number that is not negative, as the table keeps it.
abbrev pub number_of : ℤ → ℕ
number_of (pos n) = n
number_of (negsuc n) = 0

unfoldable pub new_limit : ProviderName → CapacityValues → Time → ExternalProviderLimit
new_limit provider v now = record {
  provider = provider;
  enabled = v.enabled;
  max_active_sessions = number_of v.max_active_sessions;
  max_queued_attempts = number_of v.max_queued_attempts;
  configuration_version = 1;
  updated_at = now;
}

unfoldable pub ensure :
    ProviderName → CapacityValues → Time → CapacityTables → CapacityAnswer × CapacityTables
unfolding new_limit
ensure provider v now t =
    if are_valid v
    then (let limits =
          if any (is_limit_of provider) t.limits
          then t.limits
          else new_limit provider v now ∷ t.limits in
        (answers (find (is_limit_of provider) limits), record t { limits = limits }))
    else (negative_limits, t)

unfoldable pub get_limit : ProviderName → CapacityTables → Option ExternalProviderLimit
get_limit provider t = find (is_limit_of provider) t.limits

-- provider in self._credentials and values.get("enabled") is True, and there is no credential
abbrev pub lacks_credential : Bool → ProviderName → Option Bool → Bool
lacks_credential has_token browserless_cloud (some true) = not has_token
lacks_credential has_token _ _ = false

abbrev pub given_value {ℓ} : {A : Type ℓ} → Option A → A → A
given_value none old = old
given_value (some new) old = new

abbrev pub values_of : ExternalProviderLimit → CapacityValues
values_of row = record {
  enabled = row.enabled;
  max_active_sessions = pos row.max_active_sessions;
  max_queued_attempts = pos row.max_queued_attempts;
}

-- {**previous, **values}
abbrev pub updated_values : CapacityChanges → CapacityValues → CapacityValues
updated_values c old = record {
  enabled = given_value c.enabled old.enabled;
  max_active_sessions = given_value c.max_active_sessions old.max_active_sessions;
  max_queued_attempts = given_value c.max_queued_attempts old.max_queued_attempts;
}

abbrev pub with_values : CapacityValues → Time → ExternalProviderLimit → ExternalProviderLimit
with_values v now row = record row {
  enabled = v.enabled;
  max_active_sessions = number_of v.max_active_sessions;
  max_queued_attempts = number_of v.max_queued_attempts;
  configuration_version = row.configuration_version + 1;
  updated_at = now;
}

-- The transaction, over the row.
unfoldable pub update_limit :
    ProviderName
    → CapacityChanges
    → String
    → Time
    → Option ExternalProviderLimit
    → CapacityTables
    → CapacityAnswer × CapacityTables
update_limit provider c actor now none t = (answers none, t)
update_limit provider c actor now (some row) t =
    let previous = values_of row in
    let updated = updated_values c previous in
    if are_valid updated
    then (
      answers (some (with_values updated now row)),
      record {
        limits = update_row (is_limit_of provider) (with_values updated now) t.limits;
        limit_events =
            record {
              provider = provider;
              configuration_version = row.configuration_version + 1;
              previous_values = previous;
              new_values = updated;
              actor = actor;
            }
            ∷ t.limit_events;
      },
    )
    else (negative_limits, t)

-- `update`; `has_token`: a token of Browserless cloud, not blank, is configured.
unfoldable pub update_capacity :
    Bool
    → ProviderName
    → CapacityChanges
    → String
    → Time
    → CapacityTables
    → CapacityAnswer × CapacityTables
unfolding update_limit
update_capacity has_token provider c actor now t =
    if c.has_unknown
    then (unknown_fields, t)
    else if lacks_credential has_token provider c.enabled
    then (not_configured, t)
    else update_limit provider c actor now (find (is_limit_of provider) t.limits) t

-- Calls of the repository, in any order.
pub data CapacityCall : Type 0 where
  ensures : ProviderName → CapacityValues → Time → CapacityCall
  updates : Bool → ProviderName → CapacityChanges → String → Time → CapacityCall

unfoldable pub capacity_step : CapacityCall → CapacityTables → CapacityTables
unfolding ensure update_capacity
capacity_step (ensures provider v now) t = (ensure provider v now t).1
capacity_step (updates has_token provider c actor now) t =
    (update_capacity has_token provider c actor now t).1

unfoldable pub capacity_run : List CapacityCall → CapacityTables → CapacityTables
unfolding capacity_step
capacity_run [] t = t
capacity_run (call ∷ calls) t = capacity_run calls (capacity_step call t)
