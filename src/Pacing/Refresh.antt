-- ===== src/Pacing/Refresh.antt =====
-- backend/proxy/domain_pacing/repository.py: the settings' row, and the reset of an allowance that
-- ran out, was asked to be reset, or was learned under older settings.
use stolosio.Prelude.{
  ℕ, ◌+◌, Option, none, some, List, ◌∷◌, Bool, false, not, ◌||◌, Time, if◌then◌else◌, leb, ◌==◌,
}
use stolosio.Contracts.{Key}
use stolosio.Pacing.Contracts.{
  PacingSettings, default_settings, model_validate, Policy, settings_changed, operator_reset,
}
use stolosio.Pacing.Controller.{reset}
use stolosio.Pacing.Tables.{DomainPacingSettings, DomainPacingState, Adjustment, PacingDatabase}

-- `_settings`: the row, with the defaults where there is none yet.
unfoldable pub configuration : PacingDatabase → DomainPacingSettings
configuration db = given db.settings
  where
    given : Option DomainPacingSettings → DomainPacingSettings
    given none = record { settings = default_settings; version = 1 }
    given (some row) = row

-- The changes of an operator: the fields that are given.
pub record SettingsChanges : Type 0 where
  pub default_concurrency : Option ℕ
  pub default_spacing_seconds : Option Time
  pub maximum_concurrency : Option ℕ
  pub minimum_spacing_seconds : Option Time
  pub maximum_spacing_seconds : Option Time
  pub learned_ttl_seconds : Option ℕ
  pub healthy_samples : Option ℕ
  pub overload_samples : Option ℕ
  pub cooldown_seconds : Option ℕ

abbrev or_else : Option ℕ → ℕ → ℕ
or_else none n = n
or_else (some m) n = m

-- {**row.settings, **changes}
unfoldable pub merged : PacingSettings → SettingsChanges → PacingSettings
merged s c = record {
  default_concurrency = or_else c.default_concurrency s.default_concurrency;
  default_spacing_seconds = or_else c.default_spacing_seconds s.default_spacing_seconds;
  maximum_concurrency = or_else c.maximum_concurrency s.maximum_concurrency;
  minimum_spacing_seconds = or_else c.minimum_spacing_seconds s.minimum_spacing_seconds;
  maximum_spacing_seconds = or_else c.maximum_spacing_seconds s.maximum_spacing_seconds;
  learned_ttl_seconds = or_else c.learned_ttl_seconds s.learned_ttl_seconds;
  healthy_samples = or_else c.healthy_samples s.healthy_samples;
  overload_samples = or_else c.overload_samples s.overload_samples;
  cooldown_seconds = or_else c.cooldown_seconds s.cooldown_seconds;
}

-- `none` is a validation error, which rolls the transaction back.
unfoldable pub update_settings : SettingsChanges → PacingDatabase → Option PacingDatabase
unfolding configuration
update_settings changes db =
    let row = configuration db in
    let settings = merged row.settings changes in
    if model_validate settings
    then some
        (record db { settings = some (record { settings = settings; version = row.version + 1 }) })
    else none

-- The allowance of the row no longer counts.
unfoldable pub is_outdated : DomainPacingSettings → Time → DomainPacingState → Bool
is_outdated config now row =
    row.reset_requested
    || (leb row.policy.expires_at now || not (row.settings_version == config.version))

-- The reset policy, with the reason that weighs most.
unfoldable pub reset_policy : DomainPacingSettings → Time → DomainPacingState → Policy
reset_policy config now row =
    let fresh = reset config.settings row.policy now in
    let renamed =
      if not (row.settings_version == config.version)
      then record fresh { reason = settings_changed }
      else fresh in
    if row.reset_requested then record renamed { reason = operator_reset } else renamed

unfoldable pub refreshed : DomainPacingSettings → Time → DomainPacingState → DomainPacingState
unfolding is_outdated reset_policy
refreshed config now row =
    if is_outdated config now row
    then record row {
      policy = reset_policy config now row;
      reset_requested = false;
      spacing_refused_at = none;
      settings_version = config.version;
    }
    else row

-- record_adjustment
abbrev pub adjustment : Key → DomainPacingState → Time → Adjustment
adjustment session_id row now = record {
  session_id = session_id;
  hostname = row.hostname;
  occurred_at = now;
  policy = row.policy;
}

unfoldable pub adjustments_of :
    Key → DomainPacingSettings → Time → DomainPacingState → List Adjustment → List Adjustment
unfolding refreshed
adjustments_of session_id config now row events =
    if is_outdated config now row
    then adjustment session_id (refreshed config now row) now ∷ events
    else events
