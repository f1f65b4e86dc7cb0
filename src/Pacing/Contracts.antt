-- ===== src/Pacing/Contracts.antt =====
-- backend/proxy/domain_pacing/contracts.py. Seconds are counted in microseconds, the resolution to
-- which the controller rounds a spacing.
use stolosio.Prelude.{ℕ, ◌*◌, Option, Bool, ◌&&◌, Time, second, leb}
use stolosio.Contracts.{Key}

pub record PacingSettings : Type 0 where
  pub default_concurrency : ℕ
  pub default_spacing_seconds : Time
  pub maximum_concurrency : ℕ
  pub minimum_spacing_seconds : Time
  pub maximum_spacing_seconds : Time
  pub learned_ttl_seconds : ℕ
  pub healthy_samples : ℕ
  pub overload_samples : ℕ
  pub cooldown_seconds : ℕ

-- PacingSettings()
abbrev pub default_settings : PacingSettings
default_settings = record {
  default_concurrency = 2;
  default_spacing_seconds = second;
  maximum_concurrency = 8;
  minimum_spacing_seconds = 100000;
  maximum_spacing_seconds = 60 * second;
  learned_ttl_seconds = 86400;
  healthy_samples = 10;
  overload_samples = 3;
  cooldown_seconds = 30;
}

abbrev is_between : ℕ → ℕ → ℕ → Bool
is_between low n high = leb low n && leb n high

-- The fields' constraints.
unfoldable pub fields_hold : PacingSettings → Bool
fields_hold s =
    is_between 1 s.default_concurrency 100
    && (is_between 10000 s.default_spacing_seconds (60 * second)
        && (is_between 1 s.maximum_concurrency 100
            && (is_between 10000 s.minimum_spacing_seconds (60 * second)
                && (is_between 10000 s.maximum_spacing_seconds (3600 * second)
                    && (is_between 60 s.learned_ttl_seconds 2592000
                        && (is_between 2 s.healthy_samples 1000
                            && (is_between 2 s.overload_samples 100
                                && is_between 1 s.cooldown_seconds 3600)))))))

-- `bounds`, the model's validator.
unfoldable pub bounds_hold : PacingSettings → Bool
bounds_hold s =
    leb s.default_concurrency s.maximum_concurrency
    && (leb s.minimum_spacing_seconds s.default_spacing_seconds
        && leb s.default_spacing_seconds s.maximum_spacing_seconds)

-- PacingSettings.model_validate
unfoldable pub model_validate : PacingSettings → Bool
unfolding fields_hold bounds_hold
model_validate s = fields_hold s && bounds_hold s

pub data Reason : Type 0 where
  default ttl_expired settings_changed operator_reset : Reason
  healthy_at_limit origin_throttled origin_overload : Reason

pub record Policy : Type 0 where
  pub concurrency : ℕ
  pub spacing_seconds : Time
  pub expires_at : Time
  pub cooldown_until : Option Time
  pub healthy_samples : ℕ
  pub concurrency_samples : ℕ
  pub overload_samples : ℕ
  pub generation : ℕ
  pub reason : Reason
  pub adjusted_at : Option Time

pub data Outcome : Type 0 where
  healthy throttled overload neutral : Outcome

-- A float: a finite number of microseconds, or a negative number, or one that is not finite.
pub data RetryAfter : Type 0 where
  finite : Time → RetryAfter
  negative not_finite : RetryAfter

pub record Observation : Type 0 where
  pub outcome : Outcome
  pub retry_after_seconds : Option RetryAfter

pub record Lease : Type 0 where
  pub id : Key
  pub hostname : Key

pub data Refusal : Type 0 where
  domain_cooldown domain_spacing domain_concurrency : Refusal

pub record DomainThrottled : Type 0 where
  pub reason : Refusal
  pub retry_after_seconds : ℕ
