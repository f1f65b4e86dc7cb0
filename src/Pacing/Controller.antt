-- ===== src/Pacing/Controller.antt =====
-- backend/proxy/domain_pacing/controller.py: the feedback rules. `spacing * 0.8` is exact here, and
-- rounded to six digits as in the program.
use stolosio.Prelude.{
  ℕ, ◌+◌, ◌*◌, ◌/◌, Option, none, some, Bool, true, false, not, ◌&&◌, ◌||◌, Time, second,
  if◌then◌else◌, ltb, leb, ◌==◌, is_after, is_value, round_div, min, max,
}
use stolosio.Pacing.Contracts.{
  PacingSettings, Policy, Observation, Outcome, healthy, throttled, overload, neutral, RetryAfter,
  finite, ttl_expired, healthy_at_limit, origin_throttled, origin_overload,
}

unfoldable pub reset : PacingSettings → Policy → Time → Policy
reset settings policy now = record {
  concurrency = settings.default_concurrency;
  spacing_seconds = settings.default_spacing_seconds;
  expires_at = now + settings.learned_ttl_seconds * second;
  cooldown_until = policy.cooldown_until;
  healthy_samples = 0;
  concurrency_samples = 0;
  overload_samples = 0;
  generation = policy.generation + 1;
  reason = ttl_expired;
  adjusted_at = some now;
}

-- The allowance after enough healthy samples: one more capture, or else a shorter spacing.
unfoldable pub increased : PacingSettings → Policy → Time → Policy
increased settings policy now =
    let grows =
      leb (settings.healthy_samples / 2) policy.concurrency_samples
      && ltb policy.concurrency settings.maximum_concurrency in
    let concurrency =
      if grows
      then min settings.maximum_concurrency (policy.concurrency + 1)
      else policy.concurrency in
    let spacing =
      if grows
      then policy.spacing_seconds
      else max settings.minimum_spacing_seconds (round_div (policy.spacing_seconds * 8) 10) in
    let changed =
      not (concurrency == policy.concurrency) || not (spacing == policy.spacing_seconds) in
    record policy {
      concurrency = concurrency;
      spacing_seconds = spacing;
      healthy_samples = 0;
      concurrency_samples = 0;
      generation = policy.generation + (if changed then 1 else 0);
      reason = if changed then healthy_at_limit else policy.reason;
      adjusted_at = if changed then some now else policy.adjusted_at;
    }

-- A healthy sample that counts: `policy` is the one whose overload samples are cleared.
unfoldable pub sampled : PacingSettings → Policy → Time → Bool → Policy
sampled settings policy now concurrency_at_limit = record policy {
  healthy_samples = policy.healthy_samples + 1;
  concurrency_samples = policy.concurrency_samples + (if concurrency_at_limit then 1 else 0);
  expires_at = now + settings.learned_ttl_seconds * second;
}

unfoldable pub update_healthy : PacingSettings → Policy → Time → Bool → Bool → ℕ → Policy
unfolding sampled increased
update_healthy settings policy now at_limit concurrency_at_limit generation =
    let cleared = record policy { overload_samples = 0 } in
    let next = sampled settings cleared now concurrency_at_limit in
    if not (generation == policy.generation) || is_after policy.cooldown_until now
    then policy
    else if not at_limit
    then cleared
    else if ltb next.healthy_samples settings.healthy_samples
    then next
    else increased settings next now

-- The wait that the origin asks for, where it is a number that makes sense.
abbrev pub retry_or_default : PacingSettings → Option RetryAfter → Time
retry_or_default settings (some (finite t)) = t
retry_or_default settings _ = settings.cooldown_seconds * second

abbrev latest : Time → Option Time → Time
latest t none = t
latest t (some u) = max t u

unfoldable pub cooldown_of : PacingSettings → Policy → Observation → Time → Time
cooldown_of settings policy observation now =
    latest
      (now + min (retry_or_default settings observation.retry_after_seconds) (31536000 * second))
      policy.cooldown_until

abbrev pub is_overload : Outcome → Bool
is_overload overload = true
is_overload _ = false

abbrev pub is_throttled : Outcome → Bool
is_throttled throttled = true
is_throttled _ = false

-- A refusal, or overload often enough: half the captures and twice the spacing, once for a burst.
unfoldable pub backed_off : PacingSettings → Policy → Observation → Time → ℕ → Policy
unfolding cooldown_of
backed_off settings policy observation now generation =
    let cooldown = cooldown_of settings policy observation now in
    if not (generation == policy.generation)
    then (if not (is_throttled observation.outcome) || is_value policy.cooldown_until cooldown
        then policy
        else record policy {
          cooldown_until = some cooldown;
          generation = policy.generation + 1;
          reason = origin_throttled;
          adjusted_at = some now;
        })
    else record policy {
      concurrency = max 1 (policy.concurrency / 2);
      spacing_seconds = min settings.maximum_spacing_seconds (policy.spacing_seconds * 2);
      cooldown_until = some cooldown;
      expires_at = now + settings.learned_ttl_seconds * second;
      healthy_samples = 0;
      concurrency_samples = 0;
      overload_samples = 0;
      generation = policy.generation + 1;
      reason = if is_throttled observation.outcome then origin_throttled else origin_overload;
      adjusted_at = some now;
    }

-- `update` on the outcomes throttled and overload.
unfoldable pub update_refused : PacingSettings → Policy → Observation → Time → ℕ → Policy
unfolding backed_off
update_refused settings policy observation now generation =
    let count = policy.overload_samples + 1 in
    if is_overload observation.outcome && not (generation == policy.generation)
    then policy
    else if is_overload observation.outcome && ltb count settings.overload_samples
    then record policy { overload_samples = count; healthy_samples = 0; concurrency_samples = 0 }
    else backed_off settings policy observation now generation

unfoldable pub update_outcome :
    Outcome → PacingSettings → Policy → Observation → Time → Bool → Bool → ℕ → Policy
unfolding update_healthy update_refused
update_outcome neutral settings policy observation now at_limit concurrency_at_limit generation =
    policy
update_outcome healthy settings policy observation now at_limit concurrency_at_limit generation =
    update_healthy settings policy now at_limit concurrency_at_limit generation
update_outcome _ settings policy observation now at_limit concurrency_at_limit generation =
    update_refused settings policy observation now generation

unfoldable pub update : PacingSettings → Policy → Observation → Time → Bool → Bool → ℕ → Policy
unfolding update_outcome
update settings policy observation now at_limit concurrency_at_limit generation =
    update_outcome observation.outcome settings policy observation now at_limit concurrency_at_limit
      generation
