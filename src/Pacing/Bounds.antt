-- ===== src/Pacing/Bounds.antt =====
-- The controller keeps an allowance within the configured bounds, and only backs off or grows it by
-- the rules.
use stolosio.Prelude.{
  either, ℕ, ◌+◌, ◌*◌, ◌≤◌, ◌≡◌, Bool, true, Time, arith, round_div, refl, not, ◌&&◌, ◌||◌, ◌==◌,
  ltb, is_after, is_value,
}
use stolosio.Pacing.Contracts.{
  PacingSettings, Policy, Observation, Outcome, healthy, throttled, overload, neutral,
  model_validate,
}
use stolosio.Pacing.Controller.{
  reset, increased, sampled, update_healthy, cooldown_of, backed_off, update_refused, update,
  update_outcome, is_throttled, is_overload,
}

-- What validated settings give the controller.
pub record IsValid (settings : PacingSettings) : Type 0 where
  pub one : 1 ≤ settings.default_concurrency
  pub concurrency : settings.default_concurrency ≤ settings.maximum_concurrency
  pub low : settings.minimum_spacing_seconds ≤ settings.default_spacing_seconds
  pub high : settings.default_spacing_seconds ≤ settings.maximum_spacing_seconds

-- An allowance within the bounds of the settings.
pub record IsWithin (settings : PacingSettings) (policy : Policy) : Type 0 where
  pub one : 1 ≤ policy.concurrency
  pub concurrency : policy.concurrency ≤ settings.maximum_concurrency
  pub low : settings.minimum_spacing_seconds ≤ policy.spacing_seconds
  pub high : policy.spacing_seconds ≤ settings.maximum_spacing_seconds

pub model_validate-IsValid :
    (settings : PacingSettings) → model_validate settings ≡ true → IsValid settings
unfolding model_validate
model_validate-IsValid settings e = record {
  one = ground arith;
  concurrency = ground arith;
  low = ground arith;
  high = ground arith;
}

pub reset-IsWithin :
    (settings : PacingSettings) (policy : Policy) (now : Time)
    → IsValid settings
    → IsWithin settings (reset settings policy now)
unfolding reset
reset-IsWithin settings policy now v = record {
  one = v.one;
  concurrency = v.concurrency;
  low = v.low;
  high = v.high;
}

round_div-le : (s : Time) → round_div (s * 8) 10 ≤ s
round_div-le s = ground arith

increased-IsWithin :
    (settings : PacingSettings) (policy : Policy) (now : Time)
    → IsWithin settings policy
    → IsWithin settings (increased settings policy now)
unfolding increased
increased-IsWithin settings policy now w =
    let fall = round_div-le policy.spacing_seconds in
    let a = w.one in
    let b = w.concurrency in
    let c = w.low in
    let d = w.high in
    record {
      one = ground arith;
      concurrency = ground arith;
      low = ground arith;
      high = ground arith;
    }

-- A policy with the allowance of another one.
same :
    (settings : PacingSettings) (p q : Policy)
    → p.concurrency ≡ q.concurrency
    → p.spacing_seconds ≡ q.spacing_seconds
    → IsWithin settings p
    → IsWithin settings q
same settings p q e f w = record {
  one = rw (← e) w.one;
  concurrency = rw (← e) w.concurrency;
  low = rw (← f) w.low;
  high = rw (← f) w.high;
}

update_healthy-IsWithin :
    (settings : PacingSettings) (policy : Policy) (now : Time) (a c : Bool) (g : ℕ)
    → IsWithin settings policy
    → IsWithin settings (update_healthy settings policy now a c g)
unfolding update_healthy
update_healthy-IsWithin settings policy now a c g w =
    let P : Policy → Type 0 = IsWithin settings in
    let cleared : Policy = record policy { overload_samples = 0 } in
    let next : Policy = sampled settings cleared now c in
    let w' = same settings policy next refl refl w in
    either P (not (g == policy.generation) || is_after policy.cooldown_until now) w (
      either P (not a) (same settings policy cleared refl refl w) (
        either P (ltb next.healthy_samples settings.healthy_samples) w'
          (increased-IsWithin settings next now w')))

backed_off-IsWithin :
    (settings : PacingSettings) (policy : Policy) (o : Observation) (now : Time) (g : ℕ)
    → IsWithin settings policy
    → IsWithin settings (backed_off settings policy o now g)
unfolding backed_off
backed_off-IsWithin settings policy o now g w =
    let P : Policy → Type 0 = IsWithin settings in
    let a = w.one in
    let b = w.concurrency in
    let c = w.low in
    let d = w.high in
    either P (not (g == policy.generation))
      (either P
        (not (is_throttled o.outcome)
          || is_value policy.cooldown_until (cooldown_of settings policy o now))
        w (same settings policy _ refl refl w))
      (record {
        one = ground arith;
        concurrency = ground arith;
        low = ground arith;
        high = ground arith;
      })

update_refused-IsWithin :
    (settings : PacingSettings) (policy : Policy) (o : Observation) (now : Time) (g : ℕ)
    → IsWithin settings policy
    → IsWithin settings (update_refused settings policy o now g)
unfolding update_refused
update_refused-IsWithin settings policy o now g w =
    let P : Policy → Type 0 = IsWithin settings in
    either P (is_overload o.outcome && not (g == policy.generation)) w (
      either P
        (is_overload o.outcome && ltb (policy.overload_samples + 1) settings.overload_samples)
        (same settings policy _ refl refl w) (backed_off-IsWithin settings policy o now g w))

update_outcome-IsWithin :
    (k : Outcome) (settings : PacingSettings) (policy : Policy) (o : Observation) (now : Time)
    (a c : Bool) (g : ℕ)
    → IsWithin settings policy
    → IsWithin settings (update_outcome k settings policy o now a c g)
unfolding update_outcome
update_outcome-IsWithin neutral settings policy o now a c g w = w
update_outcome-IsWithin healthy settings policy o now a c g w =
    update_healthy-IsWithin settings policy now a c g w
update_outcome-IsWithin throttled settings policy o now a c g w =
    update_refused-IsWithin settings policy o now g w
update_outcome-IsWithin overload settings policy o now a c g w =
    update_refused-IsWithin settings policy o now g w

-- An allowance within the bounds of the settings stays within them, on every observation, for any
-- clock value and any generation of the sample.
pub update-IsWithin :
    (settings : PacingSettings) (policy : Policy) (o : Observation) (now : Time) (a c : Bool)
    (g : ℕ)
    → IsWithin settings policy
    → IsWithin settings (update settings policy o now a c g)
unfolding update
update-IsWithin settings policy o now a c g w =
    update_outcome-IsWithin o.outcome settings policy o now a c g w
