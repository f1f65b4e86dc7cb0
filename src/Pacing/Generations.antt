-- ===== src/Pacing/Generations.antt =====
-- The generation of a policy names its allowance: samples of an older one do not move it.
use stolosio.Prelude.{
  either, ℕ, ◌+◌, ◌≤◌, ◌≡◌, ◌≢◌, Option, some, Bool, Time, arith, refl, not, ◌&&◌, ◌||◌, ◌==◌, ltb,
  is_after, is_value, ◌∙◌, Bool-cases, inl, inr,
}
use stolosio.Pacing.Contracts.{
  PacingSettings, Policy, Observation, Outcome, healthy, throttled, overload, neutral,
}
use stolosio.Pacing.Controller.{
  increased, sampled, update_healthy, cooldown_of, backed_off, update_refused, update,
  update_outcome, is_throttled, is_overload,
}

-- The rest of the cooldown is not cut.
pub Cools : Option Time → Option Time → Type 0
Cools before after = (t : Time) → before ≡ some t → (u : Time) × (after ≡ some u) × (t ≤ u)

-- What an observation of generation `g` may make of a policy.
pub record IsOrderly (g : ℕ) (policy next : Policy) : Type 0 where
  pub rises : policy.generation ≤ next.generation
  pub steps : next.generation ≤ policy.generation + 1
  pub cools : Cools policy.cooldown_until next.cooldown_until
  pub identifies :
      next.generation ≡ policy.generation
      → (next.concurrency ≡ policy.concurrency)
        × (next.spacing_seconds ≡ policy.spacing_seconds)
        × (next.cooldown_until ≡ policy.cooldown_until)
  pub stale :
      g ≢ policy.generation
      → (next.concurrency ≡ policy.concurrency) × (next.spacing_seconds ≡ policy.spacing_seconds)

-- A policy that has the allowance, the cooldown and the generation of the one before.
kept :
    (g : ℕ) (p q : Policy)
    → q.generation ≡ p.generation
    → q.concurrency ≡ p.concurrency
    → q.spacing_seconds ≡ p.spacing_seconds
    → q.cooldown_until ≡ p.cooldown_until
    → IsOrderly g p q
unfolding Cools
kept g p q e c s d = record {
  rises = omega arith;
  steps = omega arith;
  cools = λ t x. (t, d ∙ x, omega arith);
  identifies = λ x. (c, s, d);
  stale = λ x. (c, s);
}

increased-IsOrderly :
    (settings : PacingSettings) (p q : Policy) (now : Time) (g : ℕ)
    → g ≡ p.generation
    → q.generation ≡ p.generation
    → q.concurrency ≡ p.concurrency
    → q.spacing_seconds ≡ p.spacing_seconds
    → q.cooldown_until ≡ p.cooldown_until
    → IsOrderly g p (increased settings q now)
unfolding increased Cools
increased-IsOrderly settings p q now g here e c s d = record {
  rises = ground arith;
  steps = ground arith;
  cools = λ t x. (t, d ∙ x, omega arith);
  identifies = λ x. (ground arith, ground arith, d);
  stale = λ x. absurd (x here);
}

update_healthy-IsOrderly :
    (settings : PacingSettings) (policy : Policy) (now : Time) (a c : Bool) (g : ℕ)
    → IsOrderly g policy (update_healthy settings policy now a c g)
unfolding update_healthy
update_healthy-IsOrderly settings policy now a c g =
    let P : Policy → Type 0 = IsOrderly g policy in
    let cleared : Policy = record policy { overload_samples = 0 } in
    let next : Policy = sampled settings cleared now c in
    elim (Bool-cases (not (g == policy.generation) || is_after policy.cooldown_until now)) [
      | inl e ↦ rw e (kept g policy policy refl refl refl refl)
      | inr e ↦ rw e (
          either P (not a) (kept g policy cleared refl refl refl refl) (
            either P (ltb next.healthy_samples settings.healthy_samples)
              (kept g policy next refl refl refl refl)
              (increased-IsOrderly settings policy next now g (ground arith) refl refl refl refl)))
    ]

cooldown_of-Cools :
    (settings : PacingSettings) (policy : Policy) (o : Observation) (now : Time)
    → Cools policy.cooldown_until (some (cooldown_of settings policy o now))
unfolding cooldown_of Cools
cooldown_of-Cools settings policy o now t e =
    (cooldown_of settings policy o now, refl, rw e (ground arith))

backed_off-IsOrderly :
    (settings : PacingSettings) (policy : Policy) (o : Observation) (now : Time) (g : ℕ)
    → IsOrderly g policy (backed_off settings policy o now g)
unfolding backed_off
backed_off-IsOrderly settings policy o now g =
    let P : Policy → Type 0 = IsOrderly g policy in
    let cools = cooldown_of-Cools settings policy o now in
    elim (Bool-cases (not (g == policy.generation))) [
      | inl e ↦ rw e (
          either P
            (not (is_throttled o.outcome)
              || is_value policy.cooldown_until (cooldown_of settings policy o now))
            (kept g policy policy refl refl refl refl)
            (record {
              rises = omega arith;
              steps = omega arith;
              cools = cools;
              identifies = λ x. absurd (omega arith);
              stale = λ x. (refl, refl);
            }))
      | inr e ↦ rw e (record {
        rises = omega arith;
        steps = omega arith;
        cools = cools;
        identifies = λ x. absurd (omega arith);
        stale = λ x. absurd (ground arith);
      })
    ]

update_refused-IsOrderly :
    (settings : PacingSettings) (policy : Policy) (o : Observation) (now : Time) (g : ℕ)
    → IsOrderly g policy (update_refused settings policy o now g)
unfolding update_refused
update_refused-IsOrderly settings policy o now g =
    let P : Policy → Type 0 = IsOrderly g policy in
    either P (is_overload o.outcome && not (g == policy.generation))
      (kept g policy policy refl refl refl refl)
      (either P
        (is_overload o.outcome && ltb (policy.overload_samples + 1) settings.overload_samples)
        (kept g policy _ refl refl refl refl) (backed_off-IsOrderly settings policy o now g))

update_outcome-IsOrderly :
    (k : Outcome) (settings : PacingSettings) (policy : Policy) (o : Observation) (now : Time)
    (a c : Bool) (g : ℕ)
    → IsOrderly g policy (update_outcome k settings policy o now a c g)
unfolding update_outcome
update_outcome-IsOrderly neutral settings policy o now a c g =
    kept g policy policy refl refl refl refl
update_outcome-IsOrderly healthy settings policy o now a c g =
    update_healthy-IsOrderly settings policy now a c g
update_outcome-IsOrderly throttled settings policy o now a c g =
    update_refused-IsOrderly settings policy o now g
update_outcome-IsOrderly overload settings policy o now a c g =
    update_refused-IsOrderly settings policy o now g

-- For every observation, of any generation, at any time: the generation stays or grows by one; a
-- cooldown ends no earlier than before; where the generation stays, the concurrency, the spacing
-- and the cooldown are the ones before; and an observation of another generation leaves the
-- concurrency and the spacing alone.
pub update-IsOrderly :
    (settings : PacingSettings) (policy : Policy) (o : Observation) (now : Time) (a c : Bool)
    (g : ℕ)
    → IsOrderly g policy (update settings policy o now a c g)
unfolding update
update-IsOrderly settings policy o now a c g =
    update_outcome-IsOrderly o.outcome settings policy o now a c g
