-- ===== src/Pacing/Attribution.antt =====
-- A capture moves the pacing of its domain only by what happened on the domain's own host.
use stolosio.Prelude.{
  ℕ, ◌/◌, String, Option, none, some, List, [], ◌∷◌, Bool, true, false, ◌≡◌, refl, inl, inr,
  if◌then◌else◌, max, ==_iff, select, any, All, Bool-cases, Time, arith,
}
use stolosio.Pacing.Contracts.{PacingSettings, Policy, Observation, throttled}
use stolosio.Pacing.Controller.{update_outcome, update, update_refused, backed_off}
use stolosio.Pacing.Evidence.{
  CaptureAttempt, CaptureResult, has_url, latest_attempt, url_of, is_throttle, throttle_or,
  pacing_observation,
}

module _ (same_host : Option String → Bool) where
  abbrev Elsewhere : CaptureAttempt → Type 0
  Elsewhere a = same_host a.final_url ≡ false

  no_throttle :
      (attempts : List CaptureAttempt)
      → All Elsewhere attempts
      → select (is_throttle same_host) attempts ≡ []
  no_throttle [] h = refl
  no_throttle (a ∷ attempts) h = let ih = no_throttle attempts h.1 in ground (arith, h.0)

  latest-Elsewhere :
      (attempts : List CaptureAttempt) (final_url : Option String)
      → All Elsewhere attempts
      → same_host final_url ≡ false
      → same_host (url_of (latest_attempt attempts) final_url) ≡ false
  latest-Elsewhere [] final_url h e = e
  latest-Elsewhere (a ∷ attempts) final_url h e =
      at (latest_attempt attempts) (latest-Elsewhere attempts final_url h.1 e)
    where
      at :
          (o : Option CaptureAttempt)
          → same_host (url_of o final_url) ≡ false
          → same_host (
              url_of
                (elim o [ none ↦ (if has_url a then some a else none) | some later ↦ some later ])
                final_url)
            ≡ false
      at (some later) f = f
      at none f = elim (Bool-cases (has_url a)) [ inl t ↦ rw t h.0 | inr t ↦ rw t e ]

  module _ (settings : PacingSettings) (policy : Policy) (now : Time) (at_limit full : Bool) where
    -- Where no attempt of a capture ended on the requested host, nor the capture itself: whatever it
    -- came to, a throttle or a refusal included, the controller leaves the domain's policy as it is.
    pub update-Elsewhere :
        (r : CaptureResult) (generation : ℕ)
        → All Elsewhere r.attempts
        → same_host r.final_url ≡ false
        → update settings policy (pacing_observation same_host r) now at_limit full generation
          ≡ policy
    unfolding update update_outcome pacing_observation
    update-Elsewhere r generation h e =
        rw (no_throttle r.attempts h, latest-Elsewhere r.attempts r.final_url h e) refl

    some_throttle :
        (throttles : List CaptureAttempt) (other : Observation)
        → any (λ a. true) throttles ≡ true
        → (throttle_or same_host throttles other).outcome ≡ throttled
    some_throttle (a ∷ throttles) other e = refl
    some_throttle [] other e = absurd (cc)

    any-select :
        (attempts : List CaptureAttempt)
        → any (is_throttle same_host) attempts ≡ true
        → any (λ a. true) (select (is_throttle same_host) attempts) ≡ true
    any-select [] e = e
    any-select (a ∷ attempts) e = let ih = any-select attempts in ground arith

    backs_off :
        (o : Observation)
        → o.outcome ≡ throttled
        → (update settings policy o now at_limit full policy.generation).concurrency
          ≡ max 1 (policy.concurrency / 2)
    unfolding update update_outcome update_refused backed_off
    backs_off o e =
        let same = (==_iff policy.generation policy.generation).1 refl in rw (e, same) refl

    -- Where an attempt on the requested host was answered with 429, and the policy has not changed
    -- since the capture began: whatever came of the capture afterwards, a success included, the
    -- domain's captures are halved, to one at least.
    pub update-throttled :
        (r : CaptureResult)
        → any (is_throttle same_host) r.attempts ≡ true
        → (update settings policy
            (pacing_observation same_host r)
            now
            at_limit
            full
            policy.generation).concurrency
          ≡ max 1 (policy.concurrency / 2)
    unfolding pacing_observation
    update-throttled r e =
        backs_off (pacing_observation same_host r)
          (some_throttle (select (is_throttle same_host) r.attempts) _ (any-select r.attempts e))
