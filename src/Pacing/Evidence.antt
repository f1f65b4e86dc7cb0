-- ===== src/Pacing/Evidence.antt =====
-- backend/proxy/capture/pacing.py: what a capture tells the pacing of its domain. Whether a URL is on
-- the requested host, after the normalization of both, is the section's parameter.
use stolosio.Prelude.{
  ℕ, String, str_eq, Option, none, some, List, [], ◌∷◌, Bool, false, not, ◌&&◌, ◌||◌, if◌then◌else◌,
  max, ◌==◌, leb, select, is_value,
}
use stolosio.Pacing.Contracts.{
  RetryAfter, finite, negative, not_finite, Observation, healthy, throttled, overload, neutral,
}

pub record CaptureAttempt : Type 0 where
  pub status_code : Option ℕ
  pub final_url : Option String
  pub retry_after_seconds : Option RetryAfter

pub record CaptureFailure : Type 0 where
  pub category : String
  pub code : String
  pub retry_after_seconds : Option RetryAfter

pub record CaptureResult : Type 0 where
  pub attempts : List CaptureAttempt
  pub final_url : Option String
  pub failure : Option CaptureFailure

-- max(retries); what is not finite counts as the longest.
abbrev pub longer : RetryAfter → RetryAfter → RetryAfter
longer (finite a) (finite b) = finite (max a b)
longer negative b = b
longer a negative = a
longer _ _ = not_finite

abbrev pub longest : List CaptureAttempt → Option RetryAfter
longest [] = none
longest (a ∷ attempts) = joined a.retry_after_seconds (longest attempts)
  where
    joined : Option RetryAfter → Option RetryAfter → Option RetryAfter
    joined none rest = rest
    joined (some r) none = some r
    joined (some r) (some s) = some (longer r s)

-- `a.final_url` as a test: not None and not empty
abbrev pub has_url : CaptureAttempt → Bool
has_url a = given a.final_url
  where
    given : Option String → Bool
    given none = false
    given (some url) = not (str_eq url "")

-- The last attempt with a final URL.
abbrev pub latest_attempt : List CaptureAttempt → Option CaptureAttempt
latest_attempt [] = none
latest_attempt (a ∷ attempts) = or_this (latest_attempt attempts)
  where
    or_this : Option CaptureAttempt → Option CaptureAttempt
    or_this none = if has_url a then some a else none
    or_this (some later) = some later

-- 401, 403, or 500 and above
abbrev pub is_refusal : Option ℕ → Bool
is_refusal none = false
is_refusal (some code) = code == 401 || (code == 403 || leb 500 code)

abbrev pub observed_neutral : Observation
observed_neutral = record { outcome = neutral; retry_after_seconds = none }

-- A failure of the content, by the last attempt.
abbrev pub content_failure : Option CaptureAttempt → Observation
content_failure none = observed_neutral
content_failure (some a) =
    if is_refusal a.status_code
    then record { outcome = overload; retry_after_seconds = a.retry_after_seconds }
    else observed_neutral

abbrev pub retry_of : Option CaptureAttempt → CaptureFailure → Option RetryAfter
retry_of none f = f.retry_after_seconds
retry_of (some a) f = given a.retry_after_seconds
  where
    given : Option RetryAfter → Option RetryAfter
    given none = f.retry_after_seconds
    given (some r) = some r

unfoldable pub failure_observation : Option CaptureAttempt → CaptureFailure → Observation
failure_observation a f =
    if not (str_eq f.category "website")
    then (if str_eq f.category "content" then content_failure a else observed_neutral)
    else if str_eq f.code "rate_limited"
    then record { outcome = throttled; retry_after_seconds = f.retry_after_seconds }
    else if str_eq f.code "website_error"
        || (str_eq f.code "access_denied" || str_eq f.code "bot_blocked")
    then record { outcome = overload; retry_after_seconds = retry_of a f }
    else observed_neutral

abbrev pub url_of : Option CaptureAttempt → Option String → Option String
url_of none final_url = final_url
url_of (some a) final_url = a.final_url

abbrev pub ending_observation : Option CaptureAttempt → Option CaptureFailure → Observation
ending_observation a none = record { outcome = healthy; retry_after_seconds = none }
ending_observation a (some f) = failure_observation a f

module _ (same_host : Option String → Bool) where
  abbrev pub is_throttle : CaptureAttempt → Bool
  is_throttle a = is_value a.status_code 429 && same_host a.final_url

  -- By the attempts that were throttled.
  abbrev pub throttle_or : List CaptureAttempt → Observation → Observation
  throttle_or [] other = other
  throttle_or (a ∷ throttles) other = record {
    outcome = throttled;
    retry_after_seconds = longest (a ∷ throttles);
  }

  unfoldable pub pacing_observation : CaptureResult → Observation
  unfolding failure_observation
  pacing_observation r =
      let a = latest_attempt r.attempts in
      throttle_or (select is_throttle r.attempts) (
        if not (same_host (url_of a r.final_url))
        then observed_neutral
        else ending_observation a r.failure)
