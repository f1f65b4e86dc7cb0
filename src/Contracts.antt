-- ===== src/Contracts.antt =====
-- backend/proxy/contracts: the states of sessions and attempts, the providers, and what the
-- repositories hand to their callers.
use stolosio.Prelude.{ℕ, String, Bool, true, false, Option, ◌≡◌, refl, ◌⊎◌, inl, inr, if◌then◌else◌}

-- A primary key. The program's keys are UUID texts; only their equality and order are used.
abbrev pub Key : Type 0
Key = ℕ

-- A JSON document that the program stores whole and never looks into here.
abbrev pub Json : Type 0
Json = String

pub data ProviderName : Type 0 where
  browserless browserless_cloud : ProviderName

abbrev pub same_provider : ProviderName → ProviderName → Bool
same_provider browserless browserless = true
same_provider browserless_cloud browserless_cloud = true
same_provider _ _ = false

pub data SessionState : Type 0 where
  requested admitted opened closing closed failed : SessionState

pub data AttemptState : Type 0 where
  requested queued acquiring active completed failed : AttemptState

pub data Workload : Type 0 where
  automation capture : Workload

pub record StolosioSession : Type 0 where
  pub session_id : Key
  pub owner_id : Key
  pub lease_token : Key
  pub workload : Workload
  pub capture_hostname : Option String

pub record ProviderAttempt : Type 0 where
  pub attempt_id : Key
  pub session_id : Key
  pub ordinal : ℕ
  pub provider : ProviderName
  pub state : AttemptState
  pub provider_instance_id : Option Key
  pub endpoint : Option String

-- SessionAdmissionStatus and AttemptAdmissionStatus of backend/proxy/postgres.
pub data SessionAdmissionStatus : Type 0 where
  admitted full : SessionAdmissionStatus

pub data AttemptAdmissionStatus : Type 0 where
  acquiring queued full : AttemptAdmissionStatus

-- What a repository method raises; its transaction is then rolled back.
pub data RepositoryError : Type 0 where
  integrity_error : RepositoryError
  lease_not_active live_attempt_exists source_not_active : RepositoryError
  capacity_not_configured no_managed_fleet : RepositoryError
  unknown_field invalid_limits : RepositoryError

-- What a method answers, or raises.
pub data Result {ℓ} (Answer : Type ℓ) : Type ℓ where
  err : RepositoryError → Result Answer
  ok : Answer → Result Answer

infixl 5 ◌>>=◌ ◌>>◌
-- A statement's answer is read by the statements after it, which an exception skips.
abbrev pub ◌>>=◌ {ℓ κ} :
    {Answer : Type ℓ} {Last : Type κ} → Result Answer → (Answer → Result Last) → Result Last
err raised >>= after = err raised
ok answer >>= after = after answer

-- A statement that answers nothing.
abbrev pub ◌>>◌ {ℓ} : {Last : Type ℓ} → Result (Unit {0}) → Result Last → Result Last
err raised >> after = err raised
ok _ >> after = after

-- `if not test: raise error`
abbrev pub require : Bool → RepositoryError → Result (Unit {0})
require test raised = if test then ok tt else err raised

-- Where a chain of statements answers, each of them does.
pub >>=-eq-ok {ℓ κ} :
    {Answer : Type ℓ} {Last : Type κ} (first : Result Answer) (after : Answer → Result Last)
    {last : Last}
    → (first >>= after) ≡ ok last
    → (answer : Answer) × (first ≡ ok answer) × (after answer ≡ ok last)
>>=-eq-ok (err raised) after e = cc
>>=-eq-ok (ok answer) after e = (answer, refl, e)

pub >>-eq-ok {ℓ} :
    {Last : Type ℓ} (first : Result (Unit {0})) (after : Result Last) {last : Last}
    → (first >> after) ≡ ok last
    → (first ≡ ok tt) × (after ≡ ok last)
>>-eq-ok (err raised) after e = cc
>>-eq-ok (ok tt) after e = (refl, e)

pub require-eq-ok :
    (test : Bool) (raised : RepositoryError) → require test raised ≡ ok tt → test ≡ true
require-eq-ok false raised e = cc
require-eq-ok true raised e = refl

-- To split on what a method does and keep the equation.
pub Result-cases {ℓ} :
    {Answer : Type ℓ} (result : Result Answer)
    → ((answer : Answer) × (result ≡ ok answer))
      ⊎ ((raised : RepositoryError) × (result ≡ err raised))
Result-cases (err raised) = inr (raised, refl)
Result-cases (ok answer) = inl (answer, refl)
