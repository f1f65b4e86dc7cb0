-- ===== src/Admission/Acquire.antt =====
-- backend/proxy/attempts/manager.py: AttemptAdmission and AttemptLease. Of the lease's calls that
-- only pass their arguments on, those are the repository's.
use stolosio.Prelude.{ℕ, String, Option, none, some, List, [], ◌∷◌, Bool, true, Time, if◌then◌else◌}
use stolosio.Contracts.{
  Key, Json, ProviderName, AttemptState, StolosioSession, ProviderAttempt, AttemptAdmissionStatus,
  Result, ok, err,
}
use stolosio.Tables.{Database}
use stolosio.Attempts.Enqueue.{enqueue}
use stolosio.Attempts.Claim.{claim}
use stolosio.Attempts.Progress.{finish}
use stolosio.Admission.Retry.{
  Fault, transient, timed_out, other, Run, Raised, database_error, repository_error, unreachable,
  Retried, raises, returns, database_attempts, retry_transient,
}

-- What is asked for: the arguments of `enqueue`, with the id that is drawn.
pub record Request : Type 0 where
  pub session : StolosioSession
  pub attempt_id : Key
  pub provider : ProviderName
  pub resolved_settings : Json
  pub setting_sources : Json
  pub replacement_for : Option Key

-- The queue's timeout, or the task is cancelled.
pub data Interruption : Type 0 where
  times_out cancelled : Interruption

-- What an acquisition meets. It may be cancelled before `enqueue` answers; it polls once for each of
-- the rounds and is then interrupted. A statement that is cut off may have committed: with `cut_off`
-- it has, at that run.
pub record Circumstances : Type 0 where
  pub cancelled_early : Bool
  pub enqueue_runs : ℕ → Run
  pub rounds : List (ℕ → Run)
  pub interruption : Interruption
  pub cut_off : Option Run
  pub cleanup : Run

pub data Ending : Type 0 where
  leased : ProviderAttempt → Ending
  queue_full : Ending
  queue_timeout client_gone : ProviderAttempt → Ending
  failed_with : Raised → Ending

-- ProviderAttempt(...), before the admission
abbrev pub requested_attempt : Request → ProviderAttempt
requested_attempt q = record {
  attempt_id = q.attempt_id;
  session_id = q.session.session_id;
  ordinal = 0;
  provider = q.provider;
  state = AttemptState.requested;
  provider_instance_id = none;
  endpoint = none;
}

abbrev pub admission :
    Request → Time → Database → Result ((AttemptAdmissionStatus × ProviderAttempt) × Database)
admission q =
    enqueue q.session q.attempt_id q.provider q.resolved_settings q.setting_sources
      q.replacement_for

abbrev pub next_database {ℓ} : {Answer : Type ℓ} → Database → Result (Answer × Database) → Database
next_database found (ok (answer, next)) = next
next_database found (err e) = found

-- The database after an operation that was cut off.
abbrev pub cut :
    {Answer : Type 0}
    → (Time → Database → Result (Answer × Database))
    → Option Run
    → Database
    → Database
cut operation none db = db
cut operation (some r) db = next_database (r.others db) (operation r.now (r.others db))

abbrev pub cleaned : Option Fault → ProviderAttempt → String → Time → Database → Database
cleaned none attempt reason now db = (finish attempt true reason none none now db).1
cleaned (some fault) attempt reason now db = db

-- `_fail`: whatever it raises is logged.
unfoldable pub fail : Run → ProviderAttempt → String → Database → Database
unfolding finish
fail r attempt reason db = cleaned r.fault attempt reason r.now (r.others db)

-- The interruption's clause.
unfoldable pub abandon :
    Circumstances → Interruption → ProviderAttempt → Database → Ending × Database
unfolding fail
abandon c times_out attempt db =
    (queue_timeout attempt, fail c.cleanup attempt "provider_queue_timeout" db)
abandon c cancelled attempt db =
    (client_gone attempt, fail c.cleanup attempt "client_disconnected" db)

-- What is raised within the `try`: a TimeoutError, whoever raises it, is taken for the queue's.
unfoldable pub after_raise : Circumstances → ProviderAttempt → Raised → Database → Ending × Database
unfolding abandon
after_raise c attempt (database_error timed_out) db = abandon c times_out attempt db
after_raise c attempt (database_error transient) db = (failed_with (database_error transient), db)
after_raise c attempt (database_error other) db = (failed_with (database_error other), db)
after_raise c attempt (repository_error e) db = (failed_with (repository_error e), db)
after_raise c attempt unreachable db = (failed_with unreachable, db)

-- After one round of the queue's loop; `rest` is what the rounds after it come to.
unfoldable pub after_claim :
    Circumstances
    → ProviderAttempt
    → Retried (Option ProviderAttempt)
    → Database
    → Ending × Database
    → Ending × Database
unfolding after_raise
after_claim c attempt (raises e) next rest = after_raise c attempt e next
after_claim c attempt (returns (some claimed)) next rest = (leased claimed, next)
after_claim c attempt (returns none) next rest = rest

-- The loop in the queue.
unfoldable pub poll :
    Circumstances
    → StolosioSession
    → ProviderAttempt
    → List (ℕ → Run)
    → Database
    → Ending × Database
unfolding abandon after_claim claim retry_transient
poll c s attempt [] db = abandon c c.interruption attempt (cut (claim s attempt) c.cut_off db)
poll c s attempt (runs ∷ rounds) db =
    let (outcome, next) = retry_transient (claim s attempt) runs database_attempts 0 db in
    let rest = poll c s attempt rounds next in after_claim c attempt outcome next rest

unfoldable pub after_enqueue :
    Circumstances
    → ProviderAttempt
    → StolosioSession
    → Retried (AttemptAdmissionStatus × ProviderAttempt) × Database
    → Ending × Database
unfolding poll after_raise
after_enqueue c requested s (raises e, db) = after_raise c requested e db
after_enqueue c requested s (returns (AttemptAdmissionStatus.full, attempt), db) = (queue_full, db)
after_enqueue c requested s (returns (AttemptAdmissionStatus.acquiring, attempt), db) =
    (leased attempt, db)
after_enqueue c requested s (returns (AttemptAdmissionStatus.queued, attempt), db) =
    poll c s attempt c.rounds db

-- `acquire`, of a concrete provider.
unfoldable pub acquire_attempt : Request → Circumstances → Database → Ending × Database
unfolding after_enqueue abandon enqueue retry_transient
acquire_attempt q c db =
    if c.cancelled_early
    then abandon c cancelled (requested_attempt q) (cut (admission q) c.cut_off db)
    else after_enqueue c (requested_attempt q) q.session
        (retry_transient (admission q) c.enqueue_runs database_attempts 0 db)

pub record AttemptLease : Type 0 where
  pub attempt : ProviderAttempt
  pub released : Bool

-- The arguments of `release`.
pub record Release : Type 0 where
  pub failed : Bool
  pub reason : String
  pub command_summary : Option Json
  pub phase_summary : Option Json

abbrev pub finishing : AttemptLease → Release → Time → Database → Result (Bool × Database)
finishing l r now db =
    ok (finish l.attempt r.failed r.reason r.command_summary r.phase_summary now db)

abbrev pub released_lease :
    AttemptLease → Retried Bool × Database → Retried (Unit {0}) × (AttemptLease × Database)
released_lease l (raises e, db) = (raises e, (l, db))
released_lease l (returns found, db) = (returns tt, (record l { released = true }, db))

-- AttemptLease.release, without the notification of those that wait.
unfoldable pub release_lease :
    (ℕ → Run) → Release → AttemptLease → Database → Retried (Unit {0}) × (AttemptLease × Database)
unfolding retry_transient finish
release_lease runs r l db =
    if l.released
    then (returns tt, (l, db))
    else released_lease l (retry_transient (finishing l r) runs database_attempts 0 db)
