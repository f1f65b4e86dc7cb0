-- ===== src/Admission/Settlement.antt =====
-- An acquisition that is given up and a lease that is released leave no live attempt.
use stolosio.Prelude.{ℕ, Bool, true, false, ◌≡◌, refl, Time, by_test}
use stolosio.Contracts.{ok}
use stolosio.Tables.{Database}
use stolosio.Attempts.Progress.{finish}
use stolosio.Attempts.Endings.{IsOver, finish-IsOver}
use stolosio.Admission.Retry.{
  Run, Retried, raises, returns, database_attempts, retry_transient, retry_transient-returns,
}
use stolosio.Admission.Acquire.{
  Ending, leased, queue_full, queue_timeout, client_gone, failed_with, AttemptLease, Release,
  finishing, released_lease, release_lease,
}

-- The attempt of an acquisition that was given up has no row, or one that is over.
abbrev pub IsSettled : Ending × Database → Type 0
IsSettled (queue_timeout attempt, db) = IsOver attempt db
IsSettled (client_gone attempt, db) = IsOver attempt db
IsSettled (leased attempt, db) = Unit
IsSettled (queue_full, db) = Unit
IsSettled (failed_with e, db) = Unit

-- A lease that is released has no live attempt; one that is not may be released again.
abbrev pub IsClosed : Retried (Unit {0}) × (AttemptLease × Database) → Type 0
IsClosed (raises e, (l, db)) = l.released ≡ false
IsClosed (returns u, (l, db)) = (l.released ≡ true) × IsOver l.attempt db

released_lease-IsClosed :
    (l : AttemptLease) (r : Retried Bool × Database)
    → l.released ≡ false
    → ((answer : Bool) → r.0 ≡ returns answer → IsOver l.attempt r.1)
    → IsClosed (released_lease l r)
released_lease-IsClosed l (raises e, db) n h = n
released_lease-IsClosed l (returns answer, db) n h = (refl, h answer refl)

-- The first release of a lease: either it answers, the lease counts as released and its attempt is
-- over; or it raises, and the lease does not count as released.
pub release_lease-IsClosed :
    (runs : ℕ → Run) (r : Release) (l : AttemptLease) (db : Database)
    → l.released ≡ false
    → IsClosed (release_lease runs r l db)
unfolding release_lease
release_lease-IsClosed runs r l db n =
    by_test IsClosed l.released (λ t. absurd (cc))
      (λ t.
        released_lease-IsClosed l (retry_transient (finishing l r) runs database_attempts 0 db) n
          (λ answer.
            retry_transient-returns (finishing l r) runs (λ a next. IsOver l.attempt next)
              finishing-IsOver database_attempts 0 db answer))
  where
    finishing-IsOver :
        (now : Time) (found : Database) (a : Bool) (next : Database)
        → finishing l r now found ≡ ok (a, next)
        → IsOver l.attempt next
    finishing-IsOver now found a next e =
        let same : (finish l.attempt r.failed r.reason r.command_summary r.phase_summary now
              found).1
            ≡ next =
          cc in
        rw⁻¹ same
          (finish-IsOver l.attempt r.failed r.reason r.command_summary r.phase_summary now found)
