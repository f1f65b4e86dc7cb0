-- ===== src/Admission/Retry.antt =====
-- backend/proxy/attempts/manager.py: `_retry_transient`.
use stolosio.Prelude.{
  ℕ, zero, suc, ◌+◌, ◌≤◌, ◌<◌, Option, none, some, Bool, true, false, ◌≡◌, refl, Time,
  if◌then◌else◌, arith,
}
use stolosio.Contracts.{RepositoryError, Result, ok, err}
use stolosio.Tables.{Database}

-- Why a transaction is rolled back: a deadlock or a serialization failure, a TimeoutError of the
-- driver, or another error.
pub data Fault : Type 0 where
  transient timed_out other : Fault

-- What one run of a transaction meets: a fault, its clock, and what other processes write before it.
pub record Run : Type 0 where
  pub fault : Option Fault
  pub now : Time
  pub others : Database → Database

pub data Raised : Type 0 where
  database_error : Fault → Raised
  repository_error : RepositoryError → Raised
  unreachable : Raised

pub data Retried (Answer : Type 0) : Type 0 where
  raises : Raised → Retried Answer
  returns : Answer → Retried Answer

-- _DATABASE_ATTEMPTS
abbrev pub database_attempts : ℕ
database_attempts = 3

abbrev pub is_zero : ℕ → Bool
is_zero zero = true
is_zero (suc n) = false

module _ {Answer : Type 0} where
  -- A run that meets no fault: the transaction commits, or its own exception rolls it back.
  abbrev pub committed : Database → Result (Answer × Database) → Retried Answer × Database
  committed found (ok (answer, next)) = (returns answer, next)
  committed found (err e) = (raises (repository_error e), found)

  -- One run, by its fault; `rest` is what the runs after it come to.
  abbrev pub after_fault :
      Option Fault
      → Bool
      → Database
      → Result (Answer × Database)
      → Retried Answer × Database
      → Retried Answer × Database
  after_fault none is_last found result rest = committed found result
  after_fault (some other) is_last found result rest = (raises (database_error other), found)
  after_fault (some timed_out) is_last found result rest =
      (raises (database_error timed_out), found)
  after_fault (some transient) is_last found result rest =
      if is_last then (raises (database_error transient), found) else rest

  module _ (operation : Time → Database → Result (Answer × Database)) (runs : ℕ → Run) where
    -- The runs from the `k`th on, `left` of them at most.
    unfoldable pub retry_transient : ℕ → ℕ → Database → Retried Answer × Database
    retry_transient zero k db = (raises unreachable, db)
    retry_transient (suc left) k db =
        let found = (runs k).others db in
        let rest = retry_transient left (k + 1) found in
        after_fault (runs k).fault (is_zero left) found (operation (runs k).now found) rest

    -- What the `n`th run from the `k`th on finds.
    unfoldable pub met : ℕ → ℕ → Database → Database
    met zero k db = (runs k).others db
    met (suc n) k db = met n (k + 1) ((runs k).others db)

    -- Where the first `n` runs meet transient errors, the next one meets none, and there are more
    -- than `n` runs: the outcome is that run's, over what other processes have written. A run that
    -- was rolled back leaves nothing.
    pub retry_transient-commits :
        (n left k : ℕ) (db : Database)
        → n < left
        → ((i : ℕ) → k ≤ i → i < k + n → (runs i).fault ≡ some transient)
        → (runs (k + n)).fault ≡ none
        → retry_transient left k db
          ≡ committed (met n k db) (operation (runs (k + n)).now (met n k db))
    unfolding retry_transient met
    retry_transient-commits n zero k db lt f e = absurd (omega arith)
    retry_transient-commits zero (suc left) k db lt f e =
        let same : k + 0 ≡ k = omega arith in
        let e' : (runs k).fault ≡ none = rw same at e in rw (same, e') refl
    retry_transient-commits (suc n) (suc left) k db lt f e =
        let same : k + suc n ≡ k + 1 + n = omega arith in
        let first : (runs k).fault ≡ some transient = f k (omega arith) (omega arith) in
        let more : is_zero left ≡ false = positive left (omega arith) in
        rw (same, first, more)
          (retry_transient-commits n left (k + 1) ((runs k).others db) (omega arith)
            (λ i a b. f i (omega arith) (omega arith)) (rw same at e))
      where
        positive : (m : ℕ) → n < m → is_zero m ≡ false
        positive zero lt = absurd (omega arith)
        positive (suc m) lt = refl

    -- What holds of every commit holds of an answer.
    pub retry_transient-returns {ℓ} :
        (P : Answer → Database → Type ℓ)
        → ((now : Time) (db : Database) (answer : Answer) (next : Database)
            → operation now db ≡ ok (answer, next)
            → P answer next)
        → (left k : ℕ) (db : Database) (answer : Answer)
        → (retry_transient left k db).0 ≡ returns answer
        → P answer (retry_transient left k db).1
    unfolding retry_transient
    retry_transient-returns P h zero k db answer e = absurd (cc)
    retry_transient-returns P h (suc left) k db answer e =
        go (runs k).fault (is_zero left) (operation (runs k).now ((runs k).others db)) refl e
          (retry_transient-returns P h left (k + 1) ((runs k).others db) answer)
      where
        go :
            (fault : Option Fault) (is_last : Bool) (result : Result (Answer × Database))
            → operation (runs k).now ((runs k).others db) ≡ result
            → (after_fault fault is_last
                ((runs k).others db)
                result
                (retry_transient left (k + 1) ((runs k).others db))).0
              ≡ returns answer
            → ((retry_transient left (k + 1) ((runs k).others db)).0 ≡ returns answer
                → P answer (retry_transient left (k + 1) ((runs k).others db)).1)
            → P answer
                (after_fault fault is_last
                  ((runs k).others db)
                  result
                  (retry_transient left (k + 1) ((runs k).others db))).1
        go none is_last (ok (given, next)) e f ih =
            let same : given ≡ answer = cc in
            rw⁻¹ same (h (runs k).now ((runs k).others db) given next e)
        go none is_last (err raised) e f ih = absurd (cc)
        go (some other) is_last result e f ih = absurd (cc)
        go (some timed_out) is_last result e f ih = absurd (cc)
        go (some transient) true result e f ih = absurd (cc)
        go (some transient) false result e f ih = ih f
