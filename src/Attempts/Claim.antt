-- ===== src/Attempts/Claim.antt =====
-- backend/proxy/postgres/attempts.py: `claim` and `queue`. The head of a provider's queue gets a
-- slot, if there is one.
use stolosio.Prelude.{
  Option, none, some, List, [], ◌∷◌, Bool, true, false, ◌&&◌, Time, if◌then◌else◌, ◌==◌, leb, ltb,
  is_some, find, update_row,
}
use stolosio.Contracts.{
  Key, ProviderName, StolosioSession, ProviderAttempt, capacity_not_configured, Result, ok, err,
  ◌>>=◌,
}
use stolosio.Tables.{
  AcquisitionAttempt, ProviderInstance, ProviderFleet, ExternalProviderLimit, Database,
}
use stolosio.Attempts.Live.{owned_session, queued_attempt_state, counted, active_count}
use stolosio.Attempts.Placement.{select_instance}
use stolosio.Attempts.Expiry.{expire_stale}
use stolosio.Attempts.Enqueue.{contract, acquiring_row, instance_endpoint, fleet_of, limit_of}

-- The row of the attempt, of this session.
abbrev pub names : StolosioSession → ProviderAttempt → AcquisitionAttempt → Bool
names s attempt a = a.id == attempt.attempt_id && a.session_id == s.session_id

abbrev pub earlier : AcquisitionAttempt → Option AcquisitionAttempt → AcquisitionAttempt
earlier a none = a
earlier a (some b) = if leb a.queue_sequence b.queue_sequence then a else b

-- order_by(queue_sequence).limit(1) over the rows that `p` selects
unfoldable pub first_queued :
    (AcquisitionAttempt → Bool) → List AcquisitionAttempt → Option AcquisitionAttempt
first_queued p [] = none
first_queued p (a ∷ rest) =
    let others = first_queued p rest in if p a then some (earlier a others) else others

-- The head of the provider's queue, among the attempts whose sessions serve.
unfoldable pub queue_head : ProviderName → Time → Database → Option AcquisitionAttempt
unfolding first_queued
queue_head provider now db =
    first_queued (counted provider queued_attempt_state now db.sessions) db.attempts

abbrev pub is_attempt : Key → Option AcquisitionAttempt → Bool
is_attempt id none = false
is_attempt id (some a) = a.id == id

-- The slot for the head: an instance of the managed fleet (`some (some i)`), or one of the external
-- provider's sessions (`some none`).
abbrev pub slot :
    Option ProviderFleet
    → Option ExternalProviderLimit
    → ProviderName
    → Time
    → Database
    → Result (Option (Option ProviderInstance))
slot none none provider now db = err capacity_not_configured
slot none (some external) provider now db = ok (
    if external.enabled && ltb (active_count provider now db) external.max_active_sessions
    then some none
    else none)
slot (some managed) external provider now db = ok (
    if external_allows external && managed.enabled
    then chosen (select_instance provider now db)
    else none)
  where
    external_allows : Option ExternalProviderLimit → Bool
    external_allows none = true
    external_allows (some l) = l.enabled

    chosen : Option ProviderInstance → Option (Option ProviderInstance)
    chosen none = none
    chosen (some i) = some (some i)

unfoldable pub grant :
    StolosioSession
    → ProviderAttempt
    → Time
    → AcquisitionAttempt
    → Database
    → Option (Option ProviderInstance)
    → Option ProviderAttempt × Database
unfolding contract acquiring_row
grant s attempt now row db none = (none, db)
grant s attempt now row db (some instance') = (
  some (contract (acquiring_row now instance' row) (instance_endpoint instance')),
  record db { attempts = update_row (names s attempt) (acquiring_row now instance') db.attempts },
)

unfoldable pub claim_row :
    StolosioSession
    → ProviderAttempt
    → Time
    → Option AcquisitionAttempt
    → Database
    → Result (Option ProviderAttempt × Database)
unfolding queue_head grant
claim_row s attempt now none db = ok (none, db)
claim_row s attempt now (some row) db =
    if queued_attempt_state row.state
      && is_attempt attempt.attempt_id (queue_head attempt.provider now db)
    then (do
      place ←
          slot (fleet_of attempt.provider db) (limit_of attempt.provider db) attempt.provider now db
      ok (grant s attempt now row db place))
    else ok (none, db)

unfoldable pub claim :
    StolosioSession → ProviderAttempt → Time → Database → Result (Option ProviderAttempt × Database)
unfolding claim_row
claim s attempt now db =
    let swept = expire_stale attempt.provider now db in
    if is_some (owned_session s now db)
    then claim_row s attempt now (find (names s attempt) swept.attempts) swept
    else ok (none, db)
