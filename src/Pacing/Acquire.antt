-- ===== src/Pacing/Acquire.antt =====
-- backend/proxy/domain_pacing/repository.py: `acquire`. The row lock makes it one step of the
-- database; `before` and `now` are the clock before the lock is taken and after.
use stolosio.Prelude.{
  ℕ, ◌+◌, ◌-◌, ◌*◌, Option, none, some, List, [], ◌∷◌, Bool, true, false, ◌&&◌, ◌||◌, Time, second,
  if◌then◌else◌, ltb, leb, ◌==◌, min, max, is_after, ceil_div, length, select, find, any,
  update_where, update_row, delete_where, map,
}
use stolosio.Contracts.{Key}
use stolosio.Pacing.Contracts.{
  model_validate, default, Lease, Refusal, domain_cooldown, domain_spacing, domain_concurrency,
  DomainThrottled,
}
use stolosio.Pacing.Tables.{
  DomainPacingSettings, DomainPacingState, DomainPacingLease, DomainPacingRequest, PacingDatabase,
}
use stolosio.Pacing.Refresh.{configuration, refreshed, adjustments_of}

-- What `acquire` answers: a lease; an exception for the client; or another error, which rolls the
-- transaction back.
pub data Acquired : Type 0 where
  granted : Lease → Acquired
  throttled : DomainThrottled → Acquired
  failed : Acquired

abbrev pub of_host : Key → DomainPacingState → Bool
of_host hostname row = row.hostname == hostname

abbrev pub leases_host : Key → DomainPacingLease → Bool
leases_host hostname lease = lease.hostname == hostname

unfoldable pub new_state : DomainPacingSettings → Key → Time → DomainPacingState
new_state config hostname before = record {
  hostname = hostname;
  policy = record {
    concurrency = config.settings.default_concurrency;
    spacing_seconds = config.settings.default_spacing_seconds;
    expires_at = before + config.settings.learned_ttl_seconds * second;
    cooldown_until = none;
    healthy_samples = 0;
    concurrency_samples = 0;
    overload_samples = 0;
    generation = 0;
    reason = default;
    adjusted_at = none;
  };
  next_start_at = before;
  last_started_at = none;
  reset_requested = false;
  spacing_refused_at = none;
  settings_version = config.version;
}

-- insert(...).on_conflict_do_nothing(...)
unfoldable pub ensure_state :
    DomainPacingSettings → Key → Time → List DomainPacingState → List DomainPacingState
unfolding new_state
ensure_state config hostname before states =
    if any (of_host hostname) states then states else new_state config hostname before ∷ states

unfoldable pub live_leases : Key → Time → List DomainPacingLease → List DomainPacingLease
live_leases hostname now leases =
    delete_where (λ l. leases_host hostname l && leb l.expires_at now) leases

-- What the conditions say of a request: refused, granted, or `min` of no value.
pub data Verdict : Type 0 where
  refuses : DomainThrottled → Verdict
  grants empty_minimum : Verdict

abbrev refusal : Refusal → ℕ → Verdict
refusal reason seconds = refuses (record { reason = reason; retry_after_seconds = max 1 seconds })

earliest : Time → List Time → Time
earliest t [] = t
earliest t (u ∷ ts) = min t (earliest u ts)

-- min(5.0, (min(expiries) - now).total_seconds())
unfoldable pub full_verdict : Time → List Time → Verdict
unfolding earliest
full_verdict now [] = empty_minimum
full_verdict now (t ∷ ts) =
    refusal domain_concurrency (ceil_div (min (5 * second) (earliest t ts - now)) second)

abbrev time_left : Option Time → Time → ℕ
time_left none now = 0
time_left (some t) now = ceil_div (t - now) second

unfoldable pub verdict : DomainPacingState → List Time → Time → Verdict
unfolding full_verdict
verdict row expiries now =
    if is_after row.policy.cooldown_until now
    then refusal domain_cooldown (time_left row.policy.cooldown_until now)
    else if ltb now row.next_start_at
    then refusal domain_spacing (ceil_div (row.next_start_at - now) second)
    else if leb row.policy.concurrency (length expiries)
    then full_verdict now expiries
    else grants

abbrev is_recent : Option Time → Time → Time → Bool
is_recent none now twice = false
is_recent (some t) now twice = leb ((now - t) * 2) twice

unfoldable pub new_lease : DomainPacingState → Lease → Key → ℕ → Time → Time → DomainPacingLease
new_lease row lease session_id active lease_seconds now =
    let concurrency_at_limit = ltb 0 active && leb row.policy.concurrency (active + 1) in
    let spacing_at_limit = is_recent row.last_started_at now (row.policy.spacing_seconds * 3) in
    let recent_spacing_demand =
      is_recent row.spacing_refused_at now (max (4 * second) (row.policy.spacing_seconds * 3)) in
    record {
      id = lease.id;
      hostname = lease.hostname;
      session_id = session_id;
      expires_at = now + lease_seconds;
      generation = row.policy.generation;
      at_limit = concurrency_at_limit || (spacing_at_limit || recent_spacing_demand);
      concurrency_at_limit = concurrency_at_limit;
    }

unfoldable pub started : Time → DomainPacingState → DomainPacingState
started now row = record row {
  next_start_at = now + row.policy.spacing_seconds;
  last_started_at = some now;
  spacing_refused_at = none;
}

abbrev full_lease : DomainPacingLease → DomainPacingLease
full_lease lease = record lease { at_limit = true; concurrency_at_limit = true }

abbrev pub refused_row : Refusal → Time → DomainPacingState → DomainPacingState
refused_row domain_spacing now row = record row { spacing_refused_at = some now }
refused_row _ now row = row

-- The row as the conditions leave it.
unfoldable pub decided_row : Verdict → Time → DomainPacingState → DomainPacingState
unfolding started
decided_row grants now row = started now row
decided_row (refuses r) now row = refused_row r.reason now row
decided_row empty_minimum now row = row

-- A caller refused for the concurrency proves demand: every lease of the host is at its limit.
abbrev pub refused_leases : Refusal → Key → List DomainPacingLease → List DomainPacingLease
refused_leases domain_concurrency hostname leases =
    update_where (leases_host hostname) full_lease leases
refused_leases _ hostname leases = leases

unfoldable pub decided_leases :
    Verdict → Key → DomainPacingLease → List DomainPacingLease → List DomainPacingLease
decided_leases grants hostname lease leases = lease ∷ leases
decided_leases (refuses r) hostname lease leases = refused_leases r.reason hostname leases
decided_leases empty_minimum hostname lease leases = leases

unfoldable pub new_request :
    Verdict → DomainPacingState → Lease → ℕ → Time → Time → DomainPacingRequest
new_request verdict row lease active lease_seconds now = record {
  id = lease.id;
  hostname = lease.hostname;
  started_at = now;
  finished_at = none;
  lease_expires_at = expiry verdict;
  refusal = reason verdict;
  outcome = none;
  active_captures = active + added verdict;
  concurrency = row.policy.concurrency;
  spacing_seconds = row.policy.spacing_seconds;
}
  where
    expiry : Verdict → Option Time
    expiry grants = some (now + lease_seconds)
    expiry _ = none

    reason : Verdict → Option Refusal
    reason (refuses r) = some r.reason
    reason _ = none

    added : Verdict → ℕ
    added grants = 1
    added _ = 0

-- The primary keys of the two rows that are added.
abbrev conflicts : Verdict → Key → List DomainPacingLease → List DomainPacingRequest → Bool
conflicts grants id leases requests = any (λ l. l.id == id) leases || any (λ r. r.id == id) requests
conflicts _ id leases requests = any (λ r. r.id == id) requests

abbrev pub answer : Verdict → Lease → Acquired
answer grants lease = granted lease
answer (refuses r) lease = throttled r
answer empty_minimum lease = failed

abbrev pub rolls_back : Verdict → Bool
rolls_back empty_minimum = true
rolls_back _ = false

unfoldable pub expiries : Key → Time → List DomainPacingLease → List Time
unfolding live_leases
expiries hostname now leases =
    map (λ l. l.expires_at) (select (leases_host hostname) (live_leases hostname now leases))

-- What the conditions say of the request, on the row whose allowance is refreshed first.
unfoldable pub decision :
    DomainPacingSettings → DomainPacingState → Lease → Time → PacingDatabase → Verdict
unfolding verdict expiries refreshed
decision config row lease now db =
    verdict (refreshed config now row) (expiries lease.hostname now db.leases) now

unfoldable pub is_undone : Verdict → Lease → Time → PacingDatabase → Bool
unfolding live_leases
is_undone v lease now db =
    rolls_back v || conflicts v lease.id (live_leases lease.hostname now db.leases) db.requests

-- The database after a request that is granted or refused.
unfoldable pub written :
    DomainPacingSettings
    → DomainPacingState
    → Lease
    → Key
    → Time
    → Time
    → PacingDatabase
    → PacingDatabase
unfolding decision live_leases expiries decided_row decided_leases new_lease new_request
written config row lease session_id lease_seconds now db =
    let fresh = refreshed config now row in
    let v = decision config row lease now db in
    let active = length (expiries lease.hostname now db.leases) in
    record db {
      settings = some config;
      states = update_row (of_host lease.hostname) (λ _. decided_row v now fresh) db.states;
      leases =
          decided_leases v lease.hostname
            (new_lease fresh lease session_id active lease_seconds now)
            (live_leases lease.hostname now db.leases);
      requests = new_request v fresh lease active lease_seconds now ∷ db.requests;
      adjustments = adjustments_of session_id config now row db.adjustments;
    }

unfoldable pub acquire_row :
    DomainPacingSettings
    → DomainPacingState
    → Lease
    → Key
    → Time
    → Time
    → PacingDatabase
    → Acquired × PacingDatabase
unfolding is_undone decision written
acquire_row config row lease session_id lease_seconds now db =
    let v = decision config row lease now db in
    if is_undone v lease now db
    then (failed, db)
    else (answer v lease, written config row lease session_id lease_seconds now db)

abbrev pub acquire_found :
    DomainPacingSettings
    → Option DomainPacingState
    → Lease
    → Key
    → Time
    → Time
    → PacingDatabase
    → Acquired × PacingDatabase
acquire_found config none lease session_id lease_seconds now db = (failed, db)
acquire_found config (some row) lease session_id lease_seconds now db =
    acquire_row config row lease session_id lease_seconds now db

-- A failure undoes the inserts too.
abbrev pub restored : PacingDatabase → Acquired × PacingDatabase → Acquired × PacingDatabase
restored db (failed, _) = (failed, db)
restored db (granted l, after) = (granted l, after)
restored db (throttled t, after) = (throttled t, after)

-- The transaction on the row, which is there after the first insert.
unfoldable pub attempted :
    Key → Key → Time → Key → Time → Time → PacingDatabase → Acquired × PacingDatabase
unfolding configuration ensure_state acquire_found
attempted hostname session_id lease_seconds lease_id before now db =
    let config = configuration db in
    let ready = record db { states = ensure_state config hostname before db.states } in
    acquire_found config (find (of_host hostname) ready.states)
      (record { id = lease_id; hostname = hostname }) session_id lease_seconds now ready

unfoldable pub acquire :
    Key → Key → Time → Key → Time → Time → PacingDatabase → Acquired × PacingDatabase
unfolding attempted
acquire hostname session_id lease_seconds lease_id before now db =
    if model_validate (configuration db).settings
    then restored db (attempted hostname session_id lease_seconds lease_id before now db)
    else (failed, db)
