-- ===== src/Sessions/Capacity.antt =====
-- The gateway never holds more live sessions than its limit, whatever the calls, their order and
-- their clock values.
use stolosio.Prelude.{
  ℕ, ◌≤◌, ◌≡◌, refl, String, Option, List, [], ◌∷◌, Bool, true, Time, arith, inl, inr, Bool-cases,
  Option-cases, is_some, count, find, All,
}
use stolosio.Prelude.Counts.{
  count-update_where-le, count_mono, count_mono_All, count-update_row-le, All-update_where,
  All-update_row,
}
use stolosio.Contracts.{Key, Json, StolosioSession}
use stolosio.Tables.{GatewaySession, Database}
use stolosio.Sessions.Live.{live_session_state, holds_lease, is_stale, is_owned}
use stolosio.Sessions.Events.{SessionRepositorySettings}
use stolosio.Sessions.Expiry.{expire_stale}
use stolosio.Sessions.Admission.{active_count, admit}
use stolosio.Sessions.Lease.{heartbeat, open_lease, renew_lease, open_session, may_open}
use stolosio.Sessions.Release.{release, terminate, is_terminal}
use stolosio.Sessions.Calls.{SessionCall, admits, heartbeats, opens, releases, step, run}

-- A session in a live state, its lease aside.
abbrev pub is_live : GatewaySession → Bool
is_live row = live_session_state row.state

abbrev pub live_rows : Database → ℕ
live_rows db = count is_live db.sessions

-- A session in a live state has a lease: the column is NULL only before and after.
abbrev pub HasLease : GatewaySession → Type 0
HasLease row = is_live row ≡ true → is_some row.lease_expires_at ≡ true

abbrev pub IsLeased : Database → Type 0
IsLeased db = All HasLease db.sessions

abbrev Current : Time → GatewaySession → Type 0
Current now row = is_live row ≡ true → holds_lease now row ≡ true

expire_stale-Current :
    (now : Time) (db : Database) → IsLeased db → All (Current now) (expire_stale now db).sessions
unfolding expire_stale
expire_stale-Current now db leased =
    All-update_where HasLease (Current now) (is_stale now) _ (λ x h e. ground arith)
      (λ x h e. ground arith) db.sessions leased

expire_stale-IsLeased : (now : Time) (db : Database) → IsLeased db → IsLeased (expire_stale now db)
unfolding expire_stale
expire_stale-IsLeased now db leased =
    All-update_where HasLease HasLease (is_stale now) _ (λ x h e. ground arith) (λ x h e. h)
      db.sessions leased

-- After the sweep the live rows are just those that the limit is compared with.
live_rows-expire_stale :
    (now : Time) (db : Database)
    → IsLeased db
    → live_rows (expire_stale now db) ≤ active_count now (expire_stale now db)
unfolding active_count
live_rows-expire_stale now db leased =
    count_mono_All (Current now) is_live (holds_lease now) (λ x h e. h e) _
      (expire_stale-Current now db leased)

live_rows-expire_stale-le :
    (now : Time) (db : Database) → live_rows (expire_stale now db) ≤ live_rows db
unfolding expire_stale
live_rows-expire_stale-le now db =
    count-update_where-le is_live is_live (is_stale now) _ (λ x e. ground arith) db.sessions

-- What every call keeps.
pub record IsWithin (max_active : ℕ) (db : Database) : Type 0 where
  pub leased : IsLeased db
  pub bounded : live_rows db ≤ max_active

module _ (settings : SessionRepositorySettings) (max_active : ℕ) where
  admit-IsWithin :
      (s : StolosioSession) (requested : Json) (reference : Option Key) (now : Time) (db : Database)
      → IsWithin max_active db
      → IsWithin max_active (step settings max_active db (now, admits s requested reference))
  unfolding step admit active_count
  admit-IsWithin s requested reference now db w = ground (
    arith,
    expire_stale-IsLeased now db w.leased,
    live_rows-expire_stale now db w.leased,
    live_rows-expire_stale-le now db,
  )

  heartbeat-IsWithin :
      (s : StolosioSession) (now : Time) (db : Database)
      → IsWithin max_active db
      → IsWithin max_active (heartbeat settings s now db).1
  unfolding heartbeat
  heartbeat-IsWithin s now db w = elim (Option-cases (find (is_owned s) db.sessions)) [
    | inl e ↦ rw (e, heartbeat) w
    | inr (row, e) ↦
        rw (e, heartbeat)
          (elim (Bool-cases (holds_lease now row)) [
            | inl h ↦ rw h (record {
              leased =
                  All-update_row HasLease (is_owned s) _ (λ x _ _ _. refl) db.sessions w.leased;
              bounded = ground (
                arith,
                count-update_row-le is_live (is_owned s) (renew_lease settings now) row db.sessions,
              );
            })
            | inr h ↦ rw h w
          ])
  ]

  open_lease-IsWithin :
      (s : StolosioSession) (now : Time) (db : Database)
      → IsWithin max_active db
      → IsWithin max_active (open_lease settings s now db).1
  unfolding open_lease
  open_lease-IsWithin s now db w = elim (Option-cases (find (is_owned s) db.sessions)) [
    | inl e ↦ rw (e, open_lease) w
    | inr (row, e) ↦
        rw (e, open_lease)
          (elim (Bool-cases (may_open row now)) [
            | inl h ↦ rw h (record {
              leased =
                  All-update_row HasLease (is_owned s) _ (λ x _ _ _. refl) db.sessions w.leased;
              bounded = ground (
                arith,
                count-update_row-le is_live (is_owned s) (open_session settings now) row
                    db.sessions,
              );
            })
            | inr h ↦ rw h w
          ])
  ]

  release-IsWithin :
      (s : StolosioSession) (failed : Bool) (reason : String) (now : Time) (db : Database)
      → IsWithin max_active db
      → IsWithin max_active (release s failed reason now db).1
  unfolding release
  release-IsWithin s failed reason now db w = elim (Option-cases (find (is_owned s) db.sessions)) [
    | inl e ↦ rw (e, release) w
    | inr (row, e) ↦
        rw (e, release)
          (elim (Bool-cases (is_terminal row.state)) [
            | inl h ↦ rw h (record { leased = w.leased; bounded = w.bounded })
            | inr h ↦ rw h (record {
              leased =
                  All-update_row HasLease (is_owned s) (terminate failed reason now)
                    (λ x _ _. ground arith) db.sessions w.leased;
              bounded = ground (
                arith,
                count-update_row-le is_live (is_owned s) (terminate failed reason now) row
                    db.sessions,
              );
            })
          ])
  ]

  step-IsWithin :
      (db : Database) (call : Time × SessionCall)
      → IsWithin max_active db
      → IsWithin max_active (step settings max_active db call)
  unfolding step
  step-IsWithin db (now, admits s requested reference) w =
      admit-IsWithin s requested reference now db w
  step-IsWithin db (now, heartbeats s) w = heartbeat-IsWithin s now db w
  step-IsWithin db (now, opens s) w = open_lease-IsWithin s now db w
  step-IsWithin db (now, releases s failed reason) w = release-IsWithin s failed reason now db w

  run-IsWithin :
      (db : Database) (calls : List (Time × SessionCall))
      → IsWithin max_active db
      → IsWithin max_active (run settings max_active db calls)
  unfolding run
  run-IsWithin db [] w = w
  run-IsWithin db (call ∷ calls) w =
      run-IsWithin (step settings max_active db call) calls (step-IsWithin db call w)

  -- From a database whose live sessions have leases and are at most `max_active`, after any calls
  -- with any clock values, at most `max_active` sessions hold a lease at any time `t`.
  pub active_count-run_le :
      (db : Database) (calls : List (Time × SessionCall)) (t : Time)
      → IsWithin max_active db
      → active_count t (run settings max_active db calls) ≤ max_active
  unfolding active_count
  active_count-run_le db calls t w =
      let w' = run-IsWithin db calls w in
      let fewer =
        count_mono (holds_lease t) is_live (λ x e. ground arith)
          (run settings max_active db calls).sessions in
      omega (arith, fewer, w'.bounded)
