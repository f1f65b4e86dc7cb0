-- ===== src/Gateway/Slots.antt =====
-- Browser slots are never oversold: the session repository ends attempts and never starts one, so
-- the bound of the attempts' repository holds after any calls of both.
use stolosio.Prelude.{
  ℕ, ◌≡◌, refl, ap, ◌∙◌, String, Option, Bool, true, false, ◌||◌, Time, arith, inl, inr, Bool-cases,
  Option-cases, ◌==◌, any, find, update_where, leb,
}
use native.Mathlib.Nat.{le_trans}
use stolosio.Prelude.Counts.{count-update_where-le, All-update_where, All-map}
use stolosio.Prelude.Writes.{any-update_where_same, any-update_row_same}
use stolosio.Prelude.Keys.{Distinct-update_where}
use stolosio.Contracts.{Key, Json, ProviderName, AttemptState, StolosioSession}
use stolosio.Tables.{GatewaySession, AcquisitionAttempt, Database}
use stolosio.Usage.Laws.{finalize_attempt_usage-id}
use stolosio.Sessions.Live.{is_stale, is_owned, holds_lease}
use stolosio.Sessions.Events.{SessionRepositorySettings, text_or}
use stolosio.Sessions.Expiry.{expire_stale, expire_row, end_attempt, orphaned, of_session}
use stolosio.Sessions.Admission.{admit, taken, active_count}
use stolosio.Sessions.Lease.{heartbeat, open_lease, renew_lease, open_session, may_open}
use stolosio.Sessions.Release.{release, release_attempts, terminate, is_terminal, is_failed}
use stolosio.Sessions.Idempotence.{terminate-id}
use stolosio.Sessions.Calls
use stolosio.Sessions.Calls.{SessionCall, admits, heartbeats, opens, releases}
use stolosio.Attempts.Live.{active_attempt_state, occupies}
use stolosio.Attempts.Occupancy.{IsLinked, IsRoomy}

-- An attempt that ends gives its slot back, and keeps its key.
end_attempt-idle :
    (k : Key) (db : Database) (now : Time) (state : AttemptState) (reason : String)
    (a : AcquisitionAttempt)
    → active_attempt_state state ≡ false
    → occupies k (end_attempt db now state reason a) ≡ false
unfolding end_attempt
end_attempt-idle k db now state reason a e = ground arith

end_attempt-id :
    (db : Database) (now : Time) (state : AttemptState) (reason : String) (a : AcquisitionAttempt)
    → (end_attempt db now state reason a).id ≡ a.id
unfolding end_attempt
end_attempt-id db now state reason a = finalize_attempt_usage-id db.rates now a

module _ (k : Key) (p : ProviderName) (c : ℕ) where
  -- Ending some attempts keeps the bound.
  ended-IsRoomy :
      (test : AcquisitionAttempt → Bool) (state : AttemptState) (reason : String) (now : Time)
      (db db' : Database)
      → IsRoomy k p c db
      → active_attempt_state state ≡ false
      → db'.sessions ≡ db.sessions
      → db'.attempts ≡ update_where test (end_attempt db now state reason) db.attempts
      → db'.instances ≡ db.instances
      → IsRoomy k p c db'
  ended-IsRoomy test state reason now db db' w idle es ea ei = record {
    known = rw ei w.known;
    distinct = rw ea (
        Distinct-update_where (λ a. a.id) test (end_attempt db now state reason)
          (end_attempt-id db now state reason) db.attempts w.distinct);
    linked =
        rw (es, ea)
          (All-update_where (IsLinked k p db.sessions) (IsLinked k p db.sessions) test
            (end_attempt db now state reason)
            (λ a h e.
              let gone = end_attempt-idle k db now state reason a idle in
              λ o. absurd (ground arith))
            (λ a h e. h) db.attempts w.linked);
    bounded = rw ea (
        le_trans
          (count-update_where-le (occupies k) (occupies k) test (end_attempt db now state reason)
            (λ a e. let gone = end_attempt-idle k db now state reason a idle in ground arith)
            db.attempts)
          w.bounded);
  }

  -- Sessions may change as long as none leaves the table.
  sessions-IsRoomy :
      (db db' : Database)
      → IsRoomy k p c db
      → ((id : Key)
          → any (λ r. r.id == id) db.sessions ≡ true
          → any (λ r. r.id == id) db'.sessions ≡ true)
      → db'.attempts ≡ db.attempts
      → db'.instances ≡ db.instances
      → IsRoomy k p c db'
  sessions-IsRoomy db db' w stay ea ei = record {
    known = rw ei w.known;
    distinct = rw ea w.distinct;
    linked = rw ea (
        All-map (IsLinked k p db.sessions) (IsLinked k p db'.sessions)
          (λ a h o. (stay a.session_id (h o).0, (h o).1)) db.attempts w.linked);
    bounded = rw ea w.bounded;
  }

  expire_stale-IsRoomy :
      (now : Time) (db : Database) → IsRoomy k p c db → IsRoomy k p c (expire_stale now db)
  unfolding expire_stale
  expire_stale-IsRoomy now db w =
      sessions-IsRoomy
        (record db {
          attempts =
              update_where (orphaned db now)
                (end_attempt db now AttemptState.failed "session_lease_expired") db.attempts;
        })
        _
        (ended-IsRoomy (orphaned db now) AttemptState.failed "session_lease_expired" now db _ w refl
          refl refl refl)
        (λ id h.
          any-update_where_same (λ r. r.id == id) (is_stale now) (expire_row now)
            (λ r. unfold expire_row in refl) db.sessions
          ∙ h)
        refl refl

  module _ (settings : SessionRepositorySettings) (max_active : ℕ) (now : Time)
      (db : Database) where
    pub admit-IsRoomy :
        (s : StolosioSession) (requested : Json) (reference : Option Key)
        → IsRoomy k p c db
        → IsRoomy k p c (Calls.step settings max_active db (now, admits s requested reference))
    unfolding Calls.step admit
    admit-IsRoomy s requested reference w =
        elim (Bool-cases (taken s reference (expire_stale now db).sessions)) [
          | inl t ↦ rw t w
          | inr t ↦
              rw t (elim (Bool-cases (leb max_active (active_count now (expire_stale now db)))) [
                | inl f ↦ rw f (
                    sessions-IsRoomy (expire_stale now db) _ (expire_stale-IsRoomy now db w)
                      (λ id h. ground arith) refl refl)
                | inr f ↦ rw f (
                    sessions-IsRoomy (expire_stale now db) _ (expire_stale-IsRoomy now db w)
                      (λ id h. ground arith) refl refl)
              ])
        ]

    pub heartbeat-IsRoomy :
        (s : StolosioSession) → IsRoomy k p c db → IsRoomy k p c (heartbeat settings s now db).1
    unfolding heartbeat
    heartbeat-IsRoomy s w = elim (Option-cases (find (is_owned s) db.sessions)) [
      | inl e ↦ rw (e, heartbeat) w
      | inr (row, e) ↦
          rw (e, heartbeat)
            (elim (Bool-cases (holds_lease now row)) [
              | inl h ↦ rw h (
                  sessions-IsRoomy db _ w
                    (λ id known.
                      any-update_row_same (λ r. r.id == id) (is_owned s) (renew_lease settings now)
                        (λ r. refl) db.sessions
                      ∙ known)
                    refl refl)
              | inr h ↦ rw h w
            ])
    ]

    pub open_lease-IsRoomy :
        (s : StolosioSession) → IsRoomy k p c db → IsRoomy k p c (open_lease settings s now db).1
    unfolding open_lease
    open_lease-IsRoomy s w = elim (Option-cases (find (is_owned s) db.sessions)) [
      | inl e ↦ rw (e, open_lease) w
      | inr (row, e) ↦
          rw (e, open_lease)
            (elim (Bool-cases (may_open row now)) [
              | inl h ↦ rw h (
                  sessions-IsRoomy db _ w
                    (λ id known.
                      any-update_row_same (λ r. r.id == id) (is_owned s) (open_session settings now)
                        (λ r. refl) db.sessions
                      ∙ known)
                    refl refl)
              | inr h ↦ rw h w
            ])
    ]

    release_attempts-IsRoomy :
        (row : GatewaySession) (failed : Bool) (reason : String)
        → IsRoomy k p c db
        → IsRoomy k p c (release_attempts row failed reason now db)
    unfolding release_attempts
    release_attempts-IsRoomy row true reason w =
        ended-IsRoomy (of_session row.id) AttemptState.failed reason now db _ w refl refl refl refl
    release_attempts-IsRoomy row false reason w =
        ended-IsRoomy (of_session row.id) AttemptState.completed reason now db _ w refl refl refl
          refl

    pub release-IsRoomy :
        (s : StolosioSession) (failed : Bool) (reason : String)
        → IsRoomy k p c db
        → IsRoomy k p c (release s failed reason now db).1
    unfolding release
    release-IsRoomy s failed reason w = elim (Option-cases (find (is_owned s) db.sessions)) [
      | inl e ↦ rw (e, release) w
      | inr (row, e) ↦
          rw (e, release)
            (let cleaned =
                release_attempts-IsRoomy row (failed || is_failed row.state)
                  (text_or row.terminal_reason reason) w in
              elim (Bool-cases (is_terminal row.state)) [
                | inl h ↦ rw h cleaned
                | inr h ↦ rw h (
                    sessions-IsRoomy _ _ cleaned
                      (λ id known.
                        any-update_row_same (λ r. r.id == id) (is_owned s)
                          (terminate failed reason now)
                          (λ r. ap (λ (x : Key). x == id) (terminate-id failed reason now r)) _
                        ∙ known)
                      refl refl)
              ])
    ]
