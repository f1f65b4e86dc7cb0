-- ===== src/Pacing/Distance.antt =====
-- Granted captures of a domain are at least its spacing apart, whatever is called between them.
use stolosio.Prelude.{
  either, ◌+◌, ◌≤◌, ◌≡◌, refl, ap, Option, none, some, true, List, [], ◌∷◌, Time, arith, Bool-cases,
  inl, inr, not, ltb, find, update_row,
}
use stolosio.Prelude.Writes.{find-update_row, find-test}
use stolosio.Contracts.{Key}
use stolosio.Pacing.Contracts.{Lease, Observation, model_validate}
use stolosio.Pacing.Tables.{
  DomainPacingSettings, DomainPacingState, DomainPacingLease, PacingDatabase,
}
use stolosio.Pacing.Refresh.{configuration, refreshed, update_settings, SettingsChanges, merged}
use stolosio.Pacing.Acquire.{
  Acquired, granted, throttled, failed, of_host, expiries, decision, decided_row, started,
  is_undone, written, acquire_row, acquire_found, attempted, acquire, restored,
}
use stolosio.Pacing.Release.{
  is_lease, learned_row, learn, closed, close_lease, release_found, release, request_reset,
  reset_row,
}
use stolosio.Pacing.Grants.{IsGranted, acquire-IsGranted, verdict-grants, opened}
use stolosio.Pacing.Spacing.{
  Waits, refreshed-IsLater, update_row-Waits, learned_row-IsLater, ensure_state-Waits,
  written-Waits,
}
use stolosio.Pacing.Calls.{
  PacingCall, acquires, releases, requests_reset, updates_settings, step, run, committed,
}

module _ (h : Key) (t : Time) where
  acquire_found-Waits :
      (config : DomainPacingSettings) (lease : Lease) (session_id : Key) (seconds now : Time)
      (db : PacingDatabase) (found : Option DomainPacingState)
      → find (of_host lease.hostname) db.states ≡ found
      → Waits h t db.states
      → Waits h t (acquire_found config found lease session_id seconds now db).1.states
  unfolding acquire_row
  acquire_found-Waits config lease session_id seconds now db none e w = w
  acquire_found-Waits config lease session_id seconds now db (some row) e w =
      either (λ (r : Acquired × PacingDatabase). Waits h t r.1.states)
        (is_undone (decision config row lease now db) lease now db) w
        (written-Waits h t config row lease session_id seconds now db e w)

  restored-Waits :
      (db : PacingDatabase) (r : Acquired × PacingDatabase)
      → Waits h t db.states
      → Waits h t r.1.states
      → Waits h t (restored db r).1.states
  restored-Waits db (failed, _) w w' = w
  restored-Waits db (granted l, _) w w' = w'
  restored-Waits db (throttled r, _) w w' = w'

  acquire-Waits :
      (hostname session_id : Key) (seconds : Time) (lease_id : Key) (before now : Time)
      (db : PacingDatabase)
      → Waits h t db.states
      → Waits h t (acquire hostname session_id seconds lease_id before now db).1.states
  unfolding acquire attempted
  acquire-Waits hostname session_id seconds lease_id before now db w =
      let ready = opened hostname before db in
      let w' =
        acquire_found-Waits (configuration db) (record { id = lease_id; hostname = hostname })
          session_id seconds now ready (find (of_host hostname) ready.states) refl
          (ensure_state-Waits h t (configuration db) hostname before db.states w) in
      either (λ (r : Acquired × PacingDatabase). Waits h t r.1.states)
        (model_validate (configuration db).settings)
        (restored-Waits db (attempted hostname session_id seconds lease_id before now db) w w') w

  learn-Waits :
      (lease : Lease) (row : DomainPacingState) (held : DomainPacingLease) (o : Observation)
      (now : Time) (db : PacingDatabase)
      → find (of_host lease.hostname) db.states ≡ some row
      → Waits h t db.states
      → Waits h t (committed (learn lease row held o now db) db).states
  unfolding learn
  learn-Waits lease row held o now db e w =
      let P : Option PacingDatabase → Type 0 = λ r. Waits h t (committed r db).states in
      let c = configuration db in
      either P (not (ltb now held.expires_at)) w (
        either P (model_validate c.settings)
          (update_row-Waits h t lease.hostname row (learned_row c held o now row) db.states e
            (learned_row-IsLater c held o now row) w)
          w)

  closed-Waits :
      (lease : Lease) (o : Option Observation) (now : Time) (r : Option PacingDatabase)
      (db : PacingDatabase)
      → Waits h t db.states
      → Waits h t (committed r db).states
      → Waits h t (committed (closed lease o now r) db).states
  unfolding close_lease
  closed-Waits lease o now none db w w' = w
  closed-Waits lease o now (some after) db w w' = w'

  release_found-Waits :
      (lease : Lease) (o : Option Observation) (now : Time) (row : Option DomainPacingState)
      (held : Option DomainPacingLease) (db : PacingDatabase)
      → find (of_host lease.hostname) db.states ≡ row
      → Waits h t db.states
      → Waits h t (committed (release_found lease o now row held db) db).states
  release_found-Waits lease o now none held db e w = w
  release_found-Waits lease o now (some row) none db e w = w
  release_found-Waits lease none now (some row) (some held) db e w =
      closed-Waits lease none now (some db) db w w
  release_found-Waits lease (some o) now (some row) (some held) db e w =
      closed-Waits lease (some o) now (learn lease row held o now db) db w
        (learn-Waits lease row held o now db e w)

  request_reset-Waits :
      (hostname : Key) (db : PacingDatabase)
      → Waits h t db.states
      → Waits h t (request_reset hostname db).1.states
  unfolding request_reset Waits
  request_reset-Waits hostname db (r, f, b) = go db.states f
    where
      go :
          (xs : List DomainPacingState)
          → find (of_host h) xs ≡ some r
          → (x : DomainPacingState) × (find (of_host h) (update_row (of_host hostname) reset_row xs)
              ≡ some x)
            × (t ≤ x.next_start_at)
      go [] e = cc
      go (x ∷ xs) e = elim (Bool-cases (of_host h x)) [
        | inl here ↦
            let x≡r : x ≡ r = ground arith in
            let late : t ≤ x.next_start_at =
              omega (arith, b, ap (λ (y : DomainPacingState). y.next_start_at) x≡r) in
            elim (Bool-cases (of_host hostname x)) [
              | inl u ↦ (reset_row x, rw (u, here) refl, late)
              | inr u ↦ (x, rw (u, here) refl, late)
            ]
        | inr away ↦ elim (Bool-cases (of_host hostname x)) [
          | inl u ↦ (r, rw u (rw away (rw away at e)), b)
          | inr u ↦ let (y, g, c) = go xs (rw away at e) in (y, rw u (rw away g), c)
        ]
      ]

  update_settings-Waits :
      (changes : SettingsChanges) (db : PacingDatabase)
      → Waits h t db.states
      → Waits h t (committed (update_settings changes db) db).states
  unfolding update_settings
  update_settings-Waits changes db w =
      either (λ (r : Option PacingDatabase). Waits h t (committed r db).states)
        (model_validate (merged (configuration db).settings changes)) w w

  step-Waits :
      (db : PacingDatabase) (call : Time × PacingCall)
      → Waits h t db.states
      → Waits h t (step db call).states
  unfolding step release
  step-Waits db (now, acquires hostname session_id seconds lease_id before) w =
      acquire-Waits hostname session_id seconds lease_id before now db w
  step-Waits db (now, releases lease o) w =
      release_found-Waits lease o now (find (of_host lease.hostname) db.states)
        (find (is_lease lease.id) db.leases) db refl w
  step-Waits db (now, requests_reset hostname) w = request_reset-Waits hostname db w
  step-Waits db (now, updates_settings changes) w = update_settings-Waits changes db w

  run-Waits :
      (db : PacingDatabase) (calls : List (Time × PacingCall))
      → Waits h t db.states
      → Waits h t (run db calls).states
  unfolding run
  run-Waits db [] w = w
  run-Waits db (call ∷ calls) w = run-Waits (step db call) calls (step-Waits db call w)

  -- A capture that is granted met a row whose time had come.
  granted-after :
      (session_id : Key) (seconds : Time) (lease_id : Key) (before now : Time) (db : PacingDatabase)
      (k : Lease)
      → Waits h t db.states
      → (acquire h session_id seconds lease_id before now db).0 ≡ granted k
      → t ≤ now
  unfolding Waits decision
  granted-after session_id seconds lease_id before now db k w e =
      let g = acquire-IsGranted h session_id seconds lease_id before now db k e in
      let (r, f, b) = ensure_state-Waits h t (configuration db) h before db.states w in
      let same : r ≡ g.row = let m = g.met in cc in
      let fresh : DomainPacingState = refreshed (configuration db) now g.row in
      let (_, come, _) = verdict-grants fresh (expiries h now db.leases) now g.passes in
      let later = (refreshed-IsLater (configuration db) now g.row).start in
      omega (arith, b, come, later, ap (λ (y : DomainPacingState). y.next_start_at) same)

started-host :
    (now : Time) (h : Key) (r : DomainPacingState)
    → of_host h r ≡ true
    → of_host h (started now r) ≡ true
unfolding started
started-host now h r e = e

started_start :
    (now : Time) (r : DomainPacingState)
    → now + (started now r).policy.spacing_seconds ≤ (started now r).next_start_at
unfolding started
started_start now r = omega arith

-- The row after a grant.
find-granted :
    (h session_id : Key) (seconds : Time) (lease_id : Key) (before now : Time)
    (db after : PacingDatabase)
    (g : IsGranted h session_id seconds
      (record { id = lease_id; hostname = h })
      before
      now
      db
      after)
    → find (of_host h) after.states ≡ some (started now (refreshed (configuration db) now g.row))
unfolding written decided_row
find-granted h session_id seconds lease_id before now db after g =
    let fresh : DomainPacingState = refreshed (configuration db) now g.row in
    let key = find-test (of_host h) (opened h before db).states g.met in
    let host = (refreshed-IsLater (configuration db) now g.row).host in
    rw (g.result, g.passes)
      (find-update_row (of_host h) (λ _. started now fresh) g.row (opened h before db).states g.met
        (started-host now h fresh (host_key fresh host key)))
  where
    host_key :
        (r : DomainPacingState)
        → r.hostname ≡ g.row.hostname
        → of_host h g.row ≡ true
        → of_host h r ≡ true
    host_key r e k = rw e k

granted-Waits :
    (h session_id : Key) (seconds : Time) (lease_id : Key) (before now : Time) (db : PacingDatabase)
    (k : Lease) (row : DomainPacingState)
    → (acquire h session_id seconds lease_id before now db).0 ≡ granted k
    → find (of_host h) (acquire h session_id seconds lease_id before now db).1.states ≡ some row
    → Waits h
        (now + row.policy.spacing_seconds)
        (acquire h session_id seconds lease_id before now db).1.states
unfolding Waits
granted-Waits h session_id seconds lease_id before now db k row e f =
    let g = acquire-IsGranted h session_id seconds lease_id before now db k e in
    let found =
      find-granted h session_id seconds lease_id before now db
        (acquire h session_id seconds lease_id before now db).1 g in
    let same : row ≡ started now (refreshed (configuration db) now g.row) = cc in
    (row, f, rw same (started_start now (refreshed (configuration db) now g.row)))

-- When a capture of a domain is granted at one time and another at a later call, with any calls of
-- the pacing repository between them, the second starts no earlier than the spacing after the
-- first: the spacing that stands in the domain's row after the first.
pub acquire_spaced_apart :
    (h session_id session_id' : Key) (seconds seconds' : Time) (lease_id lease_id' : Key)
    (before before' now now' : Time) (db : PacingDatabase) (k k' : Lease)
    (calls : List (Time × PacingCall)) (row : DomainPacingState)
    → (acquire h session_id seconds lease_id before now db).0 ≡ granted k
    → find (of_host h) (acquire h session_id seconds lease_id before now db).1.states ≡ some row
    → (acquire h session_id' seconds' lease_id' before' now'
        (run (acquire h session_id seconds lease_id before now db).1 calls)).0
      ≡ granted k'
    → now + row.policy.spacing_seconds ≤ now'
acquire_spaced_apart h s s' n n' i i' b b' now now' db k k' calls row e f e' =
    let t = now + row.policy.spacing_seconds in
    let first = (acquire h s n i b now db).1 in
    granted-after h t s' n' i' b' now' (run first calls) k'
      (run-Waits h t first calls (granted-Waits h s n i b now db k row e f)) e'
