-- ===== src/Pacing/Laws.antt =====
-- The other calls keep the allowances sound, and so does every sequence of calls.
use stolosio.Prelude.{
  either, ◌≡◌, refl, Option, none, some, List, [], ◌∷◌, Time, arith, Bool-cases, inl, inr, not, ltb,
  ◌==◌, find,
}
use stolosio.Prelude.Counts.{All-update_row, All-map}
use stolosio.Contracts.{Key}
use stolosio.Pacing.Contracts.{Lease, Observation, model_validate}
use stolosio.Pacing.Bounds.{IsValid, model_validate-IsValid, update-IsWithin}
use stolosio.Pacing.Tables.{
  DomainPacingSettings, DomainPacingState, DomainPacingLease, PacingDatabase,
}
use stolosio.Pacing.Refresh.{configuration, refreshed, update_settings, SettingsChanges, merged}
use stolosio.Pacing.Acquire.{of_host}
use stolosio.Pacing.Release.{
  is_lease, learned, learned_row, learn, closed, close_lease, release_found, release, request_reset,
}
use stolosio.Pacing.Soundness.{
  IsCurrent, IsSound, refreshed-IsWithin, refreshed_version, find-All, acquire-IsSound,
}
use stolosio.Pacing.Calls.{
  PacingCall, acquires, releases, requests_reset, updates_settings, step, run, committed,
}

learned_row-IsCurrent :
    (config : DomainPacingSettings) (held : DomainPacingLease) (o : Observation) (now : Time)
    (row : DomainPacingState)
    → IsValid config.settings
    → IsCurrent config row
    → IsCurrent config (learned_row config held o now row)
unfolding learned_row learned
learned_row-IsCurrent config held o now row v c =
    let fresh : DomainPacingState = refreshed config now row in
    let same = refreshed_version config now row in
    let w =
      update-IsWithin config.settings fresh.policy o now held.at_limit held.concurrency_at_limit
        held.generation (refreshed-IsWithin config now row v c) in
    either (IsCurrent config)
      ((learned config held o now row).generation == fresh.policy.generation)
      (record { version = omega (arith, same); within = λ e. w })
      (record { version = omega (arith, same); within = λ e. w })

learn-IsSound :
    (lease : Lease) (row : DomainPacingState) (held : DomainPacingLease) (o : Observation)
    (now : Time) (db : PacingDatabase)
    → find (of_host lease.hostname) db.states ≡ some row
    → IsSound db
    → IsSound (committed (learn lease row held o now db) db)
unfolding learn configuration
learn-IsSound lease row held o now db e w =
    let P : Option PacingDatabase → Type 0 = λ r. IsSound (committed r db) in
    let c = configuration db in
    let here = find-All (IsCurrent c) (of_host lease.hostname) db.states e w.rows in
    either P (not (ltb now held.expires_at)) w (
      either P (model_validate c.settings)
        (record {
          settings = w.settings;
          rows =
              All-update_row (IsCurrent c) (of_host lease.hostname) _
                (λ x p t. learned_row-IsCurrent c held o now row w.settings here) db.states w.rows;
        })
        w)

closed-IsSound :
    (lease : Lease) (o : Option Observation) (now : Time) (r : Option PacingDatabase)
    (db : PacingDatabase)
    → IsSound db
    → IsSound (committed r db)
    → IsSound (committed (closed lease o now r) db)
unfolding close_lease configuration
closed-IsSound lease o now none db w w' = w
closed-IsSound lease o now (some after) db w w' = record { settings = w'.settings; rows = w'.rows }

release_found-IsSound :
    (lease : Lease) (o : Option Observation) (now : Time) (row : Option DomainPacingState)
    (held : Option DomainPacingLease) (db : PacingDatabase)
    → find (of_host lease.hostname) db.states ≡ row
    → IsSound db
    → IsSound (committed (release_found lease o now row held db) db)
release_found-IsSound lease o now none held db e w = w
release_found-IsSound lease o now (some row) none db e w = w
release_found-IsSound lease none now (some row) (some held) db e w =
    closed-IsSound lease none now (some db) db w w
release_found-IsSound lease (some o) now (some row) (some held) db e w =
    closed-IsSound lease (some o) now (learn lease row held o now db) db w
      (learn-IsSound lease row held o now db e w)

release-IsSound :
    (lease : Lease) (o : Option Observation) (now : Time) (db : PacingDatabase)
    → IsSound db
    → IsSound (committed (release lease o now db) db)
unfolding release
release-IsSound lease o now db w =
    release_found-IsSound lease o now (find (of_host lease.hostname) db.states)
      (find (is_lease lease.id) db.leases) db refl w

request_reset-IsSound :
    (hostname : Key) (db : PacingDatabase) → IsSound db → IsSound (request_reset hostname db).1
unfolding request_reset configuration
request_reset-IsSound hostname db w = record {
  settings = w.settings;
  rows =
      All-update_row (IsCurrent (configuration db)) (of_host hostname) _
        (λ x p t. record { version = p.version; within = p.within }) db.states w.rows;
}

update_settings-IsSound :
    (changes : SettingsChanges) (db : PacingDatabase)
    → IsSound db
    → IsSound (committed (update_settings changes db) db)
unfolding update_settings configuration
update_settings-IsSound changes db w =
    let c = configuration db in
    let settings = merged c.settings changes in
    elim (Bool-cases (model_validate settings)) [
      | inl e ↦ rw e (record {
        settings = model_validate-IsValid settings e;
        rows =
            All-map _ _
              (λ x p. record {
                version = omega (arith, p.version);
                within = λ same. absurd (omega (arith, p.version, same));
              })
              db.states w.rows;
      })
      | inr e ↦ rw e w
    ]

step-IsSound :
    (db : PacingDatabase) (call : Time × PacingCall) → IsSound db → IsSound (step db call)
unfolding step
step-IsSound db (now, acquires hostname session_id seconds lease_id before) w =
    acquire-IsSound hostname session_id seconds lease_id before now db w
step-IsSound db (now, releases lease o) w = release-IsSound lease o now db w
step-IsSound db (now, requests_reset hostname) w = request_reset-IsSound hostname db w
step-IsSound db (now, updates_settings changes) w = update_settings-IsSound changes db w

-- Where the settings in force are valid, and every row that was learned under them lies within
-- their bounds, that is still so after any calls of the pacing repository, with any observations,
-- any changes of the settings and any clock values.
pub run-IsSound :
    (db : PacingDatabase) (calls : List (Time × PacingCall)) → IsSound db → IsSound (run db calls)
unfolding run
run-IsSound db [] w = w
run-IsSound db (call ∷ calls) w = run-IsSound (step db call) calls (step-IsSound db call w)
