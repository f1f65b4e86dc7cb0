-- ===== src/Pacing/Soundness.antt =====
-- The allowances in force lie within the settings in force, after any calls.
use stolosio.Prelude.{
  either, ◌≤◌, ◌≡◌, refl, Option, none, some, Bool, List, [], ◌∷◌, Time, arith, All, Bool-cases,
  inl, inr, ◌==◌, subst, any, find,
}
use stolosio.Prelude.Counts.{All-update_row}
use stolosio.Contracts.{Key}
use stolosio.Pacing.Contracts.{
  Refusal, domain_cooldown, domain_spacing, domain_concurrency, Policy, Lease, model_validate,
}
use stolosio.Pacing.Controller.{reset}
use stolosio.Pacing.Bounds.{IsValid, IsWithin}
use stolosio.Pacing.Tables.{DomainPacingSettings, DomainPacingState, PacingDatabase}
use stolosio.Pacing.Refresh.{configuration, is_outdated, reset_policy, refreshed}
use stolosio.Pacing.Acquire.{
  is_undone, decision, written, attempted, Acquired, refused_row, of_host, new_state, ensure_state,
  Verdict, refuses, grants, empty_minimum, decided_row, acquire_row, acquire_found, acquire,
  restored, granted, throttled, failed,
}

-- A row's allowance was learned under these settings or under earlier ones, and where it was under
-- these, it lies within them.
pub record IsCurrent (config : DomainPacingSettings) (row : DomainPacingState) : Type 0 where
  pub version : row.settings_version ≤ config.version
  pub within : row.settings_version ≡ config.version → IsWithin config.settings row.policy

-- The settings in force are valid, and so is each row that was learned under them.
pub record IsSound (db : PacingDatabase) : Type 0 where
  pub settings : IsValid (configuration db).settings
  pub rows : All (IsCurrent (configuration db)) db.states

reset_policy-IsWithin :
    (config : DomainPacingSettings) (now : Time) (row : DomainPacingState)
    → IsValid config.settings
    → IsWithin config.settings (reset_policy config now row)
unfolding reset_policy reset
reset_policy-IsWithin config now row v =
    let P : Policy → Type 0 = IsWithin config.settings in
    let fresh : (p : Policy)
        → p.concurrency ≡ config.settings.default_concurrency
        → p.spacing_seconds ≡ config.settings.default_spacing_seconds
        → P p =
      λ p e f. record {
        one = rw e v.one;
        concurrency = rw e v.concurrency;
        low = rw f v.low;
        high = rw f v.high;
      } in
    elim (Bool-cases (row.settings_version == config.version)) [
      | inl e ↦ rw e (either P row.reset_requested (fresh _ refl refl) (fresh _ refl refl))
      | inr e ↦ rw e (either P row.reset_requested (fresh _ refl refl) (fresh _ refl refl))
    ]

-- The allowance that a capture meets is one of the settings in force.
pub refreshed-IsWithin :
    (config : DomainPacingSettings) (now : Time) (row : DomainPacingState)
    → IsValid config.settings
    → IsCurrent config row
    → IsWithin config.settings (refreshed config now row).policy
unfolding refreshed is_outdated
refreshed-IsWithin config now row v c = elim (Bool-cases (is_outdated config now row)) [
  | inl e ↦ rw e (reset_policy-IsWithin config now row v)
  | inr e ↦ rw e (c.within (ground arith))
]

pub refreshed_version :
    (config : DomainPacingSettings) (now : Time) (row : DomainPacingState)
    → (refreshed config now row).settings_version ≡ config.version
unfolding refreshed is_outdated
refreshed_version config now row = elim (Bool-cases (is_outdated config now row)) [
  | inl e ↦ rw e refl
  | inr e ↦ rw e (ground arith)
]

refused_row_same :
    (r : Refusal) (now : Time) (row : DomainPacingState)
    → ((refused_row r now row).policy ≡ row.policy)
      × ((refused_row r now row).settings_version ≡ row.settings_version)
refused_row_same domain_cooldown now row = (refl, refl)
refused_row_same domain_spacing now row = (refl, refl)
refused_row_same domain_concurrency now row = (refl, refl)

decided_row_same :
    (v : Verdict) (now : Time) (row : DomainPacingState)
    → ((decided_row v now row).policy ≡ row.policy)
      × ((decided_row v now row).settings_version ≡ row.settings_version)
unfolding decided_row
decided_row_same grants now row = (refl, refl)
decided_row_same (refuses r) now row = refused_row_same r.reason now row
decided_row_same empty_minimum now row = (refl, refl)

decided_row-IsCurrent :
    (config : DomainPacingSettings) (v : Verdict) (now : Time) (row : DomainPacingState)
    → IsValid config.settings
    → IsCurrent config row
    → IsCurrent config (decided_row v now (refreshed config now row))
decided_row-IsCurrent config v now row w c =
    let (p, q) = decided_row_same v now (refreshed config now row) in
    record {
      version = omega (arith, q, refreshed_version config now row);
      within = λ e. rw p (refreshed-IsWithin config now row w c);
    }

pub find-All :
    (P : DomainPacingState → Type 0) (p : DomainPacingState → Bool) (xs : List DomainPacingState)
    {row : DomainPacingState}
    → find p xs ≡ some row
    → All P xs
    → P row
find-All P p [] e a = cc
find-All P p (x ∷ xs) {row = row} e a = elim (Bool-cases (p x)) [
  | inl t ↦ let same : x ≡ row = ground arith in subst P same a.0
  | inr t ↦ find-All P p xs (rw t at e) a.1
]

pub ensure_state-IsCurrent :
    (config : DomainPacingSettings) (hostname : Key) (before : Time) (xs : List DomainPacingState)
    → IsValid config.settings
    → All (IsCurrent config) xs
    → All (IsCurrent config) (ensure_state config hostname before xs)
unfolding ensure_state new_state
ensure_state-IsCurrent config hostname before xs v a =
    either (All (IsCurrent config)) (any (of_host hostname) xs) a (
      record {
        version = omega arith;
        within =
            λ e. record { one = v.one; concurrency = v.concurrency; low = v.low; high = v.high };
      },
      a,
    )

written-IsSound :
    (config : DomainPacingSettings) (row : DomainPacingState) (lease : Lease) (session_id : Key)
    (seconds now : Time) (db : PacingDatabase)
    → IsValid config.settings
    → IsCurrent config row
    → All (IsCurrent config) db.states
    → IsSound (written config row lease session_id seconds now db)
unfolding written configuration
written-IsSound config row lease session_id seconds now db valid here current = record {
  settings = valid;
  rows =
      All-update_row (IsCurrent config) (of_host lease.hostname) _
        (λ x p t.
          decided_row-IsCurrent config (decision config row lease now db) now row valid here)
        db.states current;
}

acquire_found-IsSound :
    (config : DomainPacingSettings) (lease : Lease) (session_id : Key) (seconds now : Time)
    (db : PacingDatabase) (found : Option DomainPacingState)
    → configuration db ≡ config
    → find (of_host lease.hostname) db.states ≡ found
    → IsSound db
    → IsSound (acquire_found config found lease session_id seconds now db).1
unfolding acquire_row configuration
acquire_found-IsSound config lease session_id seconds now db none c e w = w
acquire_found-IsSound config lease session_id seconds now db (some row) c e w =
    let current : All (IsCurrent config) db.states = rw c at w.rows in
    let valid : IsValid config.settings = rw c at w.settings in
    let here = find-All (IsCurrent config) (of_host lease.hostname) db.states e current in
    either (λ (r : Acquired × PacingDatabase). IsSound r.1)
      (is_undone (decision config row lease now db) lease now db) w
      (written-IsSound config row lease session_id seconds now db valid here current)

restored-IsSound :
    (db : PacingDatabase) (r : Acquired × PacingDatabase)
    → IsSound db
    → IsSound r.1
    → IsSound (restored db r).1
restored-IsSound db (failed, _) w w' = w
restored-IsSound db (granted l, _) w w' = w'
restored-IsSound db (throttled t, _) w w' = w'

pub acquire-IsSound :
    (hostname session_id : Key) (seconds : Time) (lease_id : Key) (before now : Time)
    (db : PacingDatabase)
    → IsSound db
    → IsSound (acquire hostname session_id seconds lease_id before now db).1
unfolding acquire configuration attempted
acquire-IsSound hostname session_id seconds lease_id before now db w =
    let ready = record db { states = ensure_state (configuration db) hostname before db.states } in
    let rows =
      ensure_state-IsCurrent (configuration db) hostname before db.states w.settings w.rows in
    let w' =
      acquire_found-IsSound (configuration db) (record { id = lease_id; hostname = hostname })
        session_id seconds now ready (find (of_host hostname) ready.states) refl refl
        (record { settings = w.settings; rows = rows }) in
    either (λ (r : Acquired × PacingDatabase). IsSound r.1)
      (model_validate (configuration db).settings)
      (restored-IsSound db (attempted hostname session_id seconds lease_id before now db) w w') w
