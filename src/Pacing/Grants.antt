-- ===== src/Pacing/Grants.antt =====
-- What a granted request says of the row it met.
use stolosio.Prelude.{
  ◌≤◌, ◌<◌, ◌≡◌, refl, Option, none, some, false, List, [], ◌∷◌, Time, arith, Bool-cases, inl, inr,
  leb, ltb, is_after, find, length,
}
use stolosio.Contracts.{Key}
use stolosio.Pacing.Contracts.{Lease, model_validate}
use stolosio.Pacing.Tables.{DomainPacingSettings, DomainPacingState, PacingDatabase}
use stolosio.Pacing.Refresh.{configuration}
use stolosio.Pacing.Acquire.{
  Acquired, granted, throttled, failed, of_host, ensure_state, Verdict, refuses, grants,
  empty_minimum, verdict, full_verdict, decision, is_undone, written, answer, acquire_row,
  acquire_found, attempted, acquire, restored,
}

-- A database to which the row of a host is added where it is missing.
abbrev pub opened : Key → Time → PacingDatabase → PacingDatabase
opened hostname before db = record db {
  states = ensure_state (configuration db) hostname before db.states;
}

-- The row that a granted request met, and that the conditions let it pass.
pub record IsGranted (hostname session_id : Key) (seconds : Time) (lease : Lease)
    (before now : Time) (db after : PacingDatabase) : Type 0 where
  pub row : DomainPacingState
  pub met : find (of_host hostname) (opened hostname before db).states ≡ some row
  pub passes : decision (configuration db) row lease now (opened hostname before db) ≡ grants
  pub result :
      after
      ≡ written (configuration db) row lease session_id seconds now (opened hostname before db)

restored-granted :
    (db : PacingDatabase) (r : Acquired × PacingDatabase) (l : Lease)
    → (restored db r).0 ≡ granted l
    → r.0 ≡ granted l
restored-granted db (granted k, _) l e = e
restored-granted db (throttled t, _) l e = cc
restored-granted db (failed, _) l e = cc

restored_same :
    (db : PacingDatabase) (r : Acquired × PacingDatabase) (l : Lease)
    → r.0 ≡ granted l
    → (restored db r).1 ≡ r.1
restored_same db (granted k, _) l e = refl
restored_same db (throttled t, _) l e = cc
restored_same db (failed, _) l e = cc

answer-granted : (v : Verdict) (l k : Lease) → answer v l ≡ granted k → v ≡ grants
answer-granted grants l k e = refl
answer-granted (refuses r) l k e = cc
answer-granted empty_minimum l k e = cc

acquire_row-granted :
    (config : DomainPacingSettings) (row : DomainPacingState) (lease : Lease) (session_id : Key)
    (seconds now : Time) (db : PacingDatabase) (k : Lease)
    → (acquire_row config row lease session_id seconds now db).0 ≡ granted k
    → (decision config row lease now db ≡ grants)
      × ((acquire_row config row lease session_id seconds now db).1
          ≡ written config row lease session_id seconds now db)
unfolding acquire_row
acquire_row-granted config row lease session_id seconds now db k e =
    elim (Bool-cases (is_undone (decision config row lease now db) lease now db)) [
      | inl t ↦ absurd (let f : failed ≡ granted k = rw t at e in cc)
      | inr t ↦ (answer-granted (decision config row lease now db) lease k (rw t at e), rw t refl)
    ]

attempted-IsGranted :
    (hostname session_id : Key) (seconds : Time) (lease_id : Key) (before now : Time)
    (db : PacingDatabase) (k : Lease)
    → (attempted hostname session_id seconds lease_id before now db).0 ≡ granted k
    → IsGranted hostname session_id seconds
        (record { id = lease_id; hostname = hostname })
        before
        now
        db
        (attempted hostname session_id seconds lease_id before now db).1
unfolding attempted
attempted-IsGranted hostname session_id seconds lease_id before now db k e =
    go (find (of_host hostname) (opened hostname before db).states) refl e
  where
    lease : Lease
    lease = record { id = lease_id; hostname = hostname }

    go :
        (found : Option DomainPacingState)
        → find (of_host hostname) (opened hostname before db).states ≡ found
        → (acquire_found
            (configuration db)
            found
            lease
            session_id
            seconds
            now
            (opened hostname before db)).0
          ≡ granted k
        → IsGranted hostname session_id seconds lease before now db
            (acquire_found
              (configuration db)
              found
              lease
              session_id
              seconds
              now
              (opened hostname before db)).1
    go none x y = cc
    go (some row) x y =
        let (p, q) =
          acquire_row-granted (configuration db) row lease session_id seconds now
            (opened hostname before db) k y in
        record { row = row; met = x; passes = p; result = q }

pub acquire-IsGranted :
    (hostname session_id : Key) (seconds : Time) (lease_id : Key) (before now : Time)
    (db : PacingDatabase) (k : Lease)
    → (acquire hostname session_id seconds lease_id before now db).0 ≡ granted k
    → IsGranted hostname session_id seconds
        (record { id = lease_id; hostname = hostname })
        before
        now
        db
        (acquire hostname session_id seconds lease_id before now db).1
unfolding acquire
acquire-IsGranted hostname session_id seconds lease_id before now db k e =
    elim (Bool-cases (model_validate (configuration db).settings)) [
      | inr t ↦ absurd (let f : failed ≡ granted k = rw t at e in cc)
      | inl t ↦ rw t (
          let e' = restored-granted db _ k (rw t at e) in
          rw (restored_same db (attempted hostname session_id seconds lease_id before now db) k e')
            (attempted-IsGranted hostname session_id seconds lease_id before now db k e'))
    ]

full_verdict-no_grant : (now : Time) (ts : List Time) → ¬ (full_verdict now ts ≡ grants)
unfolding full_verdict
full_verdict-no_grant now [] e = cc
full_verdict-no_grant now (t ∷ ts) e = cc

-- A request is granted where no cooldown runs, the spacing has passed and there is room.
pub verdict-grants :
    (row : DomainPacingState) (ts : List Time) (now : Time)
    → verdict row ts now ≡ grants
    → (is_after row.policy.cooldown_until now ≡ false)
      × (row.next_start_at ≤ now)
      × (length ts < row.policy.concurrency)
unfolding verdict
verdict-grants row ts now e = elim (Bool-cases (is_after row.policy.cooldown_until now)) [
  | inl a ↦ absurd (ground arith)
  | inr a ↦ elim (Bool-cases (ltb now row.next_start_at)) [
    | inl b ↦ absurd (ground arith)
    | inr b ↦ elim (Bool-cases (leb row.policy.concurrency (length ts))) [
      | inl c ↦ absurd (full_verdict-no_grant now ts (rw (a, b, c) at e))
      | inr c ↦ (a, ground arith, ground arith)
    ]
  ]
]
