-- ===== src/Pacing/Capacity.antt =====
-- A granted capture is one of at most as many as the settings allow.
use stolosio.Prelude.{
  suc, ◌≤◌, ◌≡◌, refl, ap, Bool, List, [], ◌∷◌, Time, arith, length, select, map, count,
}
use stolosio.Contracts.{Key}
use stolosio.Pacing.Contracts.{Lease}
use stolosio.Pacing.Tables.{DomainPacingLease, PacingDatabase}
use stolosio.Pacing.Refresh.{configuration, refreshed}
use stolosio.Pacing.Acquire.{
  granted, of_host, leases_host, live_leases, decision, expiries, written, decided_leases,
  new_lease, acquire,
}
use stolosio.Pacing.Soundness.{
  IsCurrent, IsSound, refreshed-IsWithin, find-All, ensure_state-IsCurrent,
}
use stolosio.Pacing.Calls.{PacingCall, run}
use stolosio.Pacing.Laws.{run-IsSound}
use stolosio.Pacing.Grants.{IsGranted, acquire-IsGranted, verdict-grants, opened}

length-map {ℓ κ} :
    {A : Type ℓ} {B : Type κ} (f : A → B) (xs : List A) → length (map f xs) ≡ length xs
length-map f [] = refl
length-map f (x ∷ xs) = ap suc (length-map f xs)

length-select {ℓ} : {A : Type ℓ} (p : A → Bool) (xs : List A) → length (select p xs) ≡ count p xs
length-select p [] = refl
length-select p (x ∷ xs) = let ih = length-select p xs in ground arith

length-expiries :
    (hostname : Key) (now : Time) (leases : List DomainPacingLease)
    → length (expiries hostname now leases)
      ≡ count (leases_host hostname) (live_leases hostname now leases)
unfolding expiries
length-expiries hostname now leases =
    rw
      (length-map (λ (l : DomainPacingLease). l.expires_at)
        (select (leases_host hostname) (live_leases hostname now leases)))
      (length-select (leases_host hostname) (live_leases hostname now leases))

granted_le :
    (hostname session_id : Key) (seconds : Time) (lease : Lease) (before now : Time)
    (db after : PacingDatabase)
    → lease.hostname ≡ hostname
    → IsSound db
    → IsGranted hostname session_id seconds lease before now db after
    → count (leases_host hostname) after.leases ≤ (configuration db).settings.maximum_concurrency
unfolding written decision decided_leases new_lease
granted_le hostname session_id seconds lease before now db after h w g =
    let c = configuration db in
    let rows = ensure_state-IsCurrent c hostname before db.states w.settings w.rows in
    let here =
      find-All (IsCurrent c) (of_host hostname) (opened hostname before db).states g.met rows in
    let within = refreshed-IsWithin c now g.row w.settings here in
    let (_, _, room) =
      verdict-grants (refreshed c now g.row) (expiries lease.hostname now db.leases) now g.passes in
    let size = length-expiries lease.hostname now db.leases in
    let top = within.concurrency in rw (g.result, g.passes) (ground arith)

-- From a database whose settings and rows are valid, after any calls of the pacing repository: when
-- a capture of a domain is granted, the leases of the domain, the new one among them, are no more
-- than the configured maximum.
pub granted-run_le :
    (db : PacingDatabase) (calls : List (Time × PacingCall)) (hostname session_id : Key)
    (seconds : Time) (lease_id : Key) (before now : Time) (k : Lease)
    → IsSound db
    → (acquire hostname session_id seconds lease_id before now (run db calls)).0 ≡ granted k
    → count
        (leases_host hostname)
        (acquire hostname session_id seconds lease_id before now (run db calls)).1.leases
      ≤ (configuration (run db calls)).settings.maximum_concurrency
granted-run_le db calls hostname session_id seconds lease_id before now k w e =
    let db' = run db calls in
    granted_le hostname session_id seconds (record { id = lease_id; hostname = hostname }) before
      now db' (acquire hostname session_id seconds lease_id before now db').1 refl
      (run-IsSound db calls w)
      (acquire-IsGranted hostname session_id seconds lease_id before now db' k e)
