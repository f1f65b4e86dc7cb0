-- ===== src/Pacing/Retries.antt =====
-- A capture that releases its lease again changes nothing: its sample counts once.
use stolosio.Prelude.{
  ◌≡◌, refl, subst, Option, none, some, Bool, List, [], ◌∷◌, Time, arith, Option-cases, inl, inr,
  find, delete_where,
}
use stolosio.Pacing.Contracts.{Lease, Observation}
use stolosio.Pacing.Tables.{DomainPacingState, DomainPacingLease, PacingDatabase}
use stolosio.Pacing.Acquire.{of_host}
use stolosio.Pacing.Release.{is_lease, learn, closed, close_lease, release_found, release}

find-delete_where {ℓ} :
    {A : Type ℓ} (p : A → Bool) (xs : List A) → find p (delete_where p xs) ≡ none
find-delete_where p [] = refl
find-delete_where p (x ∷ xs) = let ih = find-delete_where p xs in ground arith

-- A lease that is not there is not released.
release-find-none :
    (lease : Lease) (o : Option Observation) (now : Time) (db : PacingDatabase)
    → find (is_lease lease.id) db.leases ≡ none
    → release lease o now db ≡ some db
unfolding release
release-find-none lease o now db e = rw e (go (find (of_host lease.hostname) db.states))
  where
    go : (row : Option DomainPacingState) → release_found lease o now row none db ≡ some db
    go none = refl
    go (some row) = refl

release-find-no_state :
    (lease : Lease) (o : Option Observation) (now : Time) (db : PacingDatabase)
    → find (of_host lease.hostname) db.states ≡ none
    → release lease o now db ≡ some db
unfolding release
release-find-no_state lease o now db e = rw e refl

closed-leases :
    (lease : Lease) (o : Option Observation) (now : Time) (r : Option PacingDatabase)
    {after : PacingDatabase}
    → closed lease o now r ≡ some after
    → find (is_lease lease.id) after.leases ≡ none
unfolding close_lease
closed-leases lease o now none e = cc
closed-leases lease o now (some db) {after = after} e =
    let same : close_lease lease o now db ≡ after = cc in
    subst (λ (d : PacingDatabase). find (is_lease lease.id) d.leases ≡ none) same
      (find-delete_where (is_lease lease.id) db.leases)

release_found-leases :
    (lease : Lease) (o : Option Observation) (now : Time) (row : DomainPacingState)
    (held : DomainPacingLease) (db : PacingDatabase) {after : PacingDatabase}
    → release_found lease o now (some row) (some held) db ≡ some after
    → find (is_lease lease.id) after.leases ≡ none
release_found-leases lease none now row held db e = closed-leases lease none now (some db) e
release_found-leases lease (some o) now row held db e =
    closed-leases lease (some o) now (learn lease row held o now db) e

-- After a release that commits, every later release of the same lease, with any observation and at
-- any time, changes nothing.
pub release_once :
    (lease : Lease) (o o' : Option Observation) (now now' : Time) (db after : PacingDatabase)
    → release lease o now db ≡ some after
    → release lease o' now' after ≡ some after
unfolding release
release_once lease o o' now now' db after e =
    elim (Option-cases (find (of_host lease.hostname) db.states)) [
      | inl a ↦
          let same : db ≡ after = let f = release-find-no_state lease o now db a in cc in
          subst (λ (d : PacingDatabase). release lease o' now' d ≡ some d) same
            (release-find-no_state lease o' now' db a)
      | inr (row, a) ↦ elim (Option-cases (find (is_lease lease.id) db.leases)) [
        | inl b ↦
            let same : db ≡ after = let f = release-find-none lease o now db b in cc in
            subst (λ (d : PacingDatabase). release lease o' now' d ≡ some d) same
              (release-find-none lease o' now' db b)
        | inr (held, b) ↦
            release-find-none lease o' now' after
              (release_found-leases lease o now row held db (rw (a, b) at e))
      ]
    ]
