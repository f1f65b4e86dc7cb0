-- ===== src/Attempts/Slots.antt =====
-- Every call of the attempts' repository keeps each instance within its capacity.
use stolosio.Prelude.{
  ℕ, ◌<◌, ◌≡◌, refl, Option, none, some, Bool, true, false, not, Time, arith, inl, inr, Bool-cases,
  ◌==◌, is_some, ltb, any, count, select,
}
use stolosio.Contracts.{
  Key, Json, ProviderName, same_provider, AttemptAdmissionStatus, StolosioSession, ProviderAttempt,
  Result, ok, err, integrity_error, require, >>=-eq-ok, >>-eq-ok, require-eq-ok,
}
use stolosio.Tables.{AcquisitionAttempt, ProviderInstance, ProviderFleet, Database}
use stolosio.Sessions.Expiry.{of_session}
use stolosio.Attempts.Live.{
  owned_session, occupies, active_attempt_state, count_attempts, queued_attempt_state, active_count,
}
use stolosio.Attempts.Placement.{select_instance}
use stolosio.Attempts.Expiry.{expire_stale}
use stolosio.Attempts.Enqueue.{
  enqueue, may_start, Limits, limits_of, fleet_of, limit_of, place, queued_row, refused_row,
  new_attempt, insert_attempt, acquiring_row, offer, can_acquire,
}
use stolosio.Attempts.Occupancy.{IsLinked, IsRoomy}

-- The database after a method that may raise.
abbrev pub after {ℓ} : {A : Type ℓ} → Result (A × Database) → Database → Database
after (ok (a, db')) db = db'
after (err e) db = db

module _ (k : Key) (p : ProviderName) (c : ℕ) where
  -- A new row keeps the bound if it takes no slot of the instance, or if there is a free one.
  insert_attempt-IsRoomy :
      (row : AcquisitionAttempt) (db : Database)
      → IsRoomy k p c db
      → (any (λ a. a.id == row.id) db.attempts ≡ false)
      → IsLinked k p db.sessions row
      → (occupies k row ≡ true → count (occupies k) db.attempts < c)
      → IsRoomy k p c (insert_attempt row db)
  unfolding insert_attempt
  insert_attempt-IsRoomy row db w fresh linked room = record {
    known = w.known;
    distinct = (fresh, w.distinct);
    linked = (linked, w.linked);
    bounded = ground (arith, w.bounded, room);
  }

not-eq-true : (b : Bool) → not b ≡ true → b ≡ false
not-eq-true b h = ground arith

pub enqueue-eq-ok :
    (s : StolosioSession) (attempt_id : Key) (q : ProviderName) (settings sources : Json)
    (replacement : Option Key) (now : Time) (db : Database)
    (r : (AttemptAdmissionStatus × ProviderAttempt) × Database)
    → enqueue s attempt_id q settings sources replacement now db ≡ ok r
    → (is_some (owned_session s now db) ≡ true)
      × (any (λ a. a.id == attempt_id) (expire_stale q now db).attempts ≡ false)
      × ((l : Limits) × (place q now
              (fleet_of q (expire_stale q now db))
              l
              (new_attempt s attempt_id q settings sources now (expire_stale q now db))
              (expire_stale q now db)
            ≡ r))
unfolding enqueue
enqueue-eq-ok s attempt_id q settings sources replacement now db r e =
    let (owned, e1) = >>-eq-ok _ _ e in
    let swept : Database = expire_stale q now db in
    let (_, e2) =
      >>-eq-ok (may_start replacement (select (of_session s.session_id) swept.attempts)) _ e1 in
    let (fresh, e3) =
      >>-eq-ok (require (not (any (λ a. a.id == attempt_id) swept.attempts)) integrity_error) _
        e2 in
    let (l, _, e4) = >>=-eq-ok (limits_of (fleet_of q swept) (limit_of q swept)) _ e3 in
    (require-eq-ok _ _ owned, not-eq-true _ (require-eq-ok _ _ fresh), (l, cc))

-- The new row is on the instance only as a managed fleet's attempt that acquires its slot.
offer-eq :
    (managed : Option ProviderFleet) (q : ProviderName) (waiting : ℕ) (now : Time) (db : Database)
    (i : ProviderInstance)
    → offer managed q waiting now db ≡ some i
    → select_instance q now db ≡ some i
offer-eq none q waiting now db i e = cc
offer-eq (some managed) q waiting now db i e = ground arith

-- The bound does not depend on the events or on the other tables.
pub IsRoomy-same :
    (k : Key) (p : ProviderName) (c : ℕ) (db db' : Database)
    → IsRoomy k p c db
    → db'.sessions ≡ db.sessions
    → db'.attempts ≡ db.attempts
    → db'.instances ≡ db.instances
    → IsRoomy k p c db'
IsRoomy-same k p c db db' w es ea ei = record {
  known = rw ei w.known;
  distinct = rw ea w.distinct;
  linked = rw (es, ea) w.linked;
  bounded = rw ea w.bounded;
}

-- A new row in no active state takes no slot.
idle_row-IsRoomy :
    (k : Key) (p : ProviderName) (c : ℕ) (row : AcquisitionAttempt) (db : Database)
    → IsRoomy k p c db
    → (any (λ a. a.id == row.id) db.attempts ≡ false)
    → active_attempt_state row.state ≡ false
    → IsRoomy k p c (insert_attempt row db)
idle_row-IsRoomy k p c row db w fresh idle =
    insert_attempt-IsRoomy k p c row db w fresh (λ e. absurd (ground arith))
      (λ e. absurd (ground arith))

module _ (k : Key) (p q : ProviderName) (c : ℕ) (now : Time) (db : Database) where
  -- A slot that is offered on the instance is free, and the instance is one of `p`.
  abbrev pub IsFree : Type 0
  IsFree =
      (i : ProviderInstance)
      → select_instance q now db ≡ some i
      → (i.id == k) ≡ true
      → (count (occupies k) db.attempts < c) × (same_provider q p ≡ true)

  acquiring_row-IsRoomy :
      (row : AcquisitionAttempt) (o : Option ProviderInstance)
      → IsRoomy k p c db
      → (any (λ a. a.id == row.id) db.attempts ≡ false)
      → IsFree
      → any (λ r. r.id == row.session_id) db.sessions ≡ true
      → row.provider ≡ q
      → ((i : ProviderInstance) → o ≡ some i → select_instance q now db ≡ some i)
      → IsRoomy k p c (insert_attempt (acquiring_row now o row) db)
  unfolding acquiring_row
  acquiring_row-IsRoomy row none w fresh free known prov sel =
      insert_attempt-IsRoomy k p c _ db w fresh (λ e. absurd (ground arith))
        (λ e. absurd (ground arith))
  acquiring_row-IsRoomy row (some i) w fresh free known prov sel =
      insert_attempt-IsRoomy k p c _ db w fresh
        (λ e. (known, rw prov (free i (sel i refl) (ground arith)).1))
        (λ e. (free i (sel i refl) (ground arith)).0)

  pub place-IsRoomy :
      (managed : Option ProviderFleet) (l : Limits) (row : AcquisitionAttempt)
      → IsRoomy k p c db
      → (any (λ a. a.id == row.id) db.attempts ≡ false)
      → IsFree
      → any (λ r. r.id == row.session_id) db.sessions ≡ true
      → row.provider ≡ q
      → IsRoomy k p c (place q now managed l row db).1
  unfolding place
  place-IsRoomy managed l row w fresh free known prov =
      let waiting : ℕ = count_attempts q queued_attempt_state now db in
      let o : Option ProviderInstance = offer managed q waiting now db in
      elim (Bool-cases (can_acquire managed o waiting (active_count q now db) l.max_active)) [
        | inl yes' ↦ rw yes' (
            acquiring_row-IsRoomy row o w fresh free known prov (offer-eq managed q waiting now db))
        | inr no' ↦ rw no' (elim (Bool-cases (ltb waiting l.max_queued)) [
          | inl room ↦ rw room (idle_row-IsRoomy k p c (queued_row now row) db w fresh refl)
          | inr full' ↦ rw full' (
              IsRoomy-same k p c (insert_attempt (refused_row now row) db) _
                (idle_row-IsRoomy k p c (refused_row now row) db w fresh refl) refl refl refl)
        ])
      ]
