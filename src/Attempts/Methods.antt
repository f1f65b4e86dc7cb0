-- ===== src/Attempts/Methods.antt =====
-- Each method of the attempts' repository keeps each instance within its capacity.
use stolosio.Prelude.{
  ℕ, ◌<◌, ◌≡◌, refl, ap, ◌∙◌, String, Option, none, some, List, [], ◌∷◌, Bool, true, false, ◌&&◌,
  Time, arith, inl, inr, Bool-cases, Option-cases, ◌==◌, is_some, any, find, subst, count,
  update_row,
}
use stolosio.Prelude.Counts.{
  count-update_row-le, count-update_row-le_suc, All-update_found, any-find,
}
use stolosio.Prelude.Writes.{find-test, update_row-find-none}
use stolosio.Prelude.Keys.{Distinct, Distinct-update_row, find-Distinct}
use native.Mathlib.Nat.{le_trans}
use stolosio.Contracts.{
  Key, Json, ProviderName, same_provider, StolosioSession, ProviderAttempt, Result, ok,
  Result-cases, AttemptAdmissionStatus,
}
use stolosio.Tables.{
  AcquisitionAttempt, ProviderInstance, ProviderFleet, ExternalProviderLimit, Database,
}
use stolosio.Usage.Laws.{finalize_attempt_usage-state, finalize_attempt_usage-id}
use stolosio.Attempts.Live.{owned_session, occupies, queued_attempt_state}
use stolosio.Attempts.Placement.{select_instance}
use stolosio.Attempts.Expiry.{expire_stale}
use stolosio.Attempts.Enqueue.{enqueue, new_attempt, acquiring_row, fleet_of, limit_of}
use stolosio.Attempts.Claim.{
  claim, claim_row, grant, names, slot, queue_head, first_queued, is_attempt,
}
use stolosio.Attempts.Progress.{
  activate, active_row, bind_provider_session, bound_row, record_provider_usage, usage_row, finish,
  finished_row, has_key, is_acquiring, is_ended,
}
use stolosio.Attempts.Occupancy.{IsLinked, IsRoomy, expire_stale-IsRoomy, select_instance-room}
use stolosio.Attempts.Slots.{after, enqueue-eq-ok, place-IsRoomy, IsRoomy-same}

-- The owned session of a call is in the table.
owned_session-known :
    (s : StolosioSession) (now : Time) (db : Database)
    → is_some (owned_session s now db) ≡ true
    → any (λ r. r.id == s.session_id) db.sessions ≡ true
owned_session-known s now db e = elim (Option-cases (owned_session s now db)) [
  | inl no' ↦ absurd (ground arith)
  | inr (row, found) ↦
      any-find (λ r. r.id == s.session_id) _ db.sessions found
        (let both = find-test _ db.sessions found in ground (arith, both))
]

-- The head is a row that the test sees.
first_queued-any :
    (q : AcquisitionAttempt → Bool) (id : Key) (r : AcquisitionAttempt → Bool)
    → ((a : AcquisitionAttempt) → q a ≡ true → r a ≡ true)
    → (rows : List AcquisitionAttempt) → is_attempt id (first_queued q rows) ≡ true
    → any (λ a. a.id == id && r a) rows ≡ true
unfolding first_queued
first_queued-any q id r h [] e = e
first_queued-any q id r h (a ∷ rest) e =
    let ih = first_queued-any q id r h rest in ground (arith, h a)

module _ (db : Database) (failed : Bool) (reason : String) (cs ps : Option Json) (now : Time)
    (row : AcquisitionAttempt) where
  finished_row-id : (finished_row db failed reason cs ps now row).id ≡ row.id
  unfolding finished_row
  finished_row-id = finalize_attempt_usage-id db.rates now _

  finished_row-idle : (k : Key) → occupies k (finished_row db failed reason cs ps now row) ≡ false
  unfolding finished_row
  finished_row-idle k = rw finalize_attempt_usage-state (ground arith)

-- An instance that a claim gets is the selected one.
slot-eq :
    (managed : Option ProviderFleet) (external : Option ExternalProviderLimit) (q : ProviderName)
    (now : Time) (db : Database) (i : ProviderInstance)
    → slot managed external q now db ≡ ok (some (some i))
    → select_instance q now db ≡ some i
slot-eq none none q now db i e = cc
slot-eq none (some l) q now db i e = absurd (ground arith)
slot-eq (some m) none q now db i e = elim (Option-cases (select_instance q now db)) [
  | inl x ↦ absurd (ground arith)
  | inr (j, x) ↦ x ∙ ground arith
]
slot-eq (some m) (some l) q now db i e = elim (Option-cases (select_instance q now db)) [
  | inl x ↦ absurd (ground arith)
  | inr (j, x) ↦ x ∙ ground arith
]

module _ (k : Key) (p : ProviderName) (c : ℕ) where
  pub enqueue-IsRoomy :
      (s : StolosioSession) (attempt_id : Key) (q : ProviderName) (settings sources : Json)
      (replacement : Option Key) (now : Time) (db : Database)
      → IsRoomy k p c db
      → IsRoomy k p c (after (enqueue s attempt_id q settings sources replacement now db) db)
  unfolding new_attempt expire_stale
  enqueue-IsRoomy s attempt_id q settings sources replacement now db w =
      elim (Result-cases (enqueue s attempt_id q settings sources replacement now db)) [
        | inr (e, raised) ↦ rw raised w
        | inl (r, returned) ↦ rw returned (
            let (owned, fresh, (l, e)) =
              enqueue-eq-ok s attempt_id q settings sources replacement now db r returned in
            subst (λ (x : (AttemptAdmissionStatus × ProviderAttempt) × Database). IsRoomy k p c x.1)
              e
              (place-IsRoomy k p q c now (expire_stale q now db)
                (fleet_of q (expire_stale q now db)) l
                (new_attempt s attempt_id q settings sources now (expire_stale q now db))
                (expire_stale-IsRoomy k p c q now db w) fresh
                (λ i sel is_k. select_instance-room k p c q now db i w sel is_k)
                (owned_session-known s now db owned) refl))
      ]

  -- A write that gives no attempt a slot, and keeps its key.
  harmless_row-IsRoomy :
      (test : AcquisitionAttempt → Bool) (f : AcquisitionAttempt → AcquisitionAttempt)
      (row : AcquisitionAttempt) (db db' : Database)
      → IsRoomy k p c db
      → find test db.attempts ≡ some row
      → ((a : AcquisitionAttempt) → (f a).id ≡ a.id)
      → (IsLinked k p db.sessions row → IsLinked k p db.sessions (f row))
      → (occupies k (f row) ≡ true → occupies k row ≡ true)
      → db'.sessions ≡ db.sessions
      → db'.attempts ≡ update_row test f db.attempts
      → db'.instances ≡ db.instances
      → IsRoomy k p c db'
  harmless_row-IsRoomy test f row db db' w found same linked less es ea ei = record {
    known = rw ei w.known;
    distinct = rw ea (Distinct-update_row (λ a. a.id) test f same db.attempts w.distinct);
    linked =
        rw (es, ea)
          (All-update_found (IsLinked k p db.sessions) test f row linked db.attempts found
            w.linked);
    bounded =
        rw ea
          (le_trans (count-update_row-le (occupies k) test f row db.attempts found less) w.bounded);
  }

  pub activate-IsRoomy :
      (attempt : ProviderAttempt) (now : Time) (db : Database)
      → IsRoomy k p c db
      → IsRoomy k p c (activate attempt now db).1
  unfolding activate
  activate-IsRoomy attempt now db w = elim (Option-cases (find (has_key attempt) db.attempts)) [
    | inl e ↦ rw (e, activate) w
    | inr (row, e) ↦
        rw (e, activate)
          (elim (Bool-cases (is_acquiring row.state)) [
            | inr no' ↦ rw no' w
            | inl on ↦ rw on (
                harmless_row-IsRoomy (has_key attempt) (active_row now) row db _ w e (λ a. refl)
                  (λ h o. h (ground arith)) (ground arith) refl refl refl)
          ])
  ]

  -- A write to other columns, whether or not there is a row.
  silent_row-IsRoomy :
      (test : AcquisitionAttempt → Bool) (f : AcquisitionAttempt → AcquisitionAttempt)
      (db db' : Database)
      → IsRoomy k p c db
      → ((a : AcquisitionAttempt) → (f a).id ≡ a.id)
      → ((a : AcquisitionAttempt) → IsLinked k p db.sessions a → IsLinked k p db.sessions (f a))
      → ((a : AcquisitionAttempt) → occupies k (f a) ≡ true → occupies k a ≡ true)
      → db'.sessions ≡ db.sessions
      → db'.attempts ≡ update_row test f db.attempts
      → db'.instances ≡ db.instances
      → IsRoomy k p c db'
  silent_row-IsRoomy test f db db' w same linked less es ea ei =
      elim (Option-cases (find test db.attempts)) [
        | inl e ↦ IsRoomy-same k p c db db' w es (ea ∙ update_row-find-none test f db.attempts e) ei
        | inr (row, e) ↦
            harmless_row-IsRoomy test f row db db' w e same (linked row) (less row) es ea ei
      ]

  pub bind_provider_session-IsRoomy :
      (attempt : ProviderAttempt) (id : Option String) (started : Option Time) (db : Database)
      → IsRoomy k p c db
      → IsRoomy k p c (bind_provider_session attempt id started db)
  unfolding bind_provider_session
  bind_provider_session-IsRoomy attempt id started db w =
      silent_row-IsRoomy (has_key attempt) (bound_row id started) db _ w (λ a. refl) (λ a h o. h o)
        (λ a o. o) refl refl refl

  pub record_provider_usage-IsRoomy :
      (attempt : ProviderAttempt) (ended : Option Time) (now : Time) (db : Database)
      → IsRoomy k p c db
      → IsRoomy k p c (record_provider_usage attempt ended now db)
  unfolding record_provider_usage
  record_provider_usage-IsRoomy attempt ended now db w =
      silent_row-IsRoomy (has_key attempt) (usage_row ended now) db _ w (λ a. refl) (λ a h o. h o)
        (λ a o. o) refl refl refl

  pub finish-IsRoomy :
      (attempt : ProviderAttempt) (failed : Bool) (reason : String) (cs ps : Option Json)
      (now : Time) (db : Database)
      → IsRoomy k p c db
      → IsRoomy k p c (finish attempt failed reason cs ps now db).1
  unfolding finish
  finish-IsRoomy attempt failed reason cs ps now db w =
      elim (Option-cases (find (has_key attempt) db.attempts)) [
        | inl e ↦ rw (e, finish) w
        | inr (row, e) ↦
            rw (e, finish)
              (elim (Bool-cases (is_ended row.state)) [
                | inl over ↦ rw over w
                | inr on ↦ rw on (
                    let done = finished_row db failed reason cs ps now in
                    let idle : occupies k (done row) ≡ false =
                      finished_row-idle db failed reason cs ps now row k in
                    harmless_row-IsRoomy (has_key attempt) done row db _ w e
                      (finished_row-id db failed reason cs ps now) (λ h o. absurd (ground arith))
                      (λ o. absurd (ground arith)) refl refl refl)
              ])
      ]

  -- The claimed row is one of the provider whose queue it heads.
  head_provider :
      (s : StolosioSession) (attempt : ProviderAttempt) (now : Time) (row : AcquisitionAttempt)
      (db : Database)
      → Distinct (λ a. a.id) db.attempts
      → find (names s attempt) db.attempts ≡ some row
      → is_attempt attempt.attempt_id (queue_head attempt.provider now db) ≡ true
      → same_provider row.provider attempt.provider ≡ true
  unfolding queue_head
  head_provider s attempt now row db distinct found is_head =
      find-Distinct (λ a. a.id) (names s attempt) (λ a. same_provider a.provider attempt.provider)
        attempt.attempt_id row db.attempts distinct found
        (let both = find-test (names s attempt) db.attempts found in ground (arith, both))
        (first_queued-any _ attempt.attempt_id _ (λ a h. ground arith) db.attempts is_head)

  -- The claimed row takes its slot.
  grant-IsRoomy :
      (s : StolosioSession) (attempt : ProviderAttempt) (now : Time) (row : AcquisitionAttempt)
      (db : Database) (o : Option ProviderInstance)
      → IsRoomy k p c db
      → find (names s attempt) db.attempts ≡ some row
      → any (λ r. r.id == s.session_id) db.sessions ≡ true
      → same_provider row.provider attempt.provider ≡ true
      → ((i : ProviderInstance)
          → o ≡ some i
          → (i.id == k) ≡ true
          → (count (occupies k) db.attempts < c) × (same_provider attempt.provider p ≡ true))
      → IsRoomy k p c (grant s attempt now row db (some o)).1
  unfolding grant
  grant-IsRoomy s attempt now row db none w found known prov free =
      harmless_row-IsRoomy (names s attempt) (acquiring_row now none) row db _ w found (λ a. refl)
        (λ h e. absurd (ground arith)) (λ e. absurd (ground arith)) refl refl refl
  grant-IsRoomy s attempt now row db (some i) w found known prov free =
      elim (Bool-cases (i.id == k)) [
        | inr no' ↦
            harmless_row-IsRoomy (names s attempt) (acquiring_row now (some i)) row db _ w found
              (λ a. refl) (λ h e. absurd (ground arith)) (λ e. absurd (ground arith)) refl refl refl
        | inl is_k ↦ record {
          known = w.known;
          distinct =
              Distinct-update_row (λ a. a.id) (names s attempt) (acquiring_row now (some i))
                (λ a. refl) db.attempts w.distinct;
          linked =
              All-update_found (IsLinked k p db.sessions) (names s attempt)
                (acquiring_row now (some i)) row
                (λ h e. (on_session, ground (arith, free i refl is_k, prov))) db.attempts found
                w.linked;
          bounded = omega (
            arith,
            count-update_row-le_suc (occupies k) (names s attempt) (acquiring_row now (some i))
                db.attempts,
            (free i refl is_k).0,
          );
        }
      ]
    where
      on_session : any (λ r. r.id == row.session_id) db.sessions ≡ true
      on_session =
          let both = find-test (names s attempt) db.attempts found in
          let same : row.session_id ≡ s.session_id = ground (arith, both) in rw same known

  claim_row-IsRoomy :
      (s : StolosioSession) (attempt : ProviderAttempt) (now : Time) (db : Database)
      → IsRoomy k p c db
      → is_some (owned_session s now db) ≡ true
      → IsRoomy k p c (
          after
            (claim_row s attempt now
              (find (names s attempt) (expire_stale attempt.provider now db).attempts)
              (expire_stale attempt.provider now db))
            db)
  unfolding claim_row expire_stale
  claim_row-IsRoomy s attempt now db w owned =
      elim (Option-cases (find (names s attempt) swept.attempts)) [
        | inl e ↦ rw (e, claim_row) roomy
        | inr (row, e) ↦
            rw (e, claim_row)
              (elim (Bool-cases (heads row)) [
                | inr no' ↦ rw no' roomy
                | inl yes' ↦ rw yes' (elim (Result-cases (free_slot)) [
                  | inr (x, raised) ↦ rw raised w
                  | inl (none, full') ↦ rw full' (unfold grant in roomy)
                  | inl (some o, got) ↦ rw got (
                      grant-IsRoomy s attempt now row swept o roomy e
                        (owned_session-known s now db owned)
                        (head_provider s attempt now row swept roomy.distinct e (ground arith))
                        (λ i is is_k.
                          select_instance-room k p c attempt.provider now db i w
                            (slot-eq _ _ attempt.provider now swept i
                              (got ∙ ap (λ (x : Option ProviderInstance). ok (some x)) is))
                            is_k))
                ])
              ])
      ]
    where
      swept : Database
      swept = expire_stale attempt.provider now db

      roomy : IsRoomy k p c swept
      roomy = expire_stale-IsRoomy k p c attempt.provider now db w

      heads : AcquisitionAttempt → Bool
      heads row =
          queued_attempt_state row.state
          && is_attempt attempt.attempt_id (queue_head attempt.provider now swept)

      free_slot : Result (Option (Option ProviderInstance))
      free_slot =
          slot (fleet_of attempt.provider swept) (limit_of attempt.provider swept) attempt.provider
            now swept

  pub claim-IsRoomy :
      (s : StolosioSession) (attempt : ProviderAttempt) (now : Time) (db : Database)
      → IsRoomy k p c db
      → IsRoomy k p c (after (claim s attempt now db) db)
  unfolding claim
  claim-IsRoomy s attempt now db w = elim (Bool-cases (is_some (owned_session s now db))) [
    | inl e ↦ rw e (claim_row-IsRoomy s attempt now db w e)
    | inr e ↦ rw e w
  ]
