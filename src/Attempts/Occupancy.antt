-- ===== src/Attempts/Occupancy.antt =====
-- No instance is ever given more attempts than its capacity: what each call of the attempts'
-- repository keeps, whatever its clock value.
use stolosio.Prelude.{
  subst, ◌∙◌, ℕ, ◌≤◌, ◌<◌, ◌≡◌, some, List, [], ◌∷◌, true, false, ◌&&◌, Time, arith, inl, inr,
  Bool-cases, Option-cases, ◌==◌, ltb, ltb→lt, ==_iff, any, count, All,
}
use stolosio.Prelude.Counts.{count-update_where-le, count_mono_All, All-update_where, any-both}
use stolosio.Prelude.Keys.{Distinct, Distinct-update_where}
use stolosio.Contracts.{Key, ProviderName, same_provider}
use stolosio.Tables.{GatewaySession, AcquisitionAttempt, ProviderInstance, Database}
use stolosio.Usage.Laws.{finalize_attempt_usage-state, finalize_attempt_usage-id}
use stolosio.Attempts.Live.{serves, session_serves, occupies, occupied}
use stolosio.Attempts.Placement.{available, has_room, is_below, best, select_instance}
use stolosio.Attempts.Expiry.{is_stranded, expire_attempt, expire_stale}

-- The database knows instance `k` as one of provider `p` with `c` slots, and by no other row.
abbrev pub IsKnown : Key → ProviderName → ℕ → ProviderInstance → Type 0
IsKnown k p c i = (i.id == k) ≡ true → (i.capacity ≡ c) × (same_provider i.provider p ≡ true)

-- An attempt on instance `k` is one of its provider, and its session is in the table.
abbrev pub IsLinked : Key → ProviderName → List GatewaySession → AcquisitionAttempt → Type 0
IsLinked k p sessions a =
    occupies k a ≡ true
    → (any (λ row. row.id == a.session_id) sessions ≡ true) × (same_provider a.provider p ≡ true)

-- What every call keeps: at most `c` attempts in an active state are on instance `k`.
pub record IsRoomy (k : Key) (p : ProviderName) (c : ℕ) (db : Database) : Type 0 where
  pub known : All (IsKnown k p c) db.instances
  pub distinct : Distinct (λ a. a.id) db.attempts
  pub linked : All (IsLinked k p db.sessions) db.attempts
  pub bounded : count (occupies k) db.attempts ≤ c

expire_attempt-occupies :
    (k : Key) (db : Database) (now : Time) (a : AcquisitionAttempt)
    → occupies k (expire_attempt db now a) ≡ false
unfolding expire_attempt
expire_attempt-occupies k db now a = rw finalize_attempt_usage-state (ground arith)

expire_attempt-id :
    (db : Database) (now : Time) (a : AcquisitionAttempt) → (expire_attempt db now a).id ≡ a.id
unfolding expire_attempt
expire_attempt-id db now a = finalize_attempt_usage-id db.rates now _

module _ (k : Key) (p q : ProviderName) (now : Time) (db : Database) where
  abbrev Counted : AcquisitionAttempt → Type 0
  Counted a =
      occupies k a ≡ true → occupies k a && session_serves now db.sessions a.session_id ≡ true

  -- After the sweep of the provider, the attempts on the instance are those that are counted.
  expire_stale-Counted :
      same_provider p q ≡ true
      → All (IsLinked k p db.sessions) db.attempts
      → All Counted (expire_stale q now db).attempts
  unfolding expire_stale
  expire_stale-Counted same linked =
      All-update_where (IsLinked k p db.sessions) Counted (is_stranded q now db)
        (expire_attempt db now)
        (λ a h e. let gone = expire_attempt-occupies k db now a in λ o. absurd (ground arith))
        (λ a h e o. ground (
          arith,
          h,
          any-both (λ (row : GatewaySession). row.id == a.session_id) (serves now) db.sessions,
        ))
        db.attempts linked

-- What is selected is available, has room, and is one of the instances.
pub best_sound {κ} :
    (P : ProviderInstance → Type κ) (q : ProviderName) (now : Time) (db : Database)
    (is : List ProviderInstance) (i : ProviderInstance)
    → All P is
    → best q now db is ≡ some i
    → (available q now i ≡ true) × (has_room now db i ≡ true) × P i
unfolding best
best_sound P q now db [] i a e = cc
best_sound P q now db (j ∷ rest) i a e =
    elim (Bool-cases (available q now j && has_room now db j)) [
      | inr skip ↦ best_sound P q now db rest i a.1 (rw skip at e)
      | inl fits ↦ elim (Option-cases (best q now db rest)) [
        | inl alone ↦ chosen j fits a.0 (rw (fits, alone) at e)
        | inr (b, found) ↦ elim (Bool-cases (is_below now db j b)) [
          | inl below ↦ best_sound P q now db rest i a.1 (found ∙ (rw (fits, found, below) at e))
          | inr above ↦ chosen j fits a.0 (rw (fits, found, above) at e)
        ]
      ]
    ]
  where
    chosen :
        (j : ProviderInstance)
        → (available q now j && has_room now db j) ≡ true
        → P j
        → some j ≡ some i
        → (available q now i ≡ true) × (has_room now db i ≡ true) × P i
    chosen j fits h e =
        let same : j ≡ i = cc in
        subst
          (λ (x : ProviderInstance). (available q now x ≡ true) × (has_room now db x ≡ true) × P x)
          same (ground arith, ground arith, h)

select_instance_sound :
    (k : Key) (p q : ProviderName) (c : ℕ) (now : Time) (db : Database) (i : ProviderInstance)
    → All (IsKnown k p c) db.instances
    → select_instance q now db ≡ some i
    → (available q now i ≡ true) × (has_room now db i ≡ true) × IsKnown k p c i
unfolding select_instance
select_instance_sound k p q c now db i a e = best_sound (IsKnown k p c) q now db db.instances i a e

module _ (k : Key) (p : ProviderName) (c : ℕ) (q : ProviderName) (now : Time) (db : Database) where
  pub expire_stale-IsRoomy : IsRoomy k p c db → IsRoomy k p c (expire_stale q now db)
  unfolding expire_stale
  expire_stale-IsRoomy w = record {
    known = w.known;
    distinct =
        Distinct-update_where (λ a. a.id) (is_stranded q now db) (expire_attempt db now)
          (expire_attempt-id db now) db.attempts w.distinct;
    linked =
        All-update_where (IsLinked k p db.sessions) (IsLinked k p db.sessions)
          (is_stranded q now db) (expire_attempt db now)
          (λ a h e. let gone = expire_attempt-occupies k db now a in λ o. absurd (ground arith))
          (λ a h e. h) db.attempts w.linked;
    bounded = ground (
      arith,
      w.bounded,
      count-update_where-le (occupies k) (occupies k) (is_stranded q now db) (expire_attempt db now)
          (λ a e. let gone = expire_attempt-occupies k db now a in ground arith) db.attempts,
    );
  }

  -- An instance that is selected after the sweep has a slot for one more attempt.
  pub select_instance-room :
      (i : ProviderInstance)
      → IsRoomy k p c db
      → select_instance q now (expire_stale q now db) ≡ some i
      → (i.id == k) ≡ true
      → (count (occupies k) (expire_stale q now db).attempts < c) × (same_provider q p ≡ true)
  unfolding expire_stale
  select_instance-room i w e is_k = (
    omega (arith, ltb→lt _ _ has_room', uncounted, (kind is_k).0),
    ground (arith, kind is_k, facts.0),
  )
    where
      swept : Database
      swept = expire_stale q now db

      facts : (available q now i ≡ true) × (has_room now swept i ≡ true) × IsKnown k p c i
      facts = select_instance_sound k p q c now swept i (expire_stale-IsRoomy w).known e

      kind : IsKnown k p c i
      kind = facts.2

      has_room' : ltb (occupied now swept k) i.capacity ≡ true
      has_room' =
          subst (λ (id : Key). ltb (occupied now swept id) i.capacity ≡ true)
            ((==_iff i.id k).0 is_k) facts.1

      uncounted : count (occupies k) swept.attempts ≤ occupied now swept k
      uncounted =
          count_mono_All (Counted k p q now swept) (occupies k)
            (λ a. occupies k a && session_serves now swept.sessions a.session_id) (λ a h. h)
            swept.attempts
            (expire_stale-Counted k p q now db (ground (arith, kind is_k, facts.0)) w.linked)
