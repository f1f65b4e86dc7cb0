-- ===== src/Attempts/Order.antt =====
-- The queue of a provider is served in its order: no attempt is claimed before an earlier one.
use stolosio.Prelude.{
  ℕ, ◌≤◌, ◌≡◌, refl, ap, ◌==◌, ==_iff, Option, none, some, Bool, true, false, ◌&&◌, List, [], ◌∷◌,
  Time, arith, All, Bool-cases, Option-cases, inl, inr, is_some, find,
}
use stolosio.Contracts.{ProviderAttempt, StolosioSession, Result, ok}
use stolosio.Tables.{AcquisitionAttempt, Database}
use stolosio.Attempts.Live.{owned_session, queued_attempt_state, counted}
use stolosio.Attempts.Expiry.{expire_stale}
use stolosio.Attempts.Claim.{names, earlier, first_queued, queue_head, is_attempt, claim_row, claim}

-- What stands no later than every row that `p` selects.
unfoldable pub Precedes : (AcquisitionAttempt → Bool) → ℕ → List AcquisitionAttempt → Type 0
Precedes p n = All (λ r. p r ≡ true → n ≤ r.queue_sequence)

first_queued-Precedes :
    (p : AcquisitionAttempt → Bool) (n : ℕ) (xs : List AcquisitionAttempt)
    → ((h : AcquisitionAttempt) → first_queued p xs ≡ some h → n ≤ h.queue_sequence)
    → Precedes p n xs
unfolding first_queued Precedes
first_queued-Precedes p n [] k = tt
first_queued-Precedes p n (x ∷ xs) k = elim (Bool-cases (p x)) [
  | inr t ↦ (λ e. absurd (ground arith), first_queued-Precedes p n xs (rw t at k))
  | inl t ↦ elim (Option-cases (first_queued p xs)) [
    | inl o ↦ (
      λ e. k x (rw (t, o) refl),
      first_queued-Precedes p n xs (λ h e. absurd (let f : none ≡ some h = rw o at e in cc)),
    )
    | inr (b, o) ↦
        let least : n ≤ (earlier x (some b)).queue_sequence =
          k (earlier x (some b)) (rw (t, o) refl) in
        (
          λ e. ground arith,
          first_queued-Precedes p n xs (λ h e.
              let same : b ≡ h = let f : some b ≡ some h = rw o at e in cc in
              let s = ap (λ (r : AcquisitionAttempt). r.queue_sequence) same in ground arith),
        )
  ]
]

-- The attempt is the head of its provider's queue: in a queue as `expire_stale` leaves it, no
-- attempt that waits for the provider, of a session that serves, stands before it.
pub record IsFirst (attempt : ProviderAttempt) (now : Time) (swept : Database) : Type 0 where
  pub head : AcquisitionAttempt
  pub id : head.id ≡ attempt.attempt_id
  pub waits : queue_head attempt.provider now swept ≡ some head
  pub least :
      Precedes
        (counted attempt.provider queued_attempt_state now swept.sessions)
        head.queue_sequence
        swept.attempts

head-IsFirst :
    (attempt : ProviderAttempt) (now : Time) (swept : Database)
    → is_attempt attempt.attempt_id (queue_head attempt.provider now swept) ≡ true
    → IsFirst attempt now swept
unfolding queue_head
head-IsFirst attempt now swept e = elim (Option-cases (queue_head attempt.provider now swept)) [
  | inl o ↦ absurd (let f : false ≡ true = rw o at e in cc)
  | inr (h, o) ↦ record {
    head = h;
    id = let f : (h.id == attempt.attempt_id) ≡ true = rw o at e in (==_iff _ _).0 f;
    waits = o;
    least = first_queued-Precedes _ h.queue_sequence swept.attempts (λ g e'.
        let same : h ≡ g = let f : some h ≡ some g = rw o at e' in cc in
        let s = ap (λ (r : AcquisitionAttempt). r.queue_sequence) same in omega (arith, s));
  }
]

claim_answers :
    {db after : Database} {answer : ProviderAttempt}
    → ¬ (
        ◌≡◌ {A = Result (Option ProviderAttempt × Database)}
          (ok (none, db))
          (ok (some answer, after)))
claim_answers e = cc

claim_row-IsFirst :
    (s : StolosioSession) (attempt : ProviderAttempt) (now : Time)
    (found : Option AcquisitionAttempt) (swept after : Database) (answer : ProviderAttempt)
    → claim_row s attempt now found swept ≡ ok (some answer, after)
    → IsFirst attempt now swept
unfolding claim_row
claim_row-IsFirst s attempt now none swept after answer e = absurd (claim_answers e)
claim_row-IsFirst s attempt now (some row) swept after answer e =
    elim (Bool-cases (
      queued_attempt_state row.state
      && is_attempt attempt.attempt_id (queue_head attempt.provider now swept))) [
        | inl t ↦ head-IsFirst attempt now swept (ground arith)
        | inr t ↦ absurd (claim_answers (rw t at e))
      ]

-- A claim that gets a slot is one of the queue's head: of all attempts that wait for the provider
-- and whose sessions are live with a running lease, it has the smallest queue number.
pub claim-IsFirst :
    (s : StolosioSession) (attempt : ProviderAttempt) (now : Time) (db after : Database)
    (answer : ProviderAttempt)
    → claim s attempt now db ≡ ok (some answer, after)
    → IsFirst attempt now (expire_stale attempt.provider now db)
unfolding claim
claim-IsFirst s attempt now db after answer e =
    elim (Bool-cases (is_some (owned_session s now db))) [
      | inl t ↦
          claim_row-IsFirst s attempt now
            (find (names s attempt) (expire_stale attempt.provider now db).attempts)
            (expire_stale attempt.provider now db) after answer (rw t at e)
      | inr t ↦ absurd (claim_answers (rw t at e))
    ]
