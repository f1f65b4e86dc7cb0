-- ===== src/Pacing/Spacing.antt =====
-- The time before which no capture of a domain starts never moves back.
use stolosio.Prelude.{
  either, ◌≤◌, ◌≡◌, refl, sym, ap, ◌∙◌, some, Bool, true, false, List, [], ◌∷◌, Time, arith,
  Bool-cases, inl, inr, ◌==◌, any, find, update_row,
}
use stolosio.Prelude.Writes.{find-update_row, find-test}
use stolosio.Contracts.{Key}
use stolosio.Pacing.Contracts.{
  Lease, Observation, Refusal, domain_cooldown, domain_spacing, domain_concurrency,
}
use stolosio.Pacing.Tables.{
  DomainPacingSettings, DomainPacingState, DomainPacingLease, PacingDatabase,
}
use stolosio.Pacing.Refresh.{is_outdated, refreshed}
use stolosio.Pacing.Acquire.{
  of_host, new_state, ensure_state, Verdict, refuses, grants, empty_minimum, expiries, verdict,
  decision, refused_row, decided_row, started, written,
}
use stolosio.Pacing.Release.{learned, learned_row}
use stolosio.Pacing.Grants.{verdict-grants}

-- The row of host `h` is there, and no capture of the host starts before `t`.
unfoldable pub Waits : Key → Time → List DomainPacingState → Type 0
Waits h t rows =
    (row : DomainPacingState) × (find (of_host h) rows ≡ some row) × (t ≤ row.next_start_at)

-- A write to a host's row that keeps its key and does not move its next start back.
pub record IsLater (row next : DomainPacingState) : Type 0 where
  pub host : next.hostname ≡ row.hostname
  pub start : row.next_start_at ≤ next.next_start_at

find-update_row_other :
    (q p : DomainPacingState → Bool) (next row : DomainPacingState) (xs : List DomainPacingState)
    → find p xs ≡ some row
    → q row ≡ false
    → q next ≡ false
    → find q (update_row p (λ _. next) xs) ≡ find q xs
find-update_row_other q p next row [] e h h' = refl
find-update_row_other q p next row (x ∷ xs) e h h' =
    let ih = find-update_row_other q p next row xs in ground arith

pub update_row-Waits :
    (h : Key) (t : Time) (k : Key) (row next : DomainPacingState) (xs : List DomainPacingState)
    → find (of_host k) xs ≡ some row
    → IsLater row next
    → Waits h t xs
    → Waits h t (update_row (of_host k) (λ _. next) xs)
unfolding Waits
update_row-Waits h t k row next xs e l (r, f, b) =
    let key = find-test (of_host k) xs e in
    let host = l.host in
    let start = l.start in
    elim (Bool-cases (h == k)) [
      | inl same ↦
          let k≡h : k ≡ h = ground arith in
          let g = find-update_row (of_host k) (λ _. next) row xs e (ground arith) in
          let r≡row : some r ≡ some row = sym f ∙ rw (sym k≡h) e in
          let same_row : r ≡ row = cc in
          (
            next,
            rw (sym k≡h) g,
            omega (arith, ap (λ (x : DomainPacingState). x.next_start_at) same_row),
          )
      | inr other ↦ (
        r,
        find-update_row_other (of_host h) (of_host k) next row xs e (ground arith) (ground arith)
            ∙ f,
        b,
      )
    ]

pub refreshed-IsLater :
    (config : DomainPacingSettings) (now : Time) (row : DomainPacingState)
    → IsLater row (refreshed config now row)
unfolding refreshed
refreshed-IsLater config now row =
    either (IsLater row) (is_outdated config now row) (record { host = refl; start = omega arith })
      (record { host = refl; start = omega arith })

IsLater-trans : (a b c : DomainPacingState) → IsLater a b → IsLater b c → IsLater a c
IsLater-trans a b c x y = record { host = y.host ∙ x.host; start = omega (arith, x.start, y.start) }

refused_row-IsLater :
    (r : Refusal) (now : Time) (row : DomainPacingState) → IsLater row (refused_row r now row)
refused_row-IsLater domain_cooldown now row = record { host = refl; start = omega arith }
refused_row-IsLater domain_spacing now row = record { host = refl; start = omega arith }
refused_row-IsLater domain_concurrency now row = record { host = refl; start = omega arith }

decided_row-IsLater :
    (v : Verdict) (ts : List Time) (now : Time) (row : DomainPacingState)
    → verdict row ts now ≡ v
    → IsLater row (decided_row v now row)
unfolding decided_row started
decided_row-IsLater grants ts now row e =
    let (_, late, _) = verdict-grants row ts now e in
    record { host = refl; start = omega (arith, late) }
decided_row-IsLater (refuses r) ts now row e = refused_row-IsLater r.reason now row
decided_row-IsLater empty_minimum ts now row e = record { host = refl; start = omega arith }

pub learned_row-IsLater :
    (config : DomainPacingSettings) (held : DomainPacingLease) (o : Observation) (now : Time)
    (row : DomainPacingState)
    → IsLater row (learned_row config held o now row)
unfolding learned_row
learned_row-IsLater config held o now row =
    let fresh : DomainPacingState = refreshed config now row in
    let l = refreshed-IsLater config now row in
    let start = l.start in
    IsLater-trans row fresh (learned_row config held o now row) l (
      either (IsLater fresh) ((learned config held o now row).generation == fresh.policy.generation)
        (record { host = refl; start = omega arith })
        (record { host = refl; start = ground arith }))

pub ensure_state-Waits :
    (h : Key) (t : Time) (config : DomainPacingSettings) (k : Key) (before : Time)
    (xs : List DomainPacingState)
    → Waits h t xs
    → Waits h t (ensure_state config k before xs)
unfolding ensure_state new_state Waits
ensure_state-Waits h t config k before xs (r, f, b) =
    let found : any (of_host h) xs ≡ true = any-of_find (of_host h) xs f in
    elim (Bool-cases (any (of_host k) xs)) [
      | inl e ↦ rw e (r, f, b)
      | inr e ↦ rw e (r, ground arith, b)
    ]
  where
    any-of_find :
        (p : DomainPacingState → Bool) (ys : List DomainPacingState) {y : DomainPacingState}
        → find p ys ≡ some y
        → any p ys ≡ true
    any-of_find p [] e = cc
    any-of_find p (x ∷ ys) {y = z} e = let ih = any-of_find p ys {y = z} in ground arith

pub written-Waits :
    (h : Key) (t : Time) (config : DomainPacingSettings) (row : DomainPacingState) (lease : Lease)
    (session_id : Key) (seconds now : Time) (db : PacingDatabase)
    → find (of_host lease.hostname) db.states ≡ some row
    → Waits h t db.states
    → Waits h t (written config row lease session_id seconds now db).states
unfolding written decision
written-Waits h t config row lease session_id seconds now db e w =
    let fresh : DomainPacingState = refreshed config now row in
    update_row-Waits h t lease.hostname row
      (decided_row (decision config row lease now db) now fresh) db.states e
      (IsLater-trans row fresh (decided_row (decision config row lease now db) now fresh)
        (refreshed-IsLater config now row)
        (decided_row-IsLater (decision config row lease now db)
          (expiries lease.hostname now db.leases) now fresh refl))
      w
