-- ===== src/Attempts/Endings.antt =====
-- An attempt that is finished is over.
use stolosio.Prelude.{
  String, Option, none, some, Bool, true, ◌≡◌, refl, inl, inr, Time, if◌then◌else◌, either, find,
  Bool-cases,
}
use stolosio.Prelude.Writes.{find-update_row, find-test}
use stolosio.Contracts.{Json, AttemptState, ProviderAttempt}
use stolosio.Tables.{AcquisitionAttempt, Database}
use stolosio.Usage.Laws.{finalize_attempt_usage-state, finalize_attempt_usage-id}
use stolosio.Attempts.Progress.{has_key, is_ended, finished_row, finish_row, finish}

abbrev EndedOption : Option AcquisitionAttempt → Type 0
EndedOption none = Unit
EndedOption (some row) = is_ended row.state ≡ true

-- The attempt has no row, or one that is completed or failed.
abbrev pub IsOver : ProviderAttempt → Database → Type 0
IsOver attempt db = EndedOption (find (has_key attempt) db.attempts)

module _ (attempt : ProviderAttempt) (failed : Bool) (reason : String)
    (command_summary phase_summary : Option Json) (now : Time) (db : Database) where
  finished_row-state :
      (row : AcquisitionAttempt)
      → is_ended (finished_row db failed reason command_summary phase_summary now row).state ≡ true
  unfolding finished_row
  finished_row-state row =
      rw
        (finalize_attempt_usage-state db.rates now (record row {
          state = if failed then AttemptState.failed else AttemptState.completed;
          finished_at = some now;
        }))
        (either (λ x. is_ended x ≡ true) failed refl refl)

  finished_row-id :
      (row : AcquisitionAttempt)
      → find (has_key attempt) db.attempts ≡ some row
      → has_key attempt (finished_row db failed reason command_summary phase_summary now row) ≡ true
  unfolding finished_row
  finished_row-id row e =
      rw
        (finalize_attempt_usage-id db.rates now (record row {
          state = if failed then AttemptState.failed else AttemptState.completed;
          finished_at = some now;
        }))
        (find-test (has_key attempt) db.attempts e)

  finish_row-IsOver :
      (found : Option AcquisitionAttempt)
      → find (has_key attempt) db.attempts ≡ found
      → IsOver attempt
          (finish_row attempt failed reason command_summary phase_summary now found db).1
  unfolding finish_row
  finish_row-IsOver none e = rw e tt
  finish_row-IsOver (some row) e = elim (Bool-cases (is_ended row.state)) [
    | inl t ↦ rw t (rw e t)
    | inr t ↦ rw t (
        rw
          (find-update_row (has_key attempt)
            (finished_row db failed reason command_summary phase_summary now) row db.attempts e
            (finished_row-id row e))
          (finished_row-state row))
  ]

  pub finish-IsOver :
      IsOver attempt (finish attempt failed reason command_summary phase_summary now db).1
  unfolding finish
  finish-IsOver = finish_row-IsOver (find (has_key attempt) db.attempts) refl
