-- ===== src/Blocking/Tests.antt =====
-- A page that is attached, configured and shown to the client.
use stolosio.Prelude.{
  String, str_eq, Option, none, some, List, [], ◌∷◌, ◌++◌, ◌≡◌, inl, refl, ℕ, arith, true,
  if◌then◌else◌,
}
use stolosio.Blocking.Json.{Json, end, field, string, object, number, negsuc}
use stolosio.Blocking.Messages
use stolosio.Blocking.Session.{message, new_session}
use stolosio.Blocking.Configuration.{phase_of, start}
use stolosio.Blocking.Advance.{is_confirm}
use stolosio.Blocking.Shown.{WithholdsAll, run-WithholdsAll}
use stolosio.Blocking.Tracking.{IsTracked}
use stolosio.Blocking.Order.{known, arrived, StaysOpen, known-run}
use stolosio.Blocking.Ids.{IsBegun, start-IsBegun}
use stolosio.Blocking.Secured.{IsConfirmed, advance-IsConfirmed}
use stolosio.Blocking.Calls.{
  Event, subscribes, receives, arrives, resumes, starts, confirms, leaves, Trace, run,
}

-- What `json.loads` makes of the texts of these tests.
abbrev loads : String → Option Json
loads text =
    if str_eq text "attach"
    then some (
        object (
          field "method" (string "Target.attachedToTarget") (
            field "params"
              (object (
                field "sessionId" (string "S") (
                  field "targetInfo"
                    (object (field "type" (string "page") (field "targetId" (string "T") end)))
                    end)))
              end)))
    else if str_eq text "event"
    then some (object (field "method" (string "Page.loaded") (field "sessionId" (string "S") end)))
    else if str_eq text "done"
    then some (object (field "id" (number (negsuc 0)) (field "sessionId" (string "S") end)))
    else none

abbrev new_trace : Trace
new_trace = record { proxy = new_session ("blocked.example" ∷ []); delivered = [] }

abbrev until_configured : List Event
until_configured =
    subscribes ∷ arrives "attach" ∷ starts "S" ∷ resumes ∷ arrives "event" ∷ receives ∷ []

nothing_shown : (run loads until_configured new_trace).delivered ≡ []
unfolding run new_session Messages.value_command_key Messages.attached_page_session
    Messages.message_target_session
nothing_shown = refl

abbrev afterwards : List Event
afterwards = arrives "done" ∷ confirms "S" ∷ leaves "S" ∷ receives ∷ receives ∷ []

shown_in_order :
    (run loads afterwards (run loads until_configured new_trace)).delivered
    ≡ message (some "S") "attach" ∷ message (some "S") "event" ∷ []
unfolding run new_session Messages.value_command_key Messages.attached_page_session
    Messages.message_target_session
shown_in_order = refl

abbrev attached : Trace
attached = run loads (subscribes ∷ arrives "attach" ∷ []) new_trace

new_session-IsTracked : IsTracked new_trace.proxy
unfolding new_session
new_session-IsTracked = record {
  buffered = λ s. refl;
  worked = λ s h. absurd (cc);
  failed = λ h. absurd (cc);
}

known-run_example :
    known loads "S" (run loads (until_configured ++ afterwards) new_trace)
    ≡ known loads "S" new_trace ++ arrived loads "S" (until_configured ++ afterwards) new_trace
unfolding run StaysOpen new_session Messages.value_command_key Messages.attached_page_session
    Messages.message_target_session
known-run_example =
    known-run loads "S" (until_configured ++ afterwards) new_trace
      (refl, (refl, (refl, (refl, (refl, (refl, (refl, (refl, (refl, (refl, (refl, refl)))))))))))
      new_session-IsTracked

run-WithholdsAll_example :
    WithholdsAll "S" attached
      (run loads (starts "S" ∷ resumes ∷ arrives "event" ∷ receives ∷ []) attached)
unfolding run new_session Messages.value_command_key Messages.attached_page_session
    Messages.message_target_session
run-WithholdsAll_example =
    run-WithholdsAll loads "S" (starts "S" ∷ resumes ∷ arrives "event" ∷ receives ∷ []) attached
      (refl, (refl, (refl, (refl, tt)))) (inl refl)
      (record { pump = λ c. absurd (cc); tasks = λ c. absurd (cc) })

start-IsBegun_example :
    (n : ℕ) × IsBegun "S" attached.proxy n (start "S" (phase_of "S" attached.proxy) attached.proxy)
unfolding run new_session Messages.value_command_key Messages.attached_page_session
    Messages.message_target_session
start-IsBegun_example = start-IsBegun "S" attached.proxy refl refl

abbrev answered : Trace
answered = run loads (starts "S" ∷ resumes ∷ arrives "done" ∷ []) attached

answered-IsTracked : IsTracked answered.proxy
unfolding run new_session Messages.value_command_key Messages.attached_page_session
    Messages.message_target_session
answered-IsTracked = record {
  buffered = λ s. ground arith;
  worked = λ s h. ground arith;
  failed = λ h. absurd (cc);
}

advance-IsConfirmed_example :
    (is_confirm "S" (confirms "S") ≡ true) × IsConfirmed "S" answered.proxy
unfolding run new_session Messages.value_command_key Messages.attached_page_session
    Messages.message_target_session
advance-IsConfirmed_example =
    advance-IsConfirmed loads "S" answered.proxy (confirms "S") refl refl
      (record { pump = λ c. absurd (cc); tasks = λ c. absurd (cc) }) answered-IsTracked refl refl
