-- ===== src/Blocking/Order.antt =====
-- The client sees every message of a session once and in order, over any sequence of events.
use stolosio.Prelude.{
  either, by_test, String, Option, List, [], ◌∷◌, ◌++◌, true, false, ◌≡◌, inl, inr, refl, sym, ap,
  ◌∙◌,
}
use mathlib.Core.List.{append-nil, append_assoc}
use stolosio.Blocking.Json.{Json}
use stolosio.Blocking.Messages.{message_target_session}
use stolosio.Blocking.Session.{
  Outgoing, error, closed_mark, Pump, missing, waiting, ended, routing, DomainBlocking,
}
use stolosio.Blocking.Routing.{or_session, close}
use stolosio.Blocking.Configuration.{buffer_of, phase_of}
use stolosio.Blocking.Calls.{
  Event, subscribes, receives, closes, sends, arrives, resumes, stream_ends, stream_breaks, starts,
  confirms, gives_up, leaves, Trace, subscribe, resume_pump, stop_pump, receive, arrive, advance,
  step, run,
}
use stolosio.Blocking.Gating.{texts_of, texts_of-append}
use stolosio.Blocking.Shown.{shown}
use stolosio.Blocking.Tracking.{
  IsTracked, pending, Moves, same-Flows, end_pump-Moves, added_to, gate-Moves,
}
use stolosio.Blocking.Flow.{
  arriving_text, route-Moves, unchanged, start-Moves, confirm-Moves, give_up-Moves, leave-Moves,
  send-Moves,
}

abbrev arrived_text : String → String → Option Json → Pump → DomainBlocking → List String
arrived_text s text value waiting d = arriving_text s text value d
arrived_text s text value _ d = []

abbrev resumed_text : String → Pump → DomainBlocking → List String
resumed_text s (routing text value r) d =
    added_to s (or_session r (message_target_session d.target_sessions value)) text
resumed_text s _ d = []

closed-close : (d : DomainBlocking) → (close d).closed ≡ true
unfolding close
closed-close d =
    by_test (λ (x : DomainBlocking). x.closed ≡ true) d.closed (λ c. c)
      (λ _. either (λ (x : DomainBlocking). x.closed ≡ true) d.terminal_enqueued refl refl)

module _ (loads : String → Option Json) (s : String) where
  -- The message of the session that an event brings to the proxy, by what the message says: one
  -- that arrives and is not the answer to a command of the proxy's own, nor kept for its sleep; and
  -- the announcement of a new target, after that sleep.
  abbrev pub brought : Event → DomainBlocking → List String
  brought (arrives text) d = arrived_text s text (loads text) d.pump d
  brought resumes d = resumed_text s d.pump d
  brought _ d = []

  module _ (d : DomainBlocking) (o : d.closed ≡ false) (t : IsTracked d) where
    same : Moves s d d []
    same = unchanged loads s d o t

    arrive-Moves :
        (text : String) (p : Pump)
        → Moves s d (arrive loads text p d) (arrived_text s text (loads text) p d)
    unfolding arrive
    arrive-Moves text missing = same
    arrive-Moves text ended = same
    arrive-Moves text (routing _ _ _) = same
    arrive-Moves text waiting = route-Moves s text (loads text) d o t

    resume_pump-Moves : (p : Pump) → Moves s d (resume_pump p d) (resumed_text s p d)
    unfolding resume_pump
    resume_pump-Moves missing = same
    resume_pump-Moves ended = same
    resume_pump-Moves waiting = same
    resume_pump-Moves (routing text value r) =
        gate-Moves s text (or_session r (message_target_session d.target_sessions value)) d o t

    stop_pump-Moves :
        (m : Outgoing) (p : Pump) → texts_of s (m ∷ []) ≡ [] → Moves s d (stop_pump m p d) []
    unfolding stop_pump
    stop_pump-Moves m missing e = same
    stop_pump-Moves m ended e = same
    stop_pump-Moves m (routing _ _ _) e = same
    stop_pump-Moves m waiting e = end_pump-Moves s m d e o t

    subscribe-Moves : (p : Pump) → Moves s d (subscribe p d) []
    unfolding subscribe
    subscribe-Moves waiting = same
    subscribe-Moves ended = same
    subscribe-Moves (routing _ _ _) = same
    subscribe-Moves missing =
        either (λ x. Moves s d x []) d.closed same
          (inr (same-Flows s d _ refl refl refl refl t.failed t))

    advance-Moves : (e : Event) → Moves s d (advance loads e d) (brought e d)
    unfolding advance
    advance-Moves subscribes = subscribe-Moves d.pump
    advance-Moves receives = same
    advance-Moves closes = inl (closed-close d)
    advance-Moves (sends text fails) = send-Moves loads s d o t text (loads text) fails
    advance-Moves (arrives text) = arrive-Moves text d.pump
    advance-Moves resumes = resume_pump-Moves d.pump
    advance-Moves stream_ends = stop_pump-Moves closed_mark d.pump refl
    advance-Moves stream_breaks = stop_pump-Moves error d.pump refl
    advance-Moves (starts r) = start-Moves loads s d o t r (phase_of r d) refl
    advance-Moves (confirms r) = confirm-Moves loads s d o t r (phase_of r d)
    advance-Moves (gives_up r) = give_up-Moves loads s d o t r (phase_of r d)
    advance-Moves (leaves r) = leave-Moves loads s d o t r (phase_of r d) refl

  -- All that events bring, in their order.
  pub arrived : List Event → Trace → List String
  arrived [] t = []
  arrived (e ∷ events) t = brought e t.proxy ++ arrived events (step loads e t)

  -- The proxy is open before each of the events and after them.
  unfoldable pub StaysOpen : List Event → Trace → Type 0
  StaysOpen [] t = t.proxy.closed ≡ false
  StaysOpen (e ∷ events) t = (t.proxy.closed ≡ false) × StaysOpen events (step loads e t)

  -- What the client has read or can read of the session, and behind it what waits.
  abbrev pub known : Trace → List String
  known t = shown s t ++ buffer_of s t.proxy

  known_split : (t : Trace) → known t ≡ texts_of s t.delivered ++ pending s t.proxy
  known_split t =
      ap (λ x. x ++ buffer_of s t.proxy) (texts_of-append s t.delivered t.proxy.messages)
      ∙ append_assoc (texts_of s t.delivered) (texts_of s t.proxy.messages) (buffer_of s t.proxy)

  known-receive :
      (t : Trace) (ms : List Outgoing)
      → t.proxy.messages ≡ ms
      → known (receive ms t) ≡ known t ++ []
  unfolding receive
  known-receive t [] e = sym (append-nil (known t))
  known-receive t (m ∷ rest) e =
      ap (λ x. texts_of s x ++ buffer_of s t.proxy)
        (append_assoc t.delivered (m ∷ []) rest ∙ ap (λ x. t.delivered ++ x) (sym e))
      ∙ sym (append-nil (known t))

  IsTracked-receive :
      (t : Trace) (ms : List Outgoing) → IsTracked t.proxy → IsTracked (receive ms t).proxy
  unfolding receive
  IsTracked-receive t [] w = w
  IsTracked-receive t (m ∷ rest) w = record {
    buffered = w.buffered;
    worked = w.worked;
    failed = w.failed;
  }

  step-known :
      (e : Event) (t : Trace)
      → t.proxy.closed ≡ false
      → (step loads e t).proxy.closed ≡ false
      → IsTracked t.proxy
      → IsTracked (step loads e t).proxy × (known (step loads e t) ≡ known t ++ brought e t.proxy)
  unfolding step
  step-known receives t o o' w =
      (IsTracked-receive t t.proxy.messages w, known-receive t t.proxy.messages refl)
  step-known e t o o' w = elim (advance-Moves t.proxy o w e) [
    | inl c ↦ absurd (cc)
    | inr f ↦ (
      f.tracked,
      known_split (record t { proxy = advance loads e t.proxy })
          ∙ ap (λ x. texts_of s t.delivered ++ x) f.flow
          ∙ sym (append_assoc (texts_of s t.delivered) (pending s t.proxy) (brought e t.proxy))
          ∙ ap (λ x. x ++ brought e t.proxy) (sym (known_split t)),
    )
  ]

  StaysOpen-first : (events : List Event) (t : Trace) → StaysOpen events t → t.proxy.closed ≡ false
  unfolding StaysOpen
  StaysOpen-first [] t o = o
  StaysOpen-first (e ∷ events) t o = o.0

  -- Where the proxy stays open, its sessions that are not configured are those with a buffer and a
  -- task works on each: the session's messages that the client has read or can read, and behind
  -- them those that wait in the buffer, are after any events those from before and then, in their
  -- order, all that the events brought. None is lost, repeated or overtaken.
  pub known-run :
      (events : List Event) (t : Trace)
      → StaysOpen events t
      → IsTracked t.proxy
      → known (run loads events t) ≡ known t ++ arrived events t
  unfolding run arrived StaysOpen
  known-run [] t o w = sym (append-nil (known t))
  known-run (e ∷ events) t o w =
      let (w', k) = step-known e t o.0 (StaysOpen-first events (step loads e t) o.1) w in
      known-run events (step loads e t) o.1 w'
      ∙ ap (λ x. x ++ arrived events (step loads e t)) k
      ∙ append_assoc (known t) (brought e t.proxy) (arrived events (step loads e t))
