-- ===== src/Blocking/Shown.antt =====
-- What the client sees of a session that is not configured, over any sequence of events.
use stolosio.Prelude.{String, Option, List, [], ◌∷◌, ◌++◌, false, ◌≡◌, refl, sym, ap, ◌∙◌, All}
use mathlib.Core.List.{append-nil, append_assoc}
use stolosio.Blocking.Json.{Json}
use stolosio.Blocking.Session.{Outgoing}
use stolosio.Blocking.Calls.{Event, receives, Trace, receive, advance, step, run}
use stolosio.Blocking.Advance.{is_confirm, advance-Withholds}
use stolosio.Blocking.Gating.{
  texts_of, texts_of-append, Begins, Begins-refl, Begins-trans, IsQuiet, Held,
}

-- The messages of a session that the client has read or can read.
abbrev pub shown : String → Trace → List String
shown s t = texts_of s (t.delivered ++ t.proxy.messages)

-- The session stays held, and of its messages the client sees none but those that it saw before.
pub record WithholdsAll (s : String) (t next : Trace) : Type 0 where
  pub held : Held s next.proxy
  pub shows : Begins (shown s next) (shown s t)
  pub quiet : IsQuiet next.proxy

Begins-append :
    (s : String) (seen xs ys : List Outgoing)
    → Begins (texts_of s xs) (texts_of s ys)
    → Begins (texts_of s (seen ++ xs)) (texts_of s (seen ++ ys))
Begins-append s seen xs ys (rest, e) = (
  rest,
  rw (texts_of-append s seen xs, texts_of-append s seen ys)
      (append_assoc (texts_of s seen) (texts_of s xs) rest ∙ ap (λ r. texts_of s seen ++ r) e),
)

receive-WithholdsAll :
    (s : String) (t : Trace) (ms : List Outgoing)
    → t.proxy.messages ≡ ms
    → Held s t.proxy
    → IsQuiet t.proxy
    → WithholdsAll s t (receive ms t)
unfolding receive
receive-WithholdsAll s t [] e h q = record { held = h; shows = Begins-refl (shown s t); quiet = q }
receive-WithholdsAll s t (m ∷ rest) e h q = record {
  held = h;
  shows = (
    [],
    append-nil (shown s (receive (m ∷ rest) t))
        ∙ ap (texts_of s) (append_assoc t.delivered (m ∷ []) rest)
        ∙ ap (λ x. texts_of s (t.delivered ++ x)) (sym e),
  );
  quiet = record { pump = q.pump; tasks = q.tasks };
}

module _ (loads : String → Option Json) (s : String) where
  step-WithholdsAll :
      (e : Event) (t : Trace)
      → is_confirm s e ≡ false
      → Held s t.proxy
      → IsQuiet t.proxy
      → WithholdsAll s t (step loads e t)
  unfolding step
  step-WithholdsAll receives t n h q = receive-WithholdsAll s t t.proxy.messages refl h q
  step-WithholdsAll e t n h q =
      let w = advance-Withholds loads s t.proxy h q e n in
      record {
        held = w.held;
        shows =
            Begins-append s t.delivered (advance loads e t.proxy).messages t.proxy.messages w.shows;
        quiet = w.quiet;
      }

  -- While no confirmation of its configuration is handled, a session that is not configured stays
  -- so or the proxy closes; and whatever else happens, in any order, the messages of the session
  -- that the client has read or can read begin those that it had read or could read at the start.
  pub run-WithholdsAll :
      (events : List Event) (t : Trace)
      → All (λ e. is_confirm s e ≡ false) events
      → Held s t.proxy
      → IsQuiet t.proxy
      → WithholdsAll s t (run loads events t)
  unfolding run
  run-WithholdsAll [] t n h q = record { held = h; shows = Begins-refl (shown s t); quiet = q }
  run-WithholdsAll (e ∷ events) t n h q =
      let w = step-WithholdsAll e t n.0 h q in
      let w' = run-WithholdsAll events (step loads e t) n.1 w.held w.quiet in
      record { held = w'.held; shows = Begins-trans _ _ _ w'.shows w.shows; quiet = w'.quiet }
