-- ===== src/Blocking/Gating.antt =====
-- What each operation of the proxy shows the client of a session that is not configured.
use stolosio.Prelude.{
  either, String, str_eq, str_eq_iff, Option, none, some, List, [], ◌∷◌, ◌++◌, Bool, true, false,
  ◌||◌, ◌≡◌, ◌⊎◌, inl, inr, refl, sym, ◌∙◌, if◌then◌else◌, any, Bool-cases, arith,
}
use mathlib.Core.List.{append-nil, append_assoc}
use stolosio.Prelude.Dicts.{contains, lookup}
use stolosio.Blocking.Session.{
  Outgoing, message, error, closed_mark, Pump, ended, Phase, created, awaiting, leaving, Task,
  DomainBlocking,
}
use stolosio.Blocking.Routing.{
  failed_state, closed_state, is_empty, put_message, cancel_phase, cancel_tasks, enqueue_terminal,
  fail_closed, close, end_pump, gate,
}

-- The messages of session `s` in a queue.
abbrev pub texts_of : String → List Outgoing → List String
texts_of s [] = []
texts_of s (message none text ∷ rest) = texts_of s rest
texts_of s (message (some r) text ∷ rest) =
    let texts = texts_of s rest in if str_eq r s then text ∷ texts else texts
texts_of s (error ∷ rest) = texts_of s rest
texts_of s (closed_mark ∷ rest) = texts_of s rest

pub texts_of-append :
    (s : String) (xs ys : List Outgoing) → texts_of s (xs ++ ys) ≡ texts_of s xs ++ texts_of s ys
texts_of-append s [] ys = refl
texts_of-append s (message none text ∷ xs) ys = texts_of-append s xs ys
texts_of-append s (message (some r) text ∷ xs) ys = let ih = texts_of-append s xs ys in ground arith
texts_of-append s (error ∷ xs) ys = texts_of-append s xs ys
texts_of-append s (closed_mark ∷ xs) ys = texts_of-append s xs ys

-- The first list begins the second one.
abbrev pub Begins : List String → List String → Type 0
Begins xs ys = (rest : List String) × (xs ++ rest ≡ ys)

pub Begins-refl : (xs : List String) → Begins xs xs
Begins-refl xs = ([], append-nil xs)

pub Begins-trans : (xs ys zs : List String) → Begins xs ys → Begins ys zs → Begins xs zs
Begins-trans xs ys zs (r, e) (q, f) = (r ++ q, sym (append_assoc xs r q) ∙ rw e f)

abbrev pub is_ended : Pump → Bool
is_ended ended = true
is_ended _ = false

abbrev pub waits : Phase → Bool
waits (awaiting key) = true
waits _ = false

abbrev pub is_awaiting : Task → Bool
is_awaiting t = waits t.phase

-- A proxy that is closed reads no message any more, and none of its tasks waits for a response.
pub record IsQuiet (d : DomainBlocking) : Type 0 where
  pub pump : d.closed ≡ true → is_ended d.pump ≡ true
  pub tasks : d.closed ≡ true → any is_awaiting d.configuration_tasks ≡ false

-- The session is not configured, or the proxy is closed.
abbrev pub Held : String → DomainBlocking → Type 0
Held s d = (contains s d.unconfigured_targets ≡ true) ⊎ (d.closed ≡ true)

-- The operation puts no message of the session into the queue, and the session is held after it.
pub record Withholds (s : String) (d next : DomainBlocking) : Type 0 where
  pub held : Held s next
  pub shows : Begins (texts_of s next.messages) (texts_of s d.messages)
  pub quiet : IsQuiet next

-- A step that leaves the queue and the sessions' configuration alone.
pub same-Withholds :
    (s : String) (d next : DomainBlocking)
    → Held s d
    → next.unconfigured_targets ≡ d.unconfigured_targets
    → next.closed ≡ d.closed
    → next.messages ≡ d.messages
    → IsQuiet next
    → Withholds s d next
same-Withholds s d next h u c m q = record {
  held = elim h [ inl e ↦ inl (rw u e) | inr e ↦ inr (c ∙ e) ];
  shows = rw m (Begins-refl (texts_of s d.messages));
  quiet = q;
}

any-cancel_tasks : (ts : List Task) → any is_awaiting (cancel_tasks ts) ≡ false
unfolding cancel_tasks
any-cancel_tasks [] = refl
any-cancel_tasks (t ∷ ts) = go t.phase (any-cancel_tasks ts)
  where
    go :
        (p : Phase)
        → any is_awaiting (cancel_tasks ts) ≡ false
        → any is_awaiting (record t { phase = cancel_phase p } ∷ cancel_tasks ts) ≡ false
    go created ih = ih
    go (awaiting key) ih = ih
    go (leaving key) ih = ih

-- A mark at the queue's end is no message.
enqueue_terminal-texts :
    (s : String) (m : Outgoing) (d : DomainBlocking)
    → texts_of s (m ∷ []) ≡ []
    → texts_of s (enqueue_terminal m d).messages ≡ texts_of s d.messages
unfolding enqueue_terminal
enqueue_terminal-texts s m d e = elim (Bool-cases d.terminal_enqueued) [
  | inl t ↦ rw t refl
  | inr t ↦ rw t (texts_of-append s d.messages (m ∷ []) ∙ rw e (append-nil (texts_of s d.messages)))
]

enqueue_terminal_rest :
    (m : Outgoing) (d : DomainBlocking)
    → ((enqueue_terminal m d).closed ≡ d.closed)
      × ((enqueue_terminal m d).pump ≡ d.pump)
      × ((enqueue_terminal m d).configuration_tasks ≡ d.configuration_tasks)
      × ((enqueue_terminal m d).unconfigured_targets ≡ d.unconfigured_targets)
unfolding enqueue_terminal
enqueue_terminal_rest m d = elim (Bool-cases d.terminal_enqueued) [
  | inl t ↦ rw t (refl, refl, refl, refl)
  | inr t ↦ rw t (refl, refl, refl, refl)
]

-- A proxy that closes: what is left of the queue begins the queue before.
closing-Withholds :
    (s : String) (m : Outgoing) (d next : DomainBlocking)
    → texts_of s (m ∷ []) ≡ []
    → next.closed ≡ true
    → next.pump ≡ ended
    → next.configuration_tasks ≡ cancel_tasks d.configuration_tasks
    → Begins (texts_of s next.messages) (texts_of s d.messages)
    → Withholds s d (enqueue_terminal m next)
closing-Withholds s m d next e c p ts b =
    let (c', p', ts', _) = enqueue_terminal_rest m next in
    record {
      held = inr (c' ∙ c);
      shows = rw (enqueue_terminal-texts s m next e) b;
      quiet = record {
        pump = λ _. rw (p' ∙ p) refl;
        tasks = λ _. rw (ts' ∙ ts) (any-cancel_tasks d.configuration_tasks);
      };
    }

pub fail_closed-Withholds :
    (s : String) (d : DomainBlocking) → Held s d → IsQuiet d → Withholds s d (fail_closed d)
unfolding fail_closed
fail_closed-Withholds s d h q =
    either (Withholds s d) (d.disconnected || d.closed) (same-Withholds s d d h refl refl refl q) (
      closing-Withholds s error d (failed_state d) refl refl refl refl
        (texts_of s d.messages, refl))

pub close-Withholds :
    (s : String) (d : DomainBlocking) → Held s d → IsQuiet d → Withholds s d (close d)
unfolding close
close-Withholds s d h q =
    either (Withholds s d) d.closed (same-Withholds s d d h refl refl refl q) (
      closing-Withholds s closed_mark d (closed_state d) refl refl refl refl
        (Begins-refl (texts_of s d.messages)))

contains-nil : (s : String) (xs : List String) → contains s xs ≡ true → is_empty xs ≡ false
contains-nil s [] h = cc
contains-nil s (x ∷ xs) h = refl

-- The pump's end, while the session is not configured, closes the proxy.
pub end_pump-Withholds :
    (s : String) (m : Outgoing) (d : DomainBlocking)
    → contains s d.unconfigured_targets ≡ true
    → IsQuiet d
    → Withholds s d (end_pump m d)
unfolding end_pump
end_pump-Withholds s m d h q = rw (contains-nil s d.unconfigured_targets h) (
    let w =
      fail_closed-Withholds s (record d { pump = ended }) (inl h)
        (record { pump = λ _. refl; tasks = q.tasks }) in
    record { held = w.held; shows = w.shows; quiet = w.quiet })

-- An open proxy is quiet.
pub open-IsQuiet : (d : DomainBlocking) → d.closed ≡ false → IsQuiet d
open-IsQuiet d o = record { pump = λ c. absurd (cc); tasks = λ c. absurd (cc) }

-- A message of another session, or of none.
pub put_nowait-Withholds :
    (s : String) (m : Outgoing) (d next : DomainBlocking)
    → contains s d.unconfigured_targets ≡ true
    → next.unconfigured_targets ≡ d.unconfigured_targets
    → next.messages ≡ d.messages ++ m ∷ []
    → texts_of s (m ∷ []) ≡ []
    → IsQuiet next
    → Withholds s d next
put_nowait-Withholds s m d next h u e n q = record {
  held = inl (rw u h);
  shows = rw e (
      rw (texts_of-append s d.messages (m ∷ []))
        (rw n (rw (append-nil (texts_of s d.messages)) (Begins-refl (texts_of s d.messages)))));
  quiet = q;
}

pub gate-Withholds :
    (s text : String) (target : Option String) (d : DomainBlocking)
    → contains s d.unconfigured_targets ≡ true
    → d.closed ≡ false
    → Withholds s d (gate text target d)
unfolding gate
gate-Withholds s text none d h o =
    put_nowait-Withholds s (message none text) d _ h refl refl refl (open-IsQuiet _ o)
gate-Withholds s text (some r) d h o = elim (Bool-cases (contains r d.unconfigured_targets)) [
  | inr t ↦ rw t (
      put_nowait-Withholds s (message (some r) text) d _ h refl refl
        (ground (arith, str_eq_iff r s)) (open-IsQuiet _ o))
  | inl t ↦ rw t (buffered (lookup r d.target_buffers))
]
  where
    buffered : (found : Option (List String)) → Withholds s d (put_message r text d found)
    buffered none = end_pump-Withholds s error d h (open-IsQuiet d o)
    buffered (some texts) = same-Withholds s d _ (inl h) refl refl refl (open-IsQuiet _ o)
