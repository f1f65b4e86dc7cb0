-- ===== src/Blocking/Tracking.antt =====
-- Every message of a session waits in its buffer or is shown, in the order in which it arrived.
use stolosio.Prelude.{
  either, by_test, String, str_eq, str_eq_iff, Option, none, some, List, [], ◌∷◌, ◌++◌, Bool, true,
  false, ◌≡◌, ◌⊎◌, inl, inr, refl, sym, ap, subst, ◌∙◌, if◌then◌else◌, Bool-cases, arith, is_some,
}
use mathlib.Core.List.{append-nil, append_assoc}
use stolosio.Prelude.Dicts.{contains, lookup, lookup-insert}
use stolosio.Blocking.Session.{Outgoing, message, ended, Phase, created, awaiting, DomainBlocking}
use stolosio.Blocking.Routing.{enqueue_terminal, fail_closed, end_pump, put_message, gate, is_empty}
use stolosio.Blocking.Configuration.{texts_or, buffer_of, phase_of}
use stolosio.Blocking.Gating.{texts_of, texts_of-append}

-- The task of a session that is being configured.
abbrev pub is_working : Option Phase → Bool
is_working (some created) = true
is_working (some (awaiting key)) = true
is_working _ = false

-- The sessions that are not configured are those with a buffer, and a task works on each.
pub record IsTracked (d : DomainBlocking) : Type 0 where
  pub buffered :
      (s : String) → contains s d.unconfigured_targets ≡ is_some (lookup s d.target_buffers)
  pub worked :
      (s : String) → contains s d.unconfigured_targets ≡ true → is_working (phase_of s d) ≡ true
  pub failed : d.disconnected ≡ true → d.closed ≡ true

-- The messages of a session in the queue, and those that wait.
abbrev pub pending : String → DomainBlocking → List String
pending s d = texts_of s d.messages ++ buffer_of s d

-- The proxy closes, or goes on with one message more, where `added` has one.
pub record Flows (s : String) (d next : DomainBlocking) (added : List String) : Type 0 where
  pub tracked : IsTracked next
  pub flow : pending s next ≡ pending s d ++ added

abbrev pub Moves : String → DomainBlocking → DomainBlocking → List String → Type 0
Moves s d next added = (next.closed ≡ true) ⊎ Flows s d next added

-- A step that leaves the queue, the buffers and the tasks alone.
pub same-Flows :
    (s : String) (d next : DomainBlocking)
    → next.unconfigured_targets ≡ d.unconfigured_targets
    → next.target_buffers ≡ d.target_buffers
    → next.configuration_tasks ≡ d.configuration_tasks
    → next.messages ≡ d.messages
    → (next.disconnected ≡ true → next.closed ≡ true)
    → IsTracked d
    → Flows s d next []
same-Flows s d next u b c m f t = record {
  tracked = record {
    buffered = λ r. rw (u, b) (t.buffered r);
    worked = λ r h. rw c (t.worked r (rw u at h));
    failed = f;
  };
  flow =
      rw (m, b) (sym (append-nil (texts_of s d.messages ++ texts_or (lookup s d.target_buffers))));
}

-- An open proxy that fails is closed.
pub closed-fail_closed :
    (d : DomainBlocking) → d.closed ≡ false → IsTracked d → (fail_closed d).closed ≡ true
unfolding fail_closed
closed-fail_closed d o t =
    let n : d.disconnected ≡ false = elim (Bool-cases d.disconnected) [
      | inl e ↦ absurd (let c = t.failed e in cc)
      | inr e ↦ e
    ] in
    ground arith

mark-Flows :
    (s : String) (m : Outgoing) (d : DomainBlocking)
    → texts_of s (m ∷ []) ≡ []
    → IsTracked d
    → Flows s d (enqueue_terminal m (record d { pump = ended })) []
unfolding enqueue_terminal
mark-Flows s m d e t =
    either (λ x. Flows s d x []) d.terminal_enqueued
      (same-Flows s d (record d { pump = ended }) refl refl refl refl t.failed t)
      (record {
        tracked = record { buffered = t.buffered; worked = t.worked; failed = t.failed };
        flow = rw (texts_of-append s d.messages (m ∷ [])) (
            rw e (
              ap (λ x. x ++ buffer_of s d) (append-nil (texts_of s d.messages))
              ∙ sym (append-nil (pending s d))));
      })

pub end_pump-Moves :
    (s : String) (m : Outgoing) (d : DomainBlocking)
    → texts_of s (m ∷ []) ≡ []
    → d.closed ≡ false
    → IsTracked d
    → Moves s d (end_pump m d) []
unfolding end_pump
end_pump-Moves s m d e o t =
    either (λ x. Moves s d x []) (is_empty d.unconfigured_targets) (inr (mark-Flows s m d e t))
      (inl (
        closed-fail_closed (record d { pump = ended }) o
          (record { buffered = t.buffered; worked = t.worked; failed = t.failed })))

-- The texts that a message adds to those of a session.
abbrev pub added_to : String → Option String → String → List String
added_to s none text = []
added_to s (some r) text = if str_eq r s then text ∷ [] else []

pub unbuffered :
    (d : DomainBlocking) (s : String)
    → IsTracked d
    → contains s d.unconfigured_targets ≡ false
    → lookup s d.target_buffers ≡ none
unbuffered d s t e = let b = t.buffered s in ground arith

texts_of-message :
    (s text : String) (target : Option String)
    → texts_of s (message target text ∷ []) ≡ added_to s target text
texts_of-message s text none = refl
texts_of-message s text (some r) = refl

swap_empty : (xs ys zs : List String) → (ys ≡ []) ⊎ (zs ≡ []) → (xs ++ ys) ++ zs ≡ (xs ++ zs) ++ ys
swap_empty xs ys zs (inl e) = rw e (ap (λ x. x ++ zs) (append-nil xs) ∙ sym (append-nil (xs ++ zs)))
swap_empty xs ys zs (inr e) = rw e (append-nil (xs ++ ys) ∙ sym (ap (λ x. x ++ ys) (append-nil xs)))

-- A message that nothing holds back is shown behind the others.
pub put_nowait-Flows :
    (s text : String) (target : Option String) (d next : DomainBlocking)
    → (added_to s target text ≡ []) ⊎ (buffer_of s d ≡ [])
    → next.unconfigured_targets ≡ d.unconfigured_targets
    → next.target_buffers ≡ d.target_buffers
    → next.configuration_tasks ≡ d.configuration_tasks
    → next.messages ≡ d.messages ++ message target text ∷ []
    → (next.disconnected ≡ true → next.closed ≡ true)
    → IsTracked d
    → Flows s d next (added_to s target text)
put_nowait-Flows s text target d next a u b c m f t = record {
  tracked = record {
    buffered = λ r. rw (u, b) (t.buffered r);
    worked = λ r h. rw c (t.worked r (rw u at h));
    failed = f;
  };
  flow =
      rw (m, b)
        (rw
          (texts_of-append s d.messages (message target text ∷ []), texts_of-message s text target)
          (swap_empty (texts_of s d.messages) (added_to s target text) (buffer_of s d) a));
}

put_message-Moves :
    (s r text : String) (d : DomainBlocking) (found : Option (List String))
    → lookup r d.target_buffers ≡ found
    → contains r d.unconfigured_targets ≡ true
    → d.closed ≡ false
    → IsTracked d
    → Moves s d (put_message r text d found) (added_to s (some r) text)
unfolding put_message
put_message-Moves s r text d none e h o t = absurd (let b = t.buffered r in ground arith)
put_message-Moves s r text d (some texts) e h o t = inr (record {
  tracked = record {
    buffered = λ q.
        let b = t.buffered q in
        rw (lookup-insert q r (texts ++ text ∷ []) d.target_buffers)
          (ground (arith, str_eq_iff r q));
    worked = t.worked;
    failed = t.failed;
  };
  flow = elim (Bool-cases (str_eq r s)) [
    | inl u ↦
        let here : lookup s d.target_buffers ≡ some texts =
          subst (λ (q : String). lookup q d.target_buffers ≡ some texts) ((str_eq_iff r s).0 u) e in
        rw (lookup-insert s r (texts ++ text ∷ []) d.target_buffers, u, here)
          (sym (append_assoc (texts_of s d.messages) texts (text ∷ [])))
    | inr u ↦
        rw (lookup-insert s r (texts ++ text ∷ []) d.target_buffers, u)
          (sym (append-nil (pending s d)))
  ];
})

pub gate-Moves :
    (s text : String) (target : Option String) (d : DomainBlocking)
    → d.closed ≡ false
    → IsTracked d
    → Moves s d (gate text target d) (added_to s target text)
unfolding gate
gate-Moves s text none d o t =
    inr (put_nowait-Flows s text none d _ (inl refl) refl refl refl refl t.failed t)
gate-Moves s text (some r) d o t =
    by_test (λ x. Moves s d x (added_to s (some r) text)) (contains r d.unconfigured_targets)
      (λ h. put_message-Moves s r text d (lookup r d.target_buffers) refl h o t)
      (λ h. inr (
        put_nowait-Flows s text (some r) d _
          (elim (Bool-cases (str_eq r s)) [
            | inl u ↦
                let b : lookup s d.target_buffers ≡ none =
                  subst (λ (q : String). lookup q d.target_buffers ≡ none) ((str_eq_iff r s).0 u)
                    (unbuffered d r t h) in
                inr (ap texts_or b)
            | inr u ↦ inl (rw u refl)
          ])
          refl refl refl refl t.failed t))
