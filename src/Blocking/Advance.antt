-- ===== src/Blocking/Advance.antt =====
-- No event but the confirmation of its own configuration shows a held session's messages.
use stolosio.Prelude.{
  either, by_test, ℕ, String, str_eq, Option, none, some, List, [], ◌∷◌, Bool, true, false, not,
  ◌||◌, ◌≡◌, inl, inr, refl, any, find, delete_where, Bool-cases, arith,
}
use mathlib.Core.List.{append-nil}
use stolosio.Prelude.Dicts.{contains, contains-discard}
use stolosio.Blocking.Json.{Json, is_object}
use stolosio.Blocking.Messages.{CommandKey, value_command_key, message_target_session}
use stolosio.Blocking.Session.{
  Outgoing, error, closed_mark, Pump, missing, waiting, ended, routing, Phase, created, awaiting,
  leaving, Task, DomainBlocking, for_session, for_key,
}
use stolosio.Blocking.Routing.{or_session}
use stolosio.Blocking.Configuration.{
  free_id, id_fuel, in_use, begin_command, set_phase, deliver, buffer_of, secure_target, phase_of,
  start, result_of, is_error, task_phase, settle, confirm, give_up, leave, plain, send_parsed,
  send_keyed, send,
}
use stolosio.Blocking.Calls.{
  Event, subscribes, receives, closes, sends, arrives, resumes, stream_ends, stream_breaks, starts,
  confirms, gives_up, leaves, subscribe, resume_pump, stop_pump, arrive, advance,
}
use stolosio.Blocking.Withholding.{route-Withholds}
use stolosio.Blocking.Gating.{
  texts_of, texts_of-append, Begins-refl, is_ended, waits, is_awaiting, IsQuiet, Held, Withholds,
  same-Withholds, fail_closed-Withholds, close-Withholds, end_pump-Withholds, open-IsQuiet,
  gate-Withholds,
}

-- While its pump runs, the proxy is open.
running :
    (s : String) (p : Pump) (d : DomainBlocking)
    → (d.closed ≡ true → is_ended p ≡ true)
    → is_ended p ≡ false
    → Held s d
    → (contains s d.unconfigured_targets ≡ true) × (d.closed ≡ false)
running s p d q n h = elim (Bool-cases d.closed) [
  | inl c ↦ absurd (let e = q c in cc)
  | inr o ↦ (elim h [ inl e ↦ e | inr c ↦ absurd (cc) ], o)
]

any-delete_where {ℓ} :
    {A : Type ℓ} (p r : A → Bool) (xs : List A)
    → any p xs ≡ false
    → any p (delete_where r xs) ≡ false
any-delete_where p r [] e = refl
any-delete_where p r (x ∷ xs) e = let ih = any-delete_where p r xs in ground arith

deliver_other :
    (s r : String) (texts : List String) → str_eq r s ≡ false → texts_of s (deliver r texts) ≡ []
deliver_other s r [] e = refl
deliver_other s r (text ∷ texts) e = rw e (deliver_other s r texts e)

-- The task of the session wakes up with a response.
abbrev pub is_confirm : String → Event → Bool
is_confirm s (confirms r) = str_eq r s
is_confirm s _ = false

module _ (loads : String → Option Json) (s : String) (d : DomainBlocking) (h : Held s d)
    (q : IsQuiet d) where
  unchanged : Withholds s d d
  unchanged = same-Withholds s d d h refl refl refl q

  arrive-Withholds :
      (text : String) (p : Pump)
      → (d.closed ≡ true → is_ended p ≡ true)
      → Withholds s d (arrive loads text p d)
  unfolding arrive
  arrive-Withholds text missing c = unchanged
  arrive-Withholds text ended c = unchanged
  arrive-Withholds text (routing _ _ _) c = unchanged
  arrive-Withholds text waiting c =
      let (u, o) = running s waiting d c refl h in route-Withholds s text (loads text) d u o

  resume-Withholds :
      (p : Pump) → (d.closed ≡ true → is_ended p ≡ true) → Withholds s d (resume_pump p d)
  unfolding resume_pump
  resume-Withholds missing c = unchanged
  resume-Withholds ended c = unchanged
  resume-Withholds waiting c = unchanged
  resume-Withholds (routing text value r) c =
      let (u, o) = running s (routing text value r) d c refl h in
      gate-Withholds s text (or_session r (message_target_session d.target_sessions value)) d u o

  stop-Withholds :
      (m : Outgoing) (p : Pump)
      → (d.closed ≡ true → is_ended p ≡ true)
      → Withholds s d (stop_pump m p d)
  unfolding stop_pump
  stop-Withholds m missing c = unchanged
  stop-Withholds m ended c = unchanged
  stop-Withholds m (routing _ _ _) c = unchanged
  stop-Withholds m waiting c =
      let (u, o) = running s waiting d c refl h in end_pump-Withholds s m d u q

  subscribe-Withholds : (p : Pump) → Withholds s d (subscribe p d)
  unfolding subscribe
  subscribe-Withholds waiting = unchanged
  subscribe-Withholds ended = unchanged
  subscribe-Withholds (routing _ _ _) = unchanged
  subscribe-Withholds missing =
      by_test (Withholds s d) d.closed (λ c. unchanged)
        (λ o. same-Withholds s d _ h refl refl refl (open-IsQuiet _ o))

  begin_command-Withholds :
      (r : String) (n : Option ℕ) → d.closed ≡ false → Withholds s d (begin_command r n d)
  unfolding begin_command
  begin_command-Withholds r none o = unchanged
  begin_command-Withholds r (some n) o = same-Withholds s d _ h refl refl refl (open-IsQuiet _ o)

  start-Withholds : (r : String) (p : Option Phase) → Withholds s d (start r p d)
  unfolding start
  start-Withholds r none = unchanged
  start-Withholds r (some (awaiting key)) = unchanged
  start-Withholds r (some (leaving key)) = unchanged
  start-Withholds r (some created) =
      by_test (Withholds s d) d.closed (λ c. unchanged)
        (begin_command-Withholds r (free_id (id_fuel d) (in_use r d) d.internal_command_id))

  -- A task that waits for a response belongs to an open proxy.
  awaits_open :
      (r : String) (key : CommandKey) → phase_of r d ≡ some (awaiting key) → d.closed ≡ false
  awaits_open r key e = elim (Bool-cases d.closed) [
    | inr o ↦ o
    | inl c ↦ absurd (let f = q.tasks c in go d.configuration_tasks e f)
  ]
    where
      go :
          (ts : List Task)
          → task_phase (find (for_session r) ts) ≡ some (awaiting key)
          → ¬ (any is_awaiting ts ≡ false)
      go [] x y = cc
      go (t ∷ ts) x y = elim (Bool-cases (for_session r t)) [
        | inr u ↦ go ts (rw u at x) (ground arith)
        | inl u ↦
            let phase : t.phase ≡ awaiting key =
              let x' : some t.phase ≡ some (awaiting key) = rw u at x in cc in
            let w : waits t.phase ≡ true = rw phase refl in ground arith
      ]

  secure-Withholds :
      (r : String) (key : CommandKey)
      → str_eq r s ≡ false
      → d.closed ≡ false
      → Withholds s d (record (secure_target r d) {
        configuration_tasks = set_phase r (leaving key) d.configuration_tasks;
      })
  unfolding secure_target
  secure-Withholds r key n o = record {
    held = elim h [
      | inl e ↦ inl (ground (arith, contains-discard s r d.unconfigured_targets))
      | inr c ↦ inr c
    ];
    shows = rw (texts_of-append s d.messages (deliver r (buffer_of r d))) (
        rw (deliver_other s r (buffer_of r d) n)
          (rw (append-nil (texts_of s d.messages)) (Begins-refl (texts_of s d.messages))));
    quiet = open-IsQuiet _ o;
  }

  settle-Withholds :
      (r : String) (key : CommandKey) (v : Option Json)
      → str_eq r s ≡ false
      → d.closed ≡ false
      → Withholds s d (settle r key v d)
  unfolding settle
  settle-Withholds r key none n o = unchanged
  settle-Withholds r key (some v) n o =
      either (Withholds s d) (is_error v) (fail_closed-Withholds s d h q)
        (secure-Withholds r key n o)

  confirm-Withholds :
      (r : String) (p : Option Phase)
      → phase_of r d ≡ p
      → str_eq r s ≡ false
      → Withholds s d (confirm r p d)
  unfolding confirm
  confirm-Withholds r none e n = unchanged
  confirm-Withholds r (some created) e n = unchanged
  confirm-Withholds r (some (leaving key)) e n = unchanged
  confirm-Withholds r (some (awaiting key)) e n =
      settle-Withholds r key (result_of key d) n (awaits_open r key e)

  give_up-Withholds : (r : String) (p : Option Phase) → Withholds s d (give_up r p d)
  unfolding give_up
  give_up-Withholds r none = unchanged
  give_up-Withholds r (some created) = unchanged
  give_up-Withholds r (some (leaving key)) = unchanged
  give_up-Withholds r (some (awaiting key)) = fail_closed-Withholds s d h q

  leave-Withholds : (r : String) (p : Option Phase) → Withholds s d (leave r p d)
  unfolding leave
  leave-Withholds r none = unchanged
  leave-Withholds r (some created) = unchanged
  leave-Withholds r (some (awaiting key)) = unchanged
  leave-Withholds r (some (leaving key)) = same-Withholds s d _ h refl refl refl (record {
    pump = q.pump;
    tasks = λ c. any-delete_where is_awaiting (for_session r) d.configuration_tasks (q.tasks c);
  })

  send_keyed-Withholds :
      (text : String) (key : CommandKey) (fails : Bool)
      → Withholds s d (send_keyed text key fails d)
  unfolding send_keyed
  send_keyed-Withholds text key fails =
      either (Withholds s d) (any (for_key key) d.internal_responses) unchanged (
        either (Withholds s d) fails
          (same-Withholds s d _ h refl refl refl (record { pump = q.pump; tasks = q.tasks }))
          (same-Withholds s d _ h refl refl refl (record { pump = q.pump; tasks = q.tasks })))

  plain-Withholds : (text : String) (fails : Bool) → Withholds s d (plain text fails d)
  plain-Withholds text fails =
      either (Withholds s d) fails unchanged
        (same-Withholds s d _ h refl refl refl (record { pump = q.pump; tasks = q.tasks }))

  send_parsed-Withholds :
      (text : String) (fails : Bool) (k : Option CommandKey)
      → Withholds s d (send_parsed text fails k d)
  send_parsed-Withholds text fails none = plain-Withholds text fails
  send_parsed-Withholds text fails (some key) = send_keyed-Withholds text key fails

  send-Withholds :
      (text : String) (v : Option Json) (fails : Bool) → Withholds s d (send text v fails d)
  unfolding send
  send-Withholds text none fails =
      either (Withholds s d) d.disconnected unchanged (plain-Withholds text fails)
  send-Withholds text (some v) fails =
      either (Withholds s d) (d.disconnected || not (is_object v)) unchanged
        (send_parsed-Withholds text fails (value_command_key v))

  pub advance-Withholds : (e : Event) → is_confirm s e ≡ false → Withholds s d (advance loads e d)
  unfolding advance
  advance-Withholds subscribes n = subscribe-Withholds d.pump
  advance-Withholds receives n = unchanged
  advance-Withholds closes n = close-Withholds s d h q
  advance-Withholds (sends text fails) n = send-Withholds text (loads text) fails
  advance-Withholds (arrives text) n = arrive-Withholds text d.pump q.pump
  advance-Withholds resumes n = resume-Withholds d.pump q.pump
  advance-Withholds stream_ends n = stop-Withholds closed_mark d.pump q.pump
  advance-Withholds stream_breaks n = stop-Withholds error d.pump q.pump
  advance-Withholds (starts r) n = start-Withholds r (phase_of r d)
  advance-Withholds (confirms r) n = confirm-Withholds r (phase_of r d) refl n
  advance-Withholds (gives_up r) n = give_up-Withholds r (phase_of r d)
  advance-Withholds (leaves r) n = leave-Withholds r (phase_of r d)
