-- ===== src/Blocking/Flow.antt =====
-- What each event adds to the messages of a session, as the proxy handles it.
use stolosio.Prelude.{
  either, ℕ, String, str_eq, str_eq_iff, Option, none, some, List, [], ◌∷◌, ◌++◌, Bool, true, false,
  not, ◌||◌, ◌≡◌, inl, inr, refl, sym, ap, subst, ◌∙◌, if◌then◌else◌, any, delete_where, Bool-cases,
  arith,
}
use mathlib.Core.List.{append-nil}
use stolosio.Prelude.Dicts.{contains-discard, lookup-delete}
use stolosio.Blocking.Json.{Json, is_object}
use stolosio.Blocking.Messages.{
  CommandKey, same_key, value_command_key, Attached, attaches, no_page, raises,
  attached_page_session, message_target_session,
}
use stolosio.Blocking.Session.{
  error, routing, Phase, created, awaiting, leaving, DomainBlocking, for_key,
}
use stolosio.Blocking.Routing.{route_attached, route_keyed, route}
use stolosio.Blocking.Configuration.{
  free_id, id_fuel, in_use, begin_command, set_phase, deliver, buffer_of, secure_target, phase_of,
  start, result_of, is_error, settle, confirm, give_up, leave, plain, send_parsed, send_keyed, send,
}
use stolosio.Blocking.Gating.{texts_of, texts_of-append}
use stolosio.Blocking.Tracking.{
  is_working, IsTracked, pending, Moves, same-Flows, closed-fail_closed, end_pump-Moves, added_to,
  put_nowait-Flows, gate-Moves,
}
use stolosio.Blocking.Targets.{phase_of-set_phase, phase_of-delete, begin-Flows}

-- The session's message in an arriving text, by what the text says.
abbrev pub attached_text : String → String → Json → Attached → List (String × String) → List String
attached_text s text value no_page sessions =
    added_to s (message_target_session sessions value) text
attached_text s text value _ sessions = []

abbrev pub keyed_text : String → String → Json → Option CommandKey → DomainBlocking → List String
keyed_text s text value none d =
    attached_text s text value (attached_page_session value) d.target_sessions
keyed_text s text value (some key) d =
    if any (for_key key) d.internal_responses
    then []
    else attached_text s text value (attached_page_session value) d.target_sessions

abbrev pub arriving_text : String → String → Option Json → DomainBlocking → List String
arriving_text s text none d = []
arriving_text s text (some value) d =
    if is_object value then keyed_text s text value (value_command_key value) d else []

route_attached-Moves :
    (s text : String) (value : Json) (a : Attached) (d : DomainBlocking)
    → d.closed ≡ false
    → IsTracked d
    → Moves s d (route_attached text value a d) (attached_text s text value a d.target_sessions)
unfolding route_attached
route_attached-Moves s text value raises d o t = end_pump-Moves s error d refl o t
route_attached-Moves s text value no_page d o t =
    gate-Moves s text (message_target_session d.target_sessions value) d o t
route_attached-Moves s text value (attaches r) d o t =
    inr (begin-Flows s r value (routing text value r) d t)

route_keyed-Moves :
    (s text : String) (value : Json) (k : Option CommandKey) (d : DomainBlocking)
    → d.closed ≡ false
    → IsTracked d
    → Moves s d (route_keyed text value k d) (keyed_text s text value k d)
unfolding route_keyed
route_keyed-Moves s text value none d o t =
    route_attached-Moves s text value (attached_page_session value) d o t
route_keyed-Moves s text value (some key) d o t =
    elim (Bool-cases (any (for_key key) d.internal_responses)) [
      | inl u ↦ rw u (inr (same-Flows s d _ refl refl refl refl t.failed t))
      | inr u ↦
          rw u
            (elim (route_attached-Moves s text value (attached_page_session value)
              (record d {
                downstream_command_ids = delete_where (same_key key) d.downstream_command_ids;
              })
              o (record { buffered = t.buffered; worked = t.worked; failed = t.failed })) [
                | inl c ↦ inl c
                | inr f ↦ inr (record { tracked = f.tracked; flow = f.flow })
              ])
    ]

pub route-Moves :
    (s text : String) (value : Option Json) (d : DomainBlocking)
    → d.closed ≡ false
    → IsTracked d
    → Moves s d (route text value d) (arriving_text s text value d)
unfolding route
route-Moves s text none d o t =
    inr (put_nowait-Flows s text none d _ (inl refl) refl refl refl refl t.failed t)
route-Moves s text (some value) d o t = elim (Bool-cases (is_object value)) [
  | inl u ↦ rw u (route_keyed-Moves s text value (value_command_key value) d o t)
  | inr u ↦ rw u (end_pump-Moves s error d refl o t)
]

module _ (loads : String → Option Json) (s : String) (d : DomainBlocking) (o : d.closed ≡ false)
    (t : IsTracked d) where
  pub unchanged : Moves s d d []
  unchanged = inr (same-Flows s d d refl refl refl refl t.failed t)

  begin_command-Moves :
      (r : String) (n : Option ℕ) → phase_of r d ≡ some created → Moves s d (begin_command r n d) []
  unfolding begin_command
  begin_command-Moves r none p = unchanged
  begin_command-Moves r (some n) p = inr (record {
    tracked = record {
      buffered = t.buffered;
      worked = λ q c.
          let w = t.worked q c in
          rw (phase_of-set_phase q r _ d.configuration_tasks) (ground arith);
      failed = t.failed;
    };
    flow = sym (append-nil (pending s d));
  })

  pub start-Moves : (r : String) (p : Option Phase) → phase_of r d ≡ p → Moves s d (start r p d) []
  unfolding start
  start-Moves r none e = unchanged
  start-Moves r (some (awaiting key)) e = unchanged
  start-Moves r (some (leaving key)) e = unchanged
  start-Moves r (some created) e =
      either (λ x. Moves s d x []) d.closed unchanged
        (begin_command-Moves r (free_id (id_fuel d) (in_use r d) d.internal_command_id) e)

  deliver-texts :
      (r : String) (texts : List String)
      → texts_of s (deliver r texts) ≡ (if str_eq r s then texts else [])
  deliver-texts r [] = ground arith
  deliver-texts r (text ∷ texts) = let ih = deliver-texts r texts in ground arith

  secure-Moves :
      (r : String) (key : CommandKey)
      → Moves s d
          (record (secure_target r d) {
            configuration_tasks = set_phase r (leaving key) d.configuration_tasks;
          })
          []
  unfolding secure_target
  secure-Moves r key = inr (record {
    tracked = record {
      buffered = λ q.
          let b = t.buffered q in
          rw (lookup-delete q r d.target_buffers)
            (ground (arith, contains-discard q r d.unconfigured_targets));
      worked = λ q c.
          let w = t.worked q (ground (arith, contains-discard q r d.unconfigured_targets)) in
          rw (phase_of-set_phase q r (leaving key) d.configuration_tasks)
            (ground (arith, contains-discard q r d.unconfigured_targets));
      failed = t.failed;
    };
    flow =
        rw
          (
            texts_of-append s d.messages (deliver r (buffer_of r d)),
            deliver-texts r (buffer_of r d),
            lookup-delete s r d.target_buffers,
          )
          (elim (Bool-cases (str_eq r s)) [
            | inl u ↦
                rw u
                  (ap (λ x. (texts_of s d.messages ++ buffer_of x d) ++ []) ((str_eq_iff r s).0 u))
            | inr u ↦ rw u (
                ap (λ x. x ++ buffer_of s d) (append-nil (texts_of s d.messages))
                ∙ sym (append-nil (pending s d)))
          ]);
  })

  settle-Moves : (r : String) (key : CommandKey) (v : Option Json) → Moves s d (settle r key v d) []
  unfolding settle
  settle-Moves r key none = unchanged
  settle-Moves r key (some v) =
      either (λ x. Moves s d x []) (is_error v) (inl (closed-fail_closed d o t))
        (secure-Moves r key)

  pub confirm-Moves : (r : String) (p : Option Phase) → Moves s d (confirm r p d) []
  unfolding confirm
  confirm-Moves r none = unchanged
  confirm-Moves r (some created) = unchanged
  confirm-Moves r (some (leaving key)) = unchanged
  confirm-Moves r (some (awaiting key)) = settle-Moves r key (result_of key d)

  pub give_up-Moves : (r : String) (p : Option Phase) → Moves s d (give_up r p d) []
  unfolding give_up
  give_up-Moves r none = unchanged
  give_up-Moves r (some created) = unchanged
  give_up-Moves r (some (leaving key)) = unchanged
  give_up-Moves r (some (awaiting key)) = inl (closed-fail_closed d o t)

  pub leave-Moves : (r : String) (p : Option Phase) → phase_of r d ≡ p → Moves s d (leave r p d) []
  unfolding leave
  leave-Moves r none e = unchanged
  leave-Moves r (some created) e = unchanged
  leave-Moves r (some (awaiting key)) e = unchanged
  leave-Moves r (some (leaving key)) e = inr (record {
    tracked = record {
      buffered = t.buffered;
      worked = λ q c.
          let w = t.worked q c in
          elim (Bool-cases (str_eq r q)) [
            | inl u ↦ absurd (
                let f : false ≡ true = rw e at (
                  subst (λ (x : String). is_working (phase_of x d) ≡ true)
                    (sym ((str_eq_iff r q).0 u)) w) in
                cc)
            | inr u ↦ rw (phase_of-delete q r d.configuration_tasks u) w
          ];
      failed = t.failed;
    };
    flow = sym (append-nil (pending s d));
  })

  send_keyed-Moves :
      (text : String) (key : CommandKey) (fails : Bool) → Moves s d (send_keyed text key fails d) []
  unfolding send_keyed
  send_keyed-Moves text key fails =
      either (λ x. Moves s d x []) (any (for_key key) d.internal_responses) unchanged
        (either (λ x. Moves s d x []) fails (inr (same-Flows s d _ refl refl refl refl t.failed t))
          (inr (same-Flows s d _ refl refl refl refl t.failed t)))

  plain-Moves : (text : String) (fails : Bool) → Moves s d (plain text fails d) []
  plain-Moves text fails =
      either (λ x. Moves s d x []) fails unchanged
        (inr (same-Flows s d _ refl refl refl refl t.failed t))

  send_parsed-Moves :
      (text : String) (fails : Bool) (k : Option CommandKey)
      → Moves s d (send_parsed text fails k d) []
  send_parsed-Moves text fails none = plain-Moves text fails
  send_parsed-Moves text fails (some key) = send_keyed-Moves text key fails

  pub send-Moves :
      (text : String) (v : Option Json) (fails : Bool) → Moves s d (send text v fails d) []
  unfolding send
  send-Moves text none fails =
      either (λ x. Moves s d x []) d.disconnected unchanged (plain-Moves text fails)
  send-Moves text (some v) fails =
      either (λ x. Moves s d x []) (d.disconnected || not (is_object v)) unchanged
        (send_parsed-Moves text fails (value_command_key v))
