-- ===== src/Blocking/Targets.antt =====
-- The tasks of the sessions, and the beginning of a new target.
use stolosio.Prelude.{
  by_test, String, str_eq, str_eq_iff, none, some, List, [], ◌∷◌, ◌++◌, true, false, ◌&&◌, ◌≡◌, inl,
  inr, refl, sym, ap, subst, ◌∙◌, if◌then◌else◌, any, find, delete_where, Bool-cases, Option-cases,
  arith, is_some,
}
use mathlib.Core.List.{append-nil}
use stolosio.Prelude.Dicts.{contains, discard, lookup, insert, contains-discard, lookup-insert}
use stolosio.Blocking.Json.{Json}
use stolosio.Blocking.Session.{Pump, Phase, created, Task, DomainBlocking, for_session, has_task}
use stolosio.Blocking.Routing.{begin_target_configuration}
use stolosio.Blocking.Configuration.{set_phase, texts_or, buffer_of, task_phase}
use stolosio.Blocking.Gating.{texts_of}
use stolosio.Blocking.Tracking.{is_working, IsTracked, pending, Flows, same-Flows, unbuffered}

phase_of-append :
    (s r : String) (ts : List Task)
    → task_phase (find (for_session s) (ts ++ record { session_id = r; phase = created } ∷ [])) ≡ (
        if is_some (find (for_session s) ts)
        then task_phase (find (for_session s) ts)
        else if str_eq r s
        then some created
        else none)
phase_of-append s r [] = ground arith
phase_of-append s r (t ∷ ts) = let ih = phase_of-append s r ts in ground arith

pub phase_of-set_phase :
    (s r : String) (p : Phase) (ts : List Task)
    → task_phase (find (for_session s) (set_phase r p ts)) ≡ (
        if str_eq r s && is_some (find (for_session s) ts)
        then some p
        else task_phase (find (for_session s) ts))
phase_of-set_phase s r p [] = ground arith
phase_of-set_phase s r p (t ∷ ts) =
    let ih = phase_of-set_phase s r p ts in
    ground (arith, str_eq_iff r s, str_eq_iff t.session_id r, str_eq_iff t.session_id s)

pub phase_of-delete :
    (s r : String) (ts : List Task)
    → str_eq r s ≡ false
    → find (for_session s) (delete_where (for_session r) ts) ≡ find (for_session s) ts
phase_of-delete s r [] n = refl
phase_of-delete s r (t ∷ ts) n =
    let ih = phase_of-delete s r ts n in
    ground (arith, str_eq_iff r s, str_eq_iff t.session_id r, str_eq_iff t.session_id s)

task-find :
    (s : String) (ts : List Task) → any (for_session s) ts ≡ false → find (for_session s) ts ≡ none
task-find s [] e = refl
task-find s (t ∷ ts) e = let ih = task-find s ts in ground arith

idle_unbuffered :
    (r : String) (d : DomainBlocking)
    → has_task r d ≡ false
    → IsTracked d
    → lookup r d.target_buffers ≡ none
idle_unbuffered r d h t = elim (Bool-cases (contains r d.unconfigured_targets)) [
  | inr u ↦ unbuffered d r t u
  | inl u ↦
      absurd
        (let w : false ≡ true = rw (task-find r d.configuration_tasks h) at (t.worked r u) in cc)
]

new_task :
    (q r : String) (d : DomainBlocking)
    → has_task r d ≡ false
    → IsTracked d
    → contains q (r ∷ discard r d.unconfigured_targets) ≡ true
    → is_working (
        task_phase (
          find
            (for_session q)
            (d.configuration_tasks ++ record { session_id = r; phase = created } ∷ [])))
      ≡ true
new_task q r d h t c =
    rw (phase_of-append q r d.configuration_tasks) (elim (Bool-cases (str_eq r q)) [
      | inl u ↦
          let none' : find (for_session q) d.configuration_tasks ≡ none =
            subst (λ (x : String). find (for_session x) d.configuration_tasks ≡ none)
              ((str_eq_iff r q).0 u) (task-find r d.configuration_tasks h) in
          rw (none', u) refl
      | inr u ↦
          let w = t.worked q (ground (arith, contains-discard q r d.unconfigured_targets)) in
          elim (Option-cases (find (for_session q) d.configuration_tasks)) [
            | inl n ↦ absurd (let f : false ≡ true = rw n at w in cc)
            | inr (k, n) ↦ rw n (rw n at w)
          ]
    ])

-- A new target waits with an empty buffer.
pub begin-Flows :
    (s r : String) (value : Json) (pump : Pump) (d : DomainBlocking)
    → IsTracked d
    → Flows s d (record (begin_target_configuration r value d) { pump = pump }) []
unfolding begin_target_configuration
begin-Flows s r value pump d t =
    by_test (λ x. Flows s d (record x { pump = pump }) []) (has_task r d)
      (λ h. same-Flows s d _ refl refl refl refl t.failed t)
      (λ h. record {
        tracked = record {
          buffered = λ q.
              let b = t.buffered q in
              rw (lookup-insert q r [] d.target_buffers)
                (ground (arith, contains-discard q r d.unconfigured_targets));
          worked = λ q c. new_task q r d h t c;
          failed = t.failed;
        };
        flow =
            ap (λ x. texts_of s d.messages ++ x) (empty_buffer h) ∙ sym (append-nil (pending s d));
      })
  where
    empty_buffer :
        has_task r d ≡ false → texts_or (lookup s (insert r [] d.target_buffers)) ≡ buffer_of s d
    empty_buffer h = rw (lookup-insert s r [] d.target_buffers) (elim (Bool-cases (str_eq r s)) [
      | inl u ↦
          let none' : lookup s d.target_buffers ≡ none =
            subst (λ (x : String). lookup x d.target_buffers ≡ none) ((str_eq_iff r s).0 u)
              (idle_unbuffered r d h t) in
          rw (none', u) refl
      | inr u ↦ rw u refl
    ])
