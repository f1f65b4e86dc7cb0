-- ===== src/Blocking/Routing.antt =====
-- backend/proxy/transport/domain_blocking.py: `_route_upstream_message` and what ends the proxy.
use stolosio.Prelude.{
  String, str_eq, Option, none, some, List, [], ◌∷◌, ◌++◌, Bool, true, false, ◌||◌, if◌then◌else◌,
  any, is_some, update_row, delete_where,
}
use stolosio.Prelude.Dicts.{contains, discard, lookup, insert}
use stolosio.Blocking.Json.{Json, get, is_object, as_text}
use stolosio.Blocking.Messages.{
  CommandKey, same_key, value_command_key, Attached, attaches, no_page, raises,
  attached_page_session, message_target_session,
}
use stolosio.Blocking.Session.{
  Outgoing, message, error, closed_mark, waiting, ended, routing, Phase, created, leaving, awaiting,
  Task, Response, DomainBlocking, has_task, for_key,
}

abbrev pub put_nowait : Outgoing → DomainBlocking → DomainBlocking
put_nowait m d = record d { messages = d.messages ++ m ∷ [] }

-- `_enqueue_terminal`
unfoldable pub enqueue_terminal : Outgoing → DomainBlocking → DomainBlocking
enqueue_terminal m d =
    if d.terminal_enqueued
    then d
    else record d { terminal_enqueued = true; messages = d.messages ++ m ∷ [] }

-- task.cancel(): a task that has begun runs its `finally` block, one that has not never runs.
abbrev pub cancel_phase : Phase → Phase
cancel_phase (awaiting key) = leaving key
cancel_phase phase = phase

unfoldable pub cancel_tasks : List Task → List Task
cancel_tasks [] = []
cancel_tasks (t ∷ ts) = record t { phase = cancel_phase t.phase } ∷ cancel_tasks ts

-- What `_fail_closed` and `close` write before the end is put in the queue.
abbrev pub failed_state : DomainBlocking → DomainBlocking
failed_state d = record d {
  disconnected = true;
  closed = true;
  pump = ended;
  configuration_tasks = cancel_tasks d.configuration_tasks;
  target_buffers = [];
  unconfigured_targets = [];
  messages = [];
}

abbrev pub closed_state : DomainBlocking → DomainBlocking
closed_state d = record d {
  closed = true;
  pump = ended;
  configuration_tasks = cancel_tasks d.configuration_tasks;
}

-- `_fail_closed`: everything that waits is dropped, and the client gets the error.
unfoldable pub fail_closed : DomainBlocking → DomainBlocking
unfolding enqueue_terminal cancel_tasks
fail_closed d = if d.disconnected || d.closed then d else enqueue_terminal error (failed_state d)

-- `close`
unfoldable pub close : DomainBlocking → DomainBlocking
unfolding enqueue_terminal cancel_tasks
close d = if d.closed then d else enqueue_terminal closed_mark (closed_state d)

abbrev pub is_empty : List String → Bool
is_empty [] = true
is_empty _ = false

-- The `except` and `else` clauses of `_pump_upstream`, by what is put in the queue.
unfoldable pub end_pump : Outgoing → DomainBlocking → DomainBlocking
unfolding fail_closed enqueue_terminal
end_pump m d =
    let stopped = record d { pump = ended } in
    if is_empty d.unconfigured_targets then enqueue_terminal m stopped else fail_closed stopped

-- self._target_buffers[session].append(message), where a missing buffer raises.
unfoldable pub put_message :
    String → String → DomainBlocking → Option (List String) → DomainBlocking
unfolding end_pump
put_message s text d none = end_pump error d
put_message s text d (some texts) = record d {
  target_buffers = insert s (texts ++ text ∷ []) d.target_buffers;
  pump = waiting;
}

abbrev pub buffer : String → String → DomainBlocking → DomainBlocking
buffer s text d = put_message s text d (lookup s d.target_buffers)

-- The message waits for its target's configuration, or goes to the client.
unfoldable pub gate : String → Option String → DomainBlocking → DomainBlocking
unfolding put_message
gate text none d = put_nowait (message none text) (record d { pump = waiting })
gate text (some s) d =
    if contains s d.unconfigured_targets
    then buffer s text d
    else put_nowait (message (some s) text) (record d { pump = waiting })

abbrev with_target : Option String → String → List (String × String) → List (String × String)
with_target none s sessions = sessions
with_target (some target) s sessions = insert target s sessions

abbrev target_id : Json → Option String
target_id value = info (get "params" value)
  where
    read : Option Json → Option String
    read none = none
    read (some target) = as_text (get "targetId" target)

    info : Option Json → Option String
    info none = none
    info (some params) = read (get "targetInfo" params)

-- `_begin_target_configuration`
unfoldable pub begin_target_configuration : String → Json → DomainBlocking → DomainBlocking
begin_target_configuration s value d = if has_task s d then d else record d {
  target_sessions = with_target (target_id value) s d.target_sessions;
  unconfigured_targets = s ∷ discard s d.unconfigured_targets;
  target_buffers = insert s [] d.target_buffers;
  configuration_tasks = d.configuration_tasks ++ record { session_id = s; phase = created } ∷ [];
}

-- The session by which a message is routed, `attached_session or ...`.
abbrev pub or_session : String → Option String → Option String
or_session s other = if str_eq s "" then other else some s

-- After the answers to commands: a new target, or another message.
unfoldable pub route_attached : String → Json → Attached → DomainBlocking → DomainBlocking
unfolding end_pump begin_target_configuration gate
route_attached text value raises d = end_pump error d
route_attached text value no_page d = gate text (message_target_session d.target_sessions value) d
route_attached text value (attaches s) d = record (begin_target_configuration s value d) {
  pump = routing text value s;
}

-- The future's `set_result`, once.
abbrev set_result : Json → Response → Response
set_result value r = if is_some r.result then r else record r { result = some value }

-- The answer to a command of the proxy's own is kept from the client.
unfoldable pub route_keyed : String → Json → Option CommandKey → DomainBlocking → DomainBlocking
unfolding route_attached
route_keyed text value none d = route_attached text value (attached_page_session value) d
route_keyed text value (some key) d =
    if any (for_key key) d.internal_responses
    then record d {
      internal_responses = update_row (for_key key) (set_result value) d.internal_responses;
    }
    else route_attached text value (attached_page_session value)
        (record d { downstream_command_ids = delete_where (same_key key) d.downstream_command_ids })

-- `_route_upstream_message`, until its `sleep(0)` where there is one. A value that is no object has
-- no `get`.
unfoldable pub route : String → Option Json → DomainBlocking → DomainBlocking
unfolding route_keyed
route text none d = put_nowait (message none text) d
route text (some value) d =
    if is_object value then route_keyed text value (value_command_key value) d else end_pump error d

-- The rest, after the `sleep(0)`.
unfoldable pub resume : String → Json → String → DomainBlocking → DomainBlocking
unfolding gate
resume text value s d = gate text (or_session s (message_target_session d.target_sessions value)) d
