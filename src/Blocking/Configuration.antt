-- ===== src/Blocking/Configuration.antt =====
-- backend/proxy/transport/domain_blocking.py: `_configure_target`, at its waits, and `send`.
use stolosio.Prelude.{
  ℕ, zero, suc, ◌+◌, String, Option, none, some, List, [], ◌∷◌, ◌++◌, Bool, not, ◌||◌,
  if◌then◌else◌, any, find, is_some, length, update_row, delete_where,
}
use stolosio.Prelude.Dicts.{discard, lookup, delete}
use stolosio.Blocking.Json.{negsuc, Json, get, is_object}
use stolosio.Blocking.Messages.{CommandKey, same_key, value_command_key}
use stolosio.Blocking.Session.{
  Outgoing, message, Phase, created, leaving, awaiting, Task, Response, downstream,
  set_blocked_urls, DomainBlocking, for_session, for_key,
}
use stolosio.Blocking.Routing.{fail_closed}

abbrev pub internal_key : String → ℕ → CommandKey
internal_key s n = record { session_id = some s; command_id = negsuc n }

-- key in self._downstream_command_ids or key in self._internal_responses
abbrev pub in_use : String → DomainBlocking → ℕ → Bool
in_use s d n =
    any (same_key (internal_key s n)) d.downstream_command_ids
    || any (for_key (internal_key s n)) d.internal_responses

-- The search for an id that is free, going down from -(n + 1). `none`: the fuel ran out.
unfoldable pub free_id : ℕ → (ℕ → Bool) → ℕ → Option ℕ
free_id zero used n = none
free_id (suc fuel) used n = let rest = free_id fuel used (n + 1) in if used n then rest else some n

-- One more round than there are keys.
abbrev pub id_fuel : DomainBlocking → ℕ
id_fuel d = length d.downstream_command_ids + length d.internal_responses + 1

abbrev pub phase_to : Phase → Task → Task
phase_to phase t = record t { phase = phase }

abbrev pub set_phase : String → Phase → List Task → List Task
set_phase s phase = update_row (for_session s) (phase_to phase)

-- The first section of the task: a key is taken, and the list of domains is sent.
unfoldable pub begin_command : String → Option ℕ → DomainBlocking → DomainBlocking
begin_command s none d = d
begin_command s (some n) d = record d {
  internal_command_id = n + 1;
  internal_responses =
      d.internal_responses ++ record { key = internal_key s n; result = none } ∷ [];
  configuration_tasks = set_phase s (awaiting (internal_key s n)) d.configuration_tasks;
  sent = d.sent ++ set_blocked_urls (internal_key s n) d.url_patterns ∷ [];
}

-- `_secure_target`: the messages that waited go to the client, in their order.
abbrev pub deliver : String → List String → List Outgoing
deliver s [] = []
deliver s (text ∷ texts) = message (some s) text ∷ deliver s texts

abbrev pub texts_or : Option (List String) → List String
texts_or none = []
texts_or (some texts) = texts

abbrev pub buffer_of : String → DomainBlocking → List String
buffer_of s d = texts_or (lookup s d.target_buffers)

unfoldable pub secure_target : String → DomainBlocking → DomainBlocking
secure_target s d = record d {
  target_buffers = delete s d.target_buffers;
  unconfigured_targets = discard s d.unconfigured_targets;
  messages = d.messages ++ deliver s (buffer_of s d);
}

-- The phase of the task of a session, if there is one.
abbrev pub task_phase : Option Task → Option Phase
task_phase none = none
task_phase (some t) = some t.phase

abbrev pub phase_of : String → DomainBlocking → Option Phase
phase_of s d = task_phase (find (for_session s) d.configuration_tasks)

unfoldable pub start : String → Option Phase → DomainBlocking → DomainBlocking
unfolding begin_command free_id
start s (some created) d =
    if d.closed
    then d
    else begin_command s (free_id (id_fuel d) (in_use s d) d.internal_command_id) d
start s _ d = d

abbrev response_result : Option Response → Option Json
response_result none = none
response_result (some r) = r.result

-- The value that a command's future holds.
abbrev pub result_of : CommandKey → DomainBlocking → Option Json
result_of key d = response_result (find (for_key key) d.internal_responses)

-- `if "error" in result`
abbrev pub is_error : Json → Bool
is_error value = is_some (get "error" value)

-- The task wakes up with the response.
unfoldable pub settle : String → CommandKey → Option Json → DomainBlocking → DomainBlocking
unfolding secure_target fail_closed
settle s key none d = d
settle s key (some value) d = if is_error value then fail_closed d else record (secure_target s d) {
  configuration_tasks = set_phase s (leaving key) d.configuration_tasks;
}

unfoldable pub confirm : String → Option Phase → DomainBlocking → DomainBlocking
unfolding settle
confirm s (some (awaiting key)) d = settle s key (result_of key d) d
confirm s _ d = d

-- The command cannot be sent, or its response does not come in time.
unfoldable pub give_up : String → Option Phase → DomainBlocking → DomainBlocking
unfolding fail_closed
give_up s (some (awaiting key)) d = fail_closed d
give_up s _ d = d

-- The `finally` block.
unfoldable pub leave : String → Option Phase → DomainBlocking → DomainBlocking
leave s (some (leaving key)) d = record d {
  internal_responses = delete_where (for_key key) d.internal_responses;
  configuration_tasks = delete_where (for_session s) d.configuration_tasks;
}
leave s _ d = d

-- What `send` does for a command's key, once no command of the proxy's own has it.
abbrev add_key : CommandKey → List CommandKey → List CommandKey
add_key key keys = if any (same_key key) keys then keys else key ∷ keys

unfoldable pub send_keyed : String → CommandKey → Bool → DomainBlocking → DomainBlocking
send_keyed text key fails d =
    if any (for_key key) d.internal_responses
    then d
    else if fails
    then record d { downstream_command_ids = delete_where (same_key key) d.downstream_command_ids }
    else record d {
      downstream_command_ids = add_key key d.downstream_command_ids;
      sent = d.sent ++ downstream text ∷ [];
    }

abbrev pub plain : String → Bool → DomainBlocking → DomainBlocking
plain text fails d = if fails then d else record d { sent = d.sent ++ downstream text ∷ [] }

abbrev pub send_parsed : String → Bool → Option CommandKey → DomainBlocking → DomainBlocking
send_parsed text fails none d = plain text fails d
send_parsed text fails (some key) d = send_keyed text key fails d

-- `send`, whose call of the provider may fail. A closed proxy and a value without `get` raise.
unfoldable pub send : String → Option Json → Bool → DomainBlocking → DomainBlocking
unfolding send_keyed
send text none fails d = if d.disconnected then d else plain text fails d
send text (some value) fails d =
    if d.disconnected || not (is_object value)
    then d
    else send_parsed text fails (value_command_key value) d
