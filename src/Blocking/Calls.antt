-- ===== src/Blocking/Calls.antt =====
-- The proxy with the provider, its own tasks and the client, interleaved in any order. An event that
-- the program does not allow in a state leaves it as it is. `json.loads` is the section's parameter.
use stolosio.Prelude.{String, Option, List, [], ◌∷◌, ◌++◌, Bool, if◌then◌else◌}
use stolosio.Blocking.Json.{Json}
use stolosio.Blocking.Session.{
  Outgoing, Pump, missing, waiting, routing, closed_mark, error, DomainBlocking,
}
use stolosio.Blocking.Routing.{route, resume, end_pump, close}
use stolosio.Blocking.Configuration.{phase_of, start, confirm, give_up, leave, send}

-- The client asks for messages, sends (and the provider's socket may fail), reads or closes; a
-- message of the provider arrives, the pump goes on, the provider's stream ends or breaks; and the
-- task that configures a session runs on.
pub data Event : Type 0 where
  subscribes receives closes : Event
  sends : String → Bool → Event
  arrives : String → Event
  resumes stream_ends stream_breaks : Event
  starts confirms gives_up leaves : String → Event

-- The proxy, and what the client has read from the queue, the oldest first.
pub record Trace : Type 0 where
  pub proxy : DomainBlocking
  pub delivered : List Outgoing

-- `_ensure_upstream_pump`
unfoldable pub subscribe : Pump → DomainBlocking → DomainBlocking
subscribe missing d = if d.closed then d else record d { pump = waiting }
subscribe _ d = d

unfoldable pub resume_pump : Pump → DomainBlocking → DomainBlocking
unfolding resume
resume_pump (routing text value s) d = resume text value s d
resume_pump _ d = d

unfoldable pub stop_pump : Outgoing → Pump → DomainBlocking → DomainBlocking
unfolding end_pump
stop_pump m waiting d = end_pump m d
stop_pump m _ d = d

unfoldable pub receive : List Outgoing → Trace → Trace
receive [] t = t
receive (m ∷ rest) t = record {
  proxy = record t.proxy { messages = rest };
  delivered = t.delivered ++ m ∷ [];
}

module _ (loads : String → Option Json) where
  unfoldable pub arrive : String → Pump → DomainBlocking → DomainBlocking
  unfolding route
  arrive text waiting d = route text (loads text) d
  arrive text _ d = d

  -- What an event other than `receives` does to the proxy.
  unfoldable pub advance : Event → DomainBlocking → DomainBlocking
  unfolding subscribe arrive resume_pump stop_pump close send start confirm give_up leave
  advance subscribes d = subscribe d.pump d
  advance receives d = d
  advance closes d = close d
  advance (sends text fails) d = send text (loads text) fails d
  advance (arrives text) d = arrive text d.pump d
  advance resumes d = resume_pump d.pump d
  advance stream_ends d = stop_pump closed_mark d.pump d
  advance stream_breaks d = stop_pump error d.pump d
  advance (starts s) d = start s (phase_of s d) d
  advance (confirms s) d = confirm s (phase_of s d) d
  advance (gives_up s) d = give_up s (phase_of s d) d
  advance (leaves s) d = leave s (phase_of s d) d

  unfoldable pub step : Event → Trace → Trace
  unfolding advance receive
  step receives t = receive t.proxy.messages t
  step e t = record t { proxy = advance e t.proxy }

  unfoldable pub run : List Event → Trace → Trace
  unfolding step
  run [] t = t
  run (e ∷ events) t = run events (step e t)
