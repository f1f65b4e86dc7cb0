-- ===== src/Blocking/Session.antt =====
-- backend/proxy/transport/domain_blocking.py: the state of `DomainBlockingProviderSession`.
use stolosio.Prelude.{ℕ, String, str_eq, Option, List, [], Bool, false, map, any}
use Prim.Native.String.{◌++◌ as str_append}
use stolosio.Blocking.Json.{Json}
use stolosio.Blocking.Messages.{CommandKey, same_key}

-- blocked_url_patterns
unfoldable pub blocked_url_patterns : List String → List String
blocked_url_patterns = map (λ p. str_append "*://" (str_append p "/*"))

-- What stands in the queue to the client: a message, beside it the session that it was routed by,
-- which only the theorems read; an exception; or the end.
pub data Outgoing : Type 0 where
  message : Option String → String → Outgoing
  error closed_mark : Outgoing

-- `_pump_upstream`: not created; waiting for a message; in `_route_upstream_message`, after the new
-- target's configuration is begun, at its `sleep(0)`; or over.
pub data Pump : Type 0 where
  missing waiting ended : Pump
  routing : String → Json → String → Pump

-- `_configure_target`: not run yet; waiting for the response; or before the `finally` block.
pub data Phase : Type 0 where
  created : Phase
  awaiting leaving : CommandKey → Phase

pub record Task : Type 0 where
  pub session_id : String
  pub phase : Phase

-- A future: its command and the value that it was given, if any.
pub record Response : Type 0 where
  pub key : CommandKey
  pub result : Option Json

-- What the provider gets.
pub data Sent : Type 0 where
  downstream : String → Sent
  set_blocked_urls : CommandKey → List String → Sent

-- `_internal_command_id` is -(n + 1) for the `n` here.
pub record DomainBlocking : Type 0 where
  pub url_patterns : List String
  pub internal_command_id : ℕ
  pub downstream_command_ids : List CommandKey
  pub internal_responses : List Response
  pub messages : List Outgoing
  pub pump : Pump
  pub configuration_tasks : List Task
  pub unconfigured_targets : List String
  pub target_buffers : List (String × List String)
  pub target_sessions : List (String × String)
  pub disconnected : Bool
  pub closed : Bool
  pub terminal_enqueued : Bool
  pub sent : List Sent

-- `__init__`
unfoldable pub new_session : List String → DomainBlocking
unfolding blocked_url_patterns
new_session domain_patterns = record {
  url_patterns = blocked_url_patterns domain_patterns;
  internal_command_id = 0;
  downstream_command_ids = [];
  internal_responses = [];
  messages = [];
  pump = missing;
  configuration_tasks = [];
  unconfigured_targets = [];
  target_buffers = [];
  target_sessions = [];
  disconnected = false;
  closed = false;
  terminal_enqueued = false;
  sent = [];
}

abbrev pub for_session : String → Task → Bool
for_session s t = str_eq t.session_id s

abbrev pub has_task : String → DomainBlocking → Bool
has_task s d = any (for_session s) d.configuration_tasks

abbrev pub for_key : CommandKey → Response → Bool
for_key key r = same_key r.key key
