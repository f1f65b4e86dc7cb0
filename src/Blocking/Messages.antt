-- ===== src/Blocking/Messages.antt =====
-- backend/proxy/transport/domain_blocking.py: what a message says of commands, targets and sessions.
use stolosio.Prelude.{
  String, str_eq, Option, none, some, List, [], ◌∷◌, Bool, true, false, ◌&&◌, not, if◌then◌else◌,
}
use stolosio.Prelude.Dicts.{contains, lookup}
use stolosio.Blocking.Json.{ℤ, int_eq, Json, array, string, object, get, is_object, as_text, as_int}

-- The key of a command: the session that it is for, if any, and its id.
pub record CommandKey : Type 0 where
  pub session_id : Option String
  pub command_id : ℤ

abbrev pub same_session : Option String → Option String → Bool
same_session none none = true
same_session (some a) (some b) = str_eq a b
same_session _ _ = false

abbrev pub same_key : CommandKey → CommandKey → Bool
same_key a b = same_session a.session_id b.session_id && int_eq a.command_id b.command_id

-- `_value_command_key`, of a value that is an object.
unfoldable pub value_command_key : Json → Option CommandKey
value_command_key value = key (as_int (get "id" value))
  where
    key : Option ℤ → Option CommandKey
    key none = none
    key (some id) = some (record { session_id = as_text (get "sessionId" value); command_id = id })

-- _BLOCKABLE_TARGET_TYPES
abbrev pub blockable_target_types : List String
blockable_target_types =
    "background_page" ∷ "iframe" ∷ "page" ∷ "service_worker" ∷ "shared_worker" ∷ "webview"
    ∷ "worker" ∷ []

-- What `_attached_page_session_id_value` does: a type that cannot be hashed raises.
pub data Attached : Type 0 where
  attaches : String → Attached
  no_page raises : Attached

abbrev type_test : Option Json → Option String → Attached
type_test (some (string t)) (some s) =
    if contains t blockable_target_types then attaches s else no_page
type_test (some array) _ = raises
type_test (some (object _)) _ = raises
type_test _ _ = no_page

abbrev is_object_option : Option Json → Bool
is_object_option none = false
is_object_option (some v) = is_object v

abbrev get_option : String → Option Json → Option Json
get_option k none = none
get_option k (some v) = get k v

abbrev is_attach : Option String → Bool
is_attach none = false
is_attach (some m) = str_eq m "Target.attachedToTarget"

-- `_attached_page_session_id_value`, of a value that is an object.
unfoldable pub attached_page_session : Json → Attached
attached_page_session value =
    let params = get "params" value in
    let target = get_option "targetInfo" params in
    if not (is_attach (as_text (get "method" value)))
    then no_page
    else if not (is_object_option params)
    then no_page
    else if not (is_object_option target)
    then no_page
    else type_test (get_option "type" target) (as_text (get_option "sessionId" params))

abbrev or_text : Option String → Option String → Option String
or_text none b = b
or_text (some a) b = some a

-- The target that a container names.
abbrev target_id_of : Option Json → Option String
target_id_of container =
    or_text (as_text (get_option "targetId" (get_option "targetInfo" container)))
      (as_text (get_option "targetId" container))

-- One round of the loop: the answer, if the container gives one.
abbrev container_session : List (String × String) → Option Json → Option (Option String)
container_session sessions container =
    named (as_text (get_option "sessionId" container)) (target_id_of container)
  where
    named : Option String → Option String → Option (Option String)
    named (some s) _ = some (some s)
    named none (some t) = some (lookup t sessions)
    named none none = none

-- `_message_target_session_id`
unfoldable pub message_target_session : List (String × String) → Json → Option String
message_target_session sessions value =
    first (as_text (get "sessionId" value)) (container_session sessions (get "params" value))
      (container_session sessions (get "result" value))
  where
    first : Option String → Option (Option String) → Option (Option String) → Option String
    first (some s) _ _ = some s
    first none (some answer) _ = answer
    first none none (some answer) = answer
    first none none none = none
