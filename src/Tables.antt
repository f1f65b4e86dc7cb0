-- ===== src/Tables.antt =====
-- backend/db/models: the rows that the repositories read and write, and the whole database.
-- A transaction is a function from the database to the database; the row locks and the gateway and
-- provider locks that the program takes are what makes each of them one step.
use stolosio.Prelude.{ℕ, String, Bool, Option, List, Time}
use stolosio.Contracts.{Key, Json, ProviderName, SessionState, AttemptState, Workload}

pub record GatewaySession : Type 0 where
  pub id : Key
  pub owner_id : Key
  pub lease_token : Key
  pub client_reference : Option Key
  pub requested_settings : Json
  pub workload : Workload
  pub capture_hostname : Option String
  pub state : SessionState
  pub created_at : Time
  pub admitted_at : Option Time
  pub opened_at : Option Time
  pub closing_at : Option Time
  pub closed_at : Option Time
  pub lease_expires_at : Option Time
  pub terminal_reason : Option String

pub record AcquisitionAttempt : Type 0 where
  pub id : Key
  pub session_id : Key
  pub ordinal : ℕ
  pub provider : ProviderName
  pub provider_instance_id : Option Key
  pub provider_session_id : Option String
  pub resolved_settings : Json
  pub setting_sources : Json
  pub state : AttemptState
  pub queue_sequence : ℕ
  pub created_at : Time
  pub queued_at : Option Time
  pub acquiring_at : Option Time
  pub active_at : Option Time
  pub finished_at : Option Time
  pub provider_started_at : Option Time
  pub provider_ended_at : Option Time
  pub capacity_occupied_ms : Option ℕ
  pub browser_connected_ms : Option ℕ
  pub provider_reported_ms : Option ℕ
  pub chargeable_time_ms : Option ℕ
  pub cost_basis : Option String
  pub cost_rate_units_per_second : Option ℕ
  pub terminal_reason : Option String
  pub modeled_cost_units : Option ℕ
  pub command_summary : Option Json
  pub phase_summary : Option Json

-- `event_type` is a text in the program: `session.<state>` and `attempt.<what>`.
pub data EventType : Type 0 where
  session : SessionState → EventType
  attempt_connected attempt_closed attempt_failed : EventType

-- The payload has a `reason` and a `cost_units`, where it has them.
pub record SessionEvent : Type 0 where
  pub session_id : Key
  pub attempt_id : Option Key
  pub event_type : EventType
  pub provider : Option ProviderName
  pub reason : Option String
  pub occurred_at : Time
  pub payload_reason : Option String
  pub payload_cost_units : Option ℕ

pub data FleetInstanceState : Type 0 where
  starting ready draining unhealthy stopped : FleetInstanceState

pub record ProviderInstance : Type 0 where
  pub id : Key
  pub provider : ProviderName
  pub platform : String
  pub endpoint : String
  pub state : FleetInstanceState
  pub capacity : ℕ
  pub observed_at : Time
  pub observation_expires_at : Time
  pub started_at : Option Time
  pub ready_at : Option Time
  pub draining_at : Option Time
  pub stopped_at : Option Time

pub record ProviderFleet : Type 0 where
  pub provider : ProviderName
  pub minimum_instances : ℕ
  pub maximum_instances : ℕ
  pub session_capacity_per_instance : ℕ
  pub scale_down_cooldown_seconds : ℕ
  pub max_queued_attempts : ℕ
  pub desired_instances : ℕ
  pub configuration_version : ℕ
  pub enabled : Bool
  pub last_scale_up_at : Option Time
  pub last_scale_down_at : Option Time
  pub idle_since : Option Time
  pub last_reconciled_at : Option Time
  pub controller_status : Option String
  pub updated_at : Time

pub record ExternalProviderLimit : Type 0 where
  pub provider : ProviderName
  pub enabled : Bool
  pub max_active_sessions : ℕ
  pub max_queued_attempts : ℕ
  pub configuration_version : ℕ
  pub updated_at : Time

pub record ProviderCostRate : Type 0 where
  pub provider : ProviderName
  pub cost_units_per_second : ℕ

-- The newest event stands first. `next_queue_sequence` is the attempts' sequence of the database.
pub record Database : Type 0 where
  pub sessions : List GatewaySession
  pub attempts : List AcquisitionAttempt
  pub instances : List ProviderInstance
  pub fleets : List ProviderFleet
  pub limits : List ExternalProviderLimit
  pub rates : List ProviderCostRate
  pub events : List SessionEvent
  pub next_queue_sequence : ℕ
