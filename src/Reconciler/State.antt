-- ===== src/Reconciler/State.antt =====
-- backend/fleet/reconciler.py: what the reconciler keeps, what surrounds a pass and what it does.
use stolosio.Prelude.{ℕ, String, Option, List, Bool, Time}
use stolosio.Contracts.{Key, ProviderName, RepositoryError}
use stolosio.Tables.{Database}

pub record RuntimeInstance : Type 0 where
  pub instance_id : Key
  pub started_at : Option Time
  pub session_capacity : Option ℕ
  pub configuration_stale : Bool

-- _ScaleRequest
pub record ScaleRequest : Type 0 where
  pub requested_at : Time
  pub ready_observed : Bool
  pub assignment_observed : Bool

pub record FleetReconciler : Type 0 where
  pub unhealthy_since : List (Key × Time)
  pub known_instances : List Key
  pub unbound_scale_requests : List ScaleRequest
  pub scale_requests : List (Key × ScaleRequest)

-- The places of a pass at which it reads the clock or begins a transaction.
pub data Moment : Type 0 where
  evaluating preparing cancelling scaling observing measuring recording : Moment
  checking replacing latency_of : Key → Moment

-- The fleet, and what a pass meets: the answers of the runtime, each of which it asks for once; the
-- clock; and what other processes do to the database before each transaction of the pass.
pub record Surroundings : Type 0 where
  pub provider : ProviderName
  pub platform : String
  pub endpoint : RuntimeInstance → String
  pub observation_ttl : Time
  pub startup_timeout : Time
  pub first_listing : List RuntimeInstance
  pub second_listing : List RuntimeInstance
  pub scale_down_candidate : List RuntimeInstance → Option RuntimeInstance
  pub scale_fails : Bool
  pub port_open : RuntimeInstance → Bool
  pub remove_fails : Key → Bool
  pub clock : Moment → Time
  pub others : Moment → Database → Database

-- The direction of a pass, or of the error that ends it.
pub data Operation : Type 0 where
  up down configure replace : Operation

-- What the runtime is told to do.
pub data Command : Type 0 where
  scale : ℕ → ℕ → Command
  remove : Key → Command

-- Beside a command, the database that the pass's last transaction before it has left, which only
-- the theorems read. What other processes write until the command is not in it: it is part of what
-- they write before the pass's next transaction.
pub record Call : Type 0 where
  pub command : Command
  pub database : Database

pub record Pass : Type 0 where
  pub database : Database
  pub reconciler : FleetReconciler
  pub calls : List Call
  pub controller_status : String

pub record ReconciliationResult : Type 0 where
  pub scale_direction : Option Operation
  pub replaced_instances : ℕ
  pub ready_latencies : List Time
  pub first_assignment_latencies : List Time
  pub unassigned_scale_requests : ℕ

-- The answer of a pass; its ReconciliationOperationError; or an exception of the repository.
pub data Ending : Type 0 where
  reconciled : ReconciliationResult → Ending
  operation_failed : Operation → Ending
  repository_failed : RepositoryError → Ending

-- A section of a pass goes on with an answer, or it ends the pass.
pub data Progress (Answer : Type 0) : Type 0 where
  ends : Ending → Pass → Progress Answer
  goes_on : Answer → Pass → Progress Answer
