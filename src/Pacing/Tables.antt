-- ===== src/Pacing/Tables.antt =====
-- backend/db/models/domain_pacing.py: the rows of the domain pacing. The columns that a `Policy`
-- copies stand in one field, `policy`; hostnames are keys.
use stolosio.Prelude.{ℕ, Option, List, Bool, Time}
use stolosio.Contracts.{Key}
use stolosio.Pacing.Contracts.{PacingSettings, Policy, Outcome, Refusal}

-- The one row with the key "global".
pub record DomainPacingSettings : Type 0 where
  pub settings : PacingSettings
  pub version : ℕ

pub record DomainPacingState : Type 0 where
  pub hostname : Key
  pub policy : Policy
  pub next_start_at : Time
  pub last_started_at : Option Time
  pub reset_requested : Bool
  pub spacing_refused_at : Option Time
  pub settings_version : ℕ

pub record DomainPacingLease : Type 0 where
  pub id : Key
  pub hostname : Key
  pub session_id : Key
  pub expires_at : Time
  pub generation : ℕ
  pub at_limit : Bool
  pub concurrency_at_limit : Bool

pub data RequestOutcome : Type 0 where
  observed : Outcome → RequestOutcome
  interrupted : RequestOutcome

pub record DomainPacingRequest : Type 0 where
  pub id : Key
  pub hostname : Key
  pub started_at : Time
  pub finished_at : Option Time
  pub lease_expires_at : Option Time
  pub refusal : Option Refusal
  pub outcome : Option RequestOutcome
  pub active_captures : ℕ
  pub concurrency : ℕ
  pub spacing_seconds : Time

-- A `domain.pacing.adjusted` event: the policy in force from then on.
pub record Adjustment : Type 0 where
  pub session_id : Key
  pub hostname : Key
  pub occurred_at : Time
  pub policy : Policy

-- The newest event stands first.
pub record PacingDatabase : Type 0 where
  pub settings : Option DomainPacingSettings
  pub states : List DomainPacingState
  pub leases : List DomainPacingLease
  pub requests : List DomainPacingRequest
  pub adjustments : List Adjustment
