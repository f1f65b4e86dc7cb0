-- ===== src/Fleet/Policy.antt =====
-- backend/fleet/policy.py: how many instances a fleet should have next. The configuration is the
-- fleet's row. `ceil(demand / capacity)` is exact: below 2^53 the program's float division is.
use stolosio.Prelude.{
  ℕ, ◌+◌, ◌-◌, ◌*◌, Option, none, some, Bool, ◌&&◌, false, Time, second, if◌then◌else◌, ltb, leb,
  ceil_div, max, min,
}
use stolosio.Tables.{ProviderFleet}

pub data Direction : Type 0 where
  up down stay : Direction

pub record ScalingDecision : Type 0 where
  pub desired_instances : ℕ
  pub direction : Direction
  pub idle_since : Option Time
  pub demand : ℕ

-- What is provisioned, where the caller knows it: the instances and their slots.
pub record Provisioned : Type 0 where
  pub instances : ℕ
  pub capacity : ℕ

-- All that is desired is there, and its slots are fewer than the demand.
abbrev is_short : Option Provisioned → ℕ → ℕ → Bool
is_short none current demand = false
is_short (some p) current demand =
    ltb 0 demand && (leb current p.instances && ltb p.capacity demand)

unfoldable pub target : ProviderFleet → ℕ → Option Provisioned → ℕ
target fleet demand provisioned =
    let current = fleet.desired_instances in
    let required = ceil_div demand fleet.session_capacity_per_instance in
    let bounded = min fleet.maximum_instances (max fleet.minimum_instances required) in
    if fleet.enabled
    then (if is_short provisioned current demand
        then max bounded (min fleet.maximum_instances (current + 1))
        else bounded)
    else 0

-- With no demand: the fleet idles from now on, or it has idled long enough to shrink, or not yet.
abbrev idle_decision : ProviderFleet → ℕ → Time → Option Time → ScalingDecision
idle_decision fleet goal now none = record {
  desired_instances = fleet.desired_instances;
  direction = stay;
  idle_since = some now;
  demand = 0;
}
idle_decision fleet goal now (some since) =
    if ltb goal fleet.desired_instances
      && leb (fleet.scale_down_cooldown_seconds * second) (now - since)
    then record {
      desired_instances = fleet.desired_instances - 1;
      direction = down;
      idle_since = some since;
      demand = 0;
    }
    else record {
      desired_instances = fleet.desired_instances;
      direction = stay;
      idle_since = some since;
      demand = 0;
    }

unfoldable pub scaling_decision : ProviderFleet → ℕ → Time → Option Provisioned → ScalingDecision
scaling_decision fleet demand now provisioned =
    let current = fleet.desired_instances in
    let goal = target fleet demand provisioned in
    if ltb current goal
    then record {
      desired_instances = current + 1;
      direction = up;
      idle_since = none;
      demand = demand;
    }
    else if ltb 0 demand
    then record {
      desired_instances = current;
      direction = stay;
      idle_since = none;
      demand = demand;
    }
    else idle_decision fleet goal now fleet.idle_since
