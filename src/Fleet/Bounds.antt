-- ===== src/Fleet/Bounds.antt =====
-- The policy moves by one instance at most, and never out of the configured limits.
use stolosio.Prelude.{
  ℕ, ◌+◌, ◌-◌, ◌*◌, ◌≤◌, ◌<◌, ◌≡◌, ◌⊎◌, Option, none, some, true, Time, second, arith, inl, inr,
  Option-cases, ceil_div,
}
use native.Mathlib.Nat.{div-add-mod', mod-lt, le_trans, mul-le-mul_right}
use stolosio.Tables.{ProviderFleet}
use stolosio.Fleet.Policy.{up, down, stay, ScalingDecision, Provisioned, target, scaling_decision}

-- Two of the table's constraints on a fleet's limits: those that the policy's bounds need.
pub record IsValid (fleet : ProviderFleet) : Type 0 where
  pub ordered : fleet.minimum_instances ≤ fleet.maximum_instances
  pub capacity : 0 < fleet.session_capacity_per_instance

target-le-maximum :
    (fleet : ProviderFleet) (demand : ℕ) (p : Option Provisioned)
    → target fleet demand p ≤ fleet.maximum_instances
unfolding target
target-le-maximum fleet demand none = ground arith
target-le-maximum fleet demand (some p) = ground arith

minimum-le-target :
    (fleet : ProviderFleet) (demand : ℕ) (p : Option Provisioned)
    → IsValid fleet
    → fleet.enabled ≡ true
    → fleet.minimum_instances ≤ target fleet demand p
unfolding target
minimum-le-target fleet demand none v on = ground arith
minimum-le-target fleet demand (some p) v on = ground arith

-- What one decision may be: its count, its direction and what it waited for.
pub record IsMeasured (fleet : ProviderFleet) (demand : ℕ) (now : Time) (p : Option Provisioned)
    (d : ScalingDecision) : Type 0 where
  pub grows :
      d.direction ≡ up
      → (d.desired_instances ≡ fleet.desired_instances + 1)
        × (fleet.desired_instances < target fleet demand p)
  pub keeps : d.direction ≡ stay → d.desired_instances ≡ fleet.desired_instances
  pub shrinks :
      d.direction ≡ down
      → (d.desired_instances + 1 ≡ fleet.desired_instances)
        × (demand ≡ 0)
        × (target fleet demand p < fleet.desired_instances)
        × ((since : Time) × (fleet.idle_since ≡ some since)
            × (fleet.scale_down_cooldown_seconds * second ≤ now - since))

-- Every decision adds one instance, when the target is above the count; or removes one, when there
-- is no demand, the target is below the count and the fleet has idled for the whole cooldown; or
-- leaves the count alone.
pub scaling_decision-IsMeasured :
    (fleet : ProviderFleet) (demand : ℕ) (now : Time) (p : Option Provisioned)
    → IsMeasured fleet demand now p (scaling_decision fleet demand now p)
unfolding scaling_decision
scaling_decision-IsMeasured fleet demand now p = record {
  grows = λ e. ground arith;
  keeps = λ e. ground arith;
  shrinks = λ e. elim (Option-cases fleet.idle_since) [
    | inl x ↦ absurd (ground arith)
    | inr (since, x) ↦ (ground arith, ground arith, ground arith, (since, x, ground arith))
  ];
}

-- An enabled fleet whose count lies within its limits stays within them, whatever the demand, the
-- clock and what is provisioned.
pub scaling_decision_bounds :
    (fleet : ProviderFleet) (demand : ℕ) (now : Time) (p : Option Provisioned)
    → IsValid fleet
    → fleet.enabled ≡ true
    → fleet.minimum_instances ≤ fleet.desired_instances
    → fleet.desired_instances ≤ fleet.maximum_instances
    → (fleet.minimum_instances ≤ (scaling_decision fleet demand now p).desired_instances)
      × ((scaling_decision fleet demand now p).desired_instances ≤ fleet.maximum_instances)
unfolding scaling_decision
scaling_decision_bounds fleet demand now p v on low high =
    let top = target-le-maximum fleet demand p in
    let bottom = minimum-le-target fleet demand p v on in
    elim (Option-cases fleet.idle_since) [ inl x ↦ ground arith | inr (since, x) ↦ ground arith ]

ceil_div-covers : (n d : ℕ) → 0 < d → n ≤ ceil_div n d * d
ceil_div-covers n d h = omega (arith, div-add-mod' (n + (d - 1)) d, mod-lt (n + (d - 1)) h)

required-le-target :
    (fleet : ProviderFleet) (demand : ℕ) (p : Option Provisioned)
    → fleet.enabled ≡ true
    → (ceil_div demand fleet.session_capacity_per_instance ≤ target fleet demand p)
      ⊎ (target fleet demand p ≡ fleet.maximum_instances)
unfolding target
required-le-target fleet demand none on = ground arith
required-le-target fleet demand (some p) on = ground arith

-- The target of an enabled fleet with valid limits has slots for the whole demand, or it is the
-- configured maximum, whatever is provisioned.
pub target-covers :
    (fleet : ProviderFleet) (demand : ℕ) (p : Option Provisioned)
    → IsValid fleet
    → fleet.enabled ≡ true
    → (demand ≤ target fleet demand p * fleet.session_capacity_per_instance)
      ⊎ (target fleet demand p ≡ fleet.maximum_instances)
target-covers fleet demand p v on = elim (required-le-target fleet demand p on) [
  | inr e ↦ inr e
  | inl h ↦ inl (
      le_trans (ceil_div-covers demand _ v.capacity)
        (mul-le-mul_right fleet.session_capacity_per_instance h))
]
