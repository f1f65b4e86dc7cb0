-- ===== src/Usage.antt =====
-- backend/proxy/postgres/usage.py: what an attempt has used, when it ends.
-- `round(seconds * 1000)` is exact here, from microseconds and half to even; the program's floats
-- can only differ at such a half.
pub mod Laws
use stolosio.Prelude.{ℕ, ◌+◌, ◌-◌, ◌*◌, ◌/◌, Option, none, some, List, Time, round_div, find}
use stolosio.Contracts.{same_provider}
use stolosio.Tables.{AcquisitionAttempt, ProviderCostRate}

-- max(0, round((later - earlier).total_seconds() * 1000))
abbrev pub elapsed_ms : Time → Time → ℕ
elapsed_ms later earlier = round_div (later - earlier) 1000

close_provider_usage : Option Time → Option Time → Time → AcquisitionAttempt → AcquisitionAttempt
close_provider_usage (some started) none now row = record row {
  provider_ended_at = some now;
  provider_reported_ms = some (elapsed_ms now started);
}
close_provider_usage _ _ now row = row

measure_capacity : Option Time → Time → AcquisitionAttempt → AcquisitionAttempt
measure_capacity none now row = row
measure_capacity (some acquiring_at) now row = record row {
  capacity_occupied_ms = some (elapsed_ms now acquiring_at);
}

measure_browser : Option Time → Time → AcquisitionAttempt → AcquisitionAttempt
measure_browser none now row = row
measure_browser (some active_at) now row = record row {
  browser_connected_ms = some (elapsed_ms now active_at);
}

charge : Option ProviderCostRate → Option ℕ → AcquisitionAttempt → AcquisitionAttempt
charge (some rate) (some ms) row = record row {
  cost_rate_units_per_second = some rate.cost_units_per_second;
  modeled_cost_units = some ((ms * rate.cost_units_per_second + 999) / 1000);
}
charge _ _ row = row

unfoldable pub finalize_attempt_usage :
    List ProviderCostRate → Time → AcquisitionAttempt → AcquisitionAttempt
unfolding close_provider_usage measure_capacity measure_browser charge
finalize_attempt_usage rates now row =
    let ended = close_provider_usage row.provider_started_at row.provider_ended_at now row in
    let occupied = measure_capacity ended.acquiring_at now ended in
    let connected = measure_browser occupied.active_at now occupied in
    let chargeable = record connected {
      chargeable_time_ms = connected.capacity_occupied_ms;
      cost_basis = some "capacity_occupied";
    } in
    charge (find (λ r. same_provider r.provider row.provider) rates) chargeable.chargeable_time_ms
      chargeable
